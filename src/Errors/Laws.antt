-- ===== src/Errors/Laws.antt =====
-- Which errors of the radio count as "the device does not answer".
use zigbeemq.Prelude.{
  any, has_prefix-append, Str, codes, str_eq, str_eq_iff, lower, to_lower, has_prefix, contains,
  ◌≡◌, refl, ap, Bool, true, List, [], ◌∷◌, ◌++◌, arith,
}
use zigbeemq.Errors.{
  unavailable, message, unreachable_codes, is_unreachable_text, is_unreachable, display_radio_error,
  map_radio_error,
}

to_lower-append : (s t : Str) → to_lower (s ++ t) ≡ to_lower s ++ to_lower t
unfolding to_lower
to_lower-append [] t = refl
to_lower-append (c ∷ s) t = ap (λ l. lower c ∷ l) (to_lower-append s t)

contains_of_prefix : (s p : Str) → has_prefix s p ≡ true → contains s p ≡ true
unfolding contains
contains_of_prefix [] p h = h
contains_of_prefix (c ∷ s) p h = rw h refl

contains-append : (a p b : Str) → contains (a ++ (p ++ b)) p ≡ true
unfolding contains
contains-append [] p b = contains_of_prefix (p ++ b) p (has_prefix-append p b)
contains-append (c ∷ a) p b = ground (arith, contains-append a p b)

any_of :
    (p : Str → Bool) (k : Str) (ws : List Str)
    → any (λ w. str_eq w k) ws ≡ true
    → p k ≡ true
    → any p ws ≡ true
any_of p k [] h q = h
any_of p k (w ∷ ws) h q = ground (arith, str_eq_iff w k, any_of p k ws)

-- An error whose text holds one of the seven status codes, in upper or lower case and anywhere in
-- the text, is displayed as "unavailable" and returned as ErrUnavailable.
status_code_unavailable :
    (before code later : Str)
    → any (λ w. str_eq w (to_lower code)) unreachable_codes ≡ true
    → let e = message (before ++ (code ++ later)) in
      (is_unreachable e ≡ true)
      × (map_radio_error e ≡ unavailable)
      × (display_radio_error e ≡ codes "unavailable")
unfolding is_unreachable is_unreachable_text map_radio_error display_radio_error
status_code_unavailable before code later h =
    let s = to_lower (before ++ (code ++ later)) in
    let hit : contains s (to_lower code) ≡ true =
      rw (to_lower-append before (code ++ later), to_lower-append code later)
        (contains-append (to_lower before) (to_lower code) (to_lower later)) in
    let listed = any_of (λ w. contains s w) (to_lower code) unreachable_codes h hit in
    (ground (arith, listed), ground (arith, listed), ground (arith, listed))
