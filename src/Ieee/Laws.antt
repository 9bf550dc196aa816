-- ===== src/Ieee/Laws.antt =====
-- How device addresses are brought to their compact form.
use zigbeemq.Prelude.{
  leb, ◌==◌, All, Str, codes, to_lower, to_upper, trim_prefix, remove_all, ℕ, ◌≡◌, refl, sym, ap,
  ◌≡⟨◌⟩◌, ◌∎, Bool, true, ◌&&◌, ◌||◌, [], ◌∷◌, ◌++◌, arith,
}
use zigbeemq.Ieee.{compact_ieee}

-- A character of an address: a hexadecimal digit of either case, or a colon.
abbrev is_address_char : ℕ → Bool
is_address_char c =
    (leb b'0' c && leb c b'9')
    || (leb b'a' c && leb c b'f')
    || (leb b'A' c && leb c b'F')
    || c == b':'

abbrev pub IsAddress : Str → Type 0
IsAddress s = All (λ c. is_address_char c ≡ true) s

-- A character that stays as it is.
abbrev is_compact_char : ℕ → Bool
is_compact_char c = (leb b'0' c && leb c b'9') || (leb b'a' c && leb c b'f')

abbrev IsCompact : Str → Type 0
IsCompact s = All (λ c. is_compact_char c ≡ true) s

trim-address : (s : Str) → IsAddress s → trim_prefix s (codes "0x") ≡ s
unfolding trim_prefix
trim-address [] h = refl
trim-address (c ∷ []) h = ground arith
trim-address (c ∷ d ∷ s) (p, (q, h)) = ground arith

to_lower-IsAddress : (s : Str) → IsAddress s → IsAddress (to_lower s)
unfolding to_lower
to_lower-IsAddress [] h = tt
to_lower-IsAddress (c ∷ s) (p, h) = (ground arith, to_lower-IsAddress s h)

compact_ieee_of_address : (s : Str) → IsAddress s → compact_ieee s ≡ remove_all b':' (to_lower s)
unfolding compact_ieee
compact_ieee_of_address s h =
    ap (remove_all b':') (trim-address (to_lower s) (to_lower-IsAddress s h))

remove_all-IsCompact : (s : Str) → IsAddress s → IsCompact (remove_all b':' (to_lower s))
unfolding to_lower remove_all
remove_all-IsCompact [] h = tt
remove_all-IsCompact (c ∷ s) (p, h) = ground (arith, remove_all-IsCompact s h)

to_lower_of_compact : (s : Str) → IsCompact s → to_lower s ≡ s
unfolding to_lower
to_lower_of_compact [] h = refl
to_lower_of_compact (c ∷ s) (p, h) = ground (arith, to_lower_of_compact s h)

remove_all_of_compact : (s : Str) → IsCompact s → remove_all b':' s ≡ s
unfolding remove_all
remove_all_of_compact [] h = refl
remove_all_of_compact (c ∷ s) (p, h) = ground (arith, remove_all_of_compact s h)

IsAddress-of_compact : (s : Str) → IsCompact s → IsAddress s
IsAddress-of_compact [] h = tt
IsAddress-of_compact (c ∷ s) (p, h) = (ground arith, IsAddress-of_compact s h)

-- A text of lower-case hexadecimal digits is its own compact form.
pub compact_ieee_of_compact : (s : Str) → IsCompact s → compact_ieee s ≡ s
compact_ieee_of_compact s h =
    compact_ieee s
    ≡⟨ compact_ieee_of_address s (IsAddress-of_compact s h) ⟩ remove_all b':' (to_lower s)
    ≡⟨ ap (remove_all b':') (to_lower_of_compact s h) ⟩ remove_all b':' s
    ≡⟨ remove_all_of_compact s h ⟩ s ∎

-- The compact form of an address consists of lower-case hexadecimal digits.
pub compact_ieee-IsCompact : (s : Str) → IsAddress s → IsCompact (compact_ieee s)
compact_ieee-IsCompact s h = rw (compact_ieee_of_address s h) (remove_all-IsCompact s h)

to_lower-to_upper : (s : Str) → to_lower (to_upper s) ≡ to_lower s
unfolding to_lower to_upper
to_lower-to_upper [] = refl
to_lower-to_upper (c ∷ s) = ground (arith, to_lower-to_upper s)

-- For a text of hexadecimal digits of either case and colons, the spellings with a leading "0x" and
-- in upper case have the same compact form, and compacting a second time changes nothing.
compact_ieee_spellings :
    (s : Str)
    → IsAddress s
    → (compact_ieee (codes "0x" ++ s) ≡ compact_ieee s)
      × (compact_ieee (to_upper s) ≡ compact_ieee s)
      × (compact_ieee (compact_ieee s) ≡ compact_ieee s)
unfolding compact_ieee
compact_ieee_spellings s h = (
  ap (remove_all b':') (sym (trim-address (to_lower s) (to_lower-IsAddress s h))),
  ap (λ t. remove_all b':' (trim_prefix t (codes "0x"))) (to_lower-to_upper s),
  compact_ieee_of_compact (compact_ieee s) (compact_ieee-IsCompact s h),
)
