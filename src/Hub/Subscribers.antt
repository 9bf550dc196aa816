-- ===== src/Hub/Subscribers.antt =====
-- The channels of the subscribers.
use mathlib.Core.List.{append-nil, append_assoc}
use zigbeemq.Prelude.{
  ltb, Bool-cases, length, take, length-append, take-append, All, ℕ, zero, suc, ◌≤◌, ◌≡◌, refl, sym,
  ap, ◌∙◌, inl, inr, true, List, [], ◌∷◌, ◌++◌, map, arith,
}
use zigbeemq.Hub.{Event, Subscriber, Hub, offer, broadcast}

offers : List Event → Subscriber → Subscriber
offers [] s = s
offers (ev ∷ evs) s = offers evs (offer ev s)

unfoldable pub broadcasts : List Event → Hub → Hub
broadcasts [] h = h
broadcasts (ev ∷ evs) h = broadcasts evs (broadcast ev h)

map-map-offer :
    (ev : Event) (evs : List Event) (subs : List Subscriber)
    → map (offers evs) (map (offer ev) subs) ≡ map (offers (ev ∷ evs)) subs
unfolding offers
map-map-offer ev evs [] = refl
map-map-offer ev evs (s ∷ subs) = ap (λ l. offers evs (offer ev s) ∷ l) (map-map-offer ev evs subs)

map_id : (subs : List Subscriber) → map (offers []) subs ≡ subs
unfolding offers
map_id [] = refl
map_id (s ∷ subs) = ap (λ l. s ∷ l) (map_id subs)

broadcasts-offers : (evs : List Event) (h : Hub) → (broadcasts evs h).subs ≡ map (offers evs) h.subs
unfolding broadcasts
broadcasts-offers [] h = sym (map_id h.subs)
broadcasts-offers (ev ∷ evs) h =
    broadcasts-offers evs (broadcast ev h) ∙ (unfold broadcast in map-map-offer ev evs h.subs)

take_short : (n : ℕ) (l : List Event) → length l ≤ n → take n l ≡ l
take_short zero [] h = refl
take_short (suc n) [] h = refl
take_short zero (x ∷ l) h = absurd (omega arith)
take_short (suc n) (x ∷ l) h = ap (λ r. x ∷ r) (take_short n l (omega arith))

take_full : (n : ℕ) (l k : List Event) → length l ≡ n → take n (l ++ k) ≡ l
take_full n l k e = rw (← e) (take-append l k)

offers_full : (evs : List Event) (s : Subscriber) → length s.queue ≡ 256 → offers evs s ≡ s
unfolding offers offer
offers_full [] s e = refl
offers_full (ev ∷ evs) s e =
    let full : offer ev s ≡ s = ground arith in rw full (offers_full evs s e)

-- The channel holds the first 256 of what it held followed by the events.
abbrev pub filled : List Event → Subscriber → Subscriber
filled evs s = record s { queue = take 256 (s.queue ++ evs) }

has_room :
    (s : Subscriber) (ev : Event)
    → ltb (length s.queue) 256 ≡ true
    → length (s.queue ++ ev ∷ []) ≤ 256
has_room s ev h = ground (arith, length-append s.queue (ev ∷ []))

offers_lem :
    (evs : List Event) (s : Subscriber) → length s.queue ≤ 256 → offers evs s ≡ filled evs s
unfolding offers offer
offers_lem [] s h = sym (
    ap (λ q. record s { queue = q })
      (ap (take 256) (append-nil s.queue) ∙ take_short 256 s.queue h))
offers_lem (ev ∷ evs) s h = elim (Bool-cases (ltb (length s.queue) 256)) [
  | inl room ↦
      let next : Subscriber = record s { queue = s.queue ++ ev ∷ [] } in
      let same : offer ev s ≡ next = ground arith in
      ap (offers evs) same
      ∙ offers_lem evs next (has_room s ev room)
      ∙ ap (λ q. record s { queue = take 256 q }) (append_assoc s.queue (ev ∷ []) evs)
  | inr no_room ↦
      let full : length s.queue ≡ 256 = ground arith in
      let same : offer ev s ≡ s = ground arith in
      ap (offers evs) same
      ∙ offers_full evs s full
      ∙ ap (λ q. record s { queue = q }) (sym (take_full 256 s.queue (ev ∷ evs) full))
]

map-offers :
    (evs : List Event) (subs : List Subscriber)
    → All (λ s. length s.queue ≤ 256) subs
    → map (offers evs) subs ≡ map (filled evs) subs
map-offers evs [] p = refl
map-offers evs (s ∷ subs) (p, ps) = rw (offers_lem evs s p, map-offers evs subs ps) refl

-- Where no channel holds more than 256 events, any sequence of broadcasts leaves the same subscribers
-- in the same order, and the channel of each holds the first 256 of the events it held followed by
-- the new ones.
pub broadcasts_bounded :
    (evs : List Event) (h : Hub)
    → All (λ s. length s.queue ≤ 256) h.subs
    → (broadcasts evs h).subs ≡ map (filled evs) h.subs
broadcasts_bounded evs h p = broadcasts-offers evs h ∙ map-offers evs h.subs p
