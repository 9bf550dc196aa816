-- ===== src/Hub/Channel.antt =====
-- One channel of a subscriber, from `Subscribe` to the end (internal/hub/hub.go).
use zigbeemq.Prelude.{
  ltb, ◌==◌, if◌then◌else◌, length, All, ℕ, ◌<◌, ◌≡◌, refl, ap, Option, none, some, List, [], ◌∷◌,
  ◌++◌, map, arith,
}
use zigbeemq.Hub.{Event, Subscriber, Hub, offer, broadcast, without, unsubscribe}
use zigbeemq.Hub.Subscribers.{broadcasts}

-- A receive from a channel that is not empty: its oldest event.
take_event : ℕ → List Subscriber → Option Event × List Subscriber
take_event id [] = (none, [])
take_event id (s ∷ subs) =
    let (found, rest) = take_event id subs in
    if s.id == id
    then (elim s.queue [
      | [] ↦ (none, s ∷ subs)
      | ev ∷ evs ↦ (some ev, record s { queue = evs } ∷ subs)
    ])
    else (found, s ∷ rest)

unfoldable pub receive : ℕ → Hub → Option Event × Hub
unfolding take_event
receive id h = let (found, subs) = take_event id h.subs in (found, record h { subs = subs })

-- A queue of 256 events.
abbrev pub push : Event → List Event → List Event
push ev q = if ltb (length q) 256 then q ++ ev ∷ [] else q

-- The hub with one more channel.
abbrev pub mine : ℕ → List Event → Hub → Hub
mine id q h = record h { subs = record { id = id; queue = q } ∷ h.subs }

abbrev Older : ℕ → List Subscriber → Type 0
Older id subs = All (λ s. s.id < id) subs

offer_mine :
    (id : ℕ) (ev : Event) (q : List Event)
    → offer ev (record { id = id; queue = q }) ≡ record { id = id; queue = push ev q }
unfolding offer
offer_mine id ev q = ground arith

offer-Older :
    (id : ℕ) (ev : Event) (subs : List Subscriber) → Older id subs → Older id (map (offer ev) subs)
offer-Older id ev [] p = p
offer-Older id ev (s ∷ subs) (p, ps) = (unfold offer in ground arith, offer-Older id ev subs ps)

pub broadcast-mine :
    (id : ℕ) (ev : Event) (q : List Event) (h : Hub)
    → broadcast ev (mine id q h) ≡ mine id (push ev q) (broadcast ev h)
unfolding broadcast
broadcast-mine id ev q h =
    ap (λ s. record h { subs = s ∷ map (offer ev) h.subs }) (offer_mine id ev q)

without-Older : (id : ℕ) (subs : List Subscriber) → Older id subs → without id subs ≡ subs
unfolding without
without-Older id [] p = refl
without-Older id (s ∷ subs) (p, ps) = ground (arith, without-Older id subs ps)

pub unsubscribe-mine :
    (id : ℕ) (q : List Event) (h : Hub) → Older id h.subs → unsubscribe id (mine id q h) ≡ h
unfolding unsubscribe without
unsubscribe-mine id q h p =
    let gone : without id (mine id q h).subs ≡ h.subs = ground (arith, without-Older id h.subs p) in
    ap (λ subs. record h { subs = subs }) gone

pub receive_first :
    (id : ℕ) (ev : Event) (q : List Event) (h : Hub)
    → receive id (mine id (ev ∷ q) h) ≡ (some ev, mine id q h)
unfolding receive take_event
receive_first id ev q h = ground arith

pub receive-none : (id : ℕ) (h : Hub) → receive id (mine id [] h) ≡ (none, mine id [] h)
unfolding receive take_event
receive-none id h = ground arith

pub broadcasts-Older :
    (id : ℕ) (evs : List Event) (h : Hub) → Older id h.subs → Older id (broadcasts evs h).subs
unfolding broadcasts broadcast
broadcasts-Older id [] h p = p
broadcasts-Older id (ev ∷ evs) h p =
    broadcasts-Older id evs (broadcast ev h) (offer-Older id ev h.subs p)
