-- ===== src/Web/Stream/Laws.antt =====
-- What a client of the stream of events is sent, against a queue of its own
-- (`events`, internal/web/server.go).
use mathlib.Core.List.{append-nil, append_assoc}
use zigbeemq.Prelude.{
  length, length-append, All, ℕ, ◌+◌, ◌≤◌, ◌<◌, ◌≡◌, refl, sym, ap, ◌∙◌, true, List, [], ◌∷◌, ◌++◌,
  arith,
}
use zigbeemq.Hub.Channel.{
  push, mine, broadcast-mine, unsubscribe-mine, receive_first, receive-none, broadcasts-Older,
}
use zigbeemq.Hub.{Event, Hub, broadcast, subscribe}
use zigbeemq.Hub.Subscribers.{broadcasts}
use zigbeemq.Web.Stream.{
  Round, announced, ticks, arrives, Chunk, ping, data_of, stream_round, stream_rounds, Streamed,
  unsupported, stream, events,
}

-- The events that the other parts of the program broadcast meanwhile.
unfoldable pub announced_events : List Round → List Event
announced_events [] = []
announced_events (announced ev ∷ xs) = ev ∷ announced_events xs
announced_events (ticks ∷ xs) = announced_events xs
announced_events (arrives ∷ xs) = announced_events xs

abbrev sent_events : List Chunk → List Event
sent_events [] = []
sent_events (ping ∷ cs) = sent_events cs
sent_events (data_of ev ∷ cs) = ev ∷ sent_events cs

-- The specification: a queue of 256 events, and nothing else.
pub fifo : List Round → List Event → List Chunk × List Event
fifo [] q = ([], q)
fifo (announced ev ∷ xs) q = fifo xs (push ev q)
fifo (ticks ∷ xs) q = let (sent, left) = fifo xs q in (ping ∷ sent, left)
fifo (arrives ∷ xs) [] = fifo xs []
fifo (arrives ∷ xs) (ev ∷ q) = let (sent, left) = fifo xs q in (data_of ev ∷ sent, left)

arrives_first :
    (id : ℕ) (ev : Event) (q : List Event) (h : Hub)
    → stream_round id arrives (mine id (ev ∷ q) h) ≡ (data_of ev ∷ [], mine id q h)
unfolding stream_round
arrives_first id ev q h = ground (arith, receive_first id ev q h)

arrives_none : (id : ℕ) (h : Hub) → stream_round id arrives (mine id [] h) ≡ ([], mine id [] h)
unfolding stream_round
arrives_none id h = ground (arith, receive-none id h)

-- The rest of the hub sees the events that are announced, and nothing of the stream.
stream_rounds-mine :
    (id : ℕ) (xs : List Round) (q : List Event) (h : Hub)
    → stream_rounds id xs (mine id q h)
      ≡ ((fifo xs q).0, mine id (fifo xs q).1 (broadcasts (announced_events xs) h))
unfolding stream_rounds fifo broadcasts announced_events
stream_rounds-mine id [] q h = refl
stream_rounds-mine id (announced ev ∷ xs) q h =
    unfold stream_round in
    rw (broadcast-mine id ev q h) (stream_rounds-mine id xs (push ev q) (broadcast ev h))
stream_rounds-mine id (ticks ∷ xs) q h =
    unfold stream_round in rw (stream_rounds-mine id xs q h) refl
stream_rounds-mine id (arrives ∷ xs) [] h =
    rw (arrives_none id h, stream_rounds-mine id xs [] h) refl
stream_rounds-mine id (arrives ∷ xs) (ev ∷ q) h =
    rw (arrives_first id ev q h, stream_rounds-mine id xs q h) refl

-- Where the numbers of the channels are below the next one, a client of the stream is sent what a
-- queue of its own of 256 events gives, and when it has left, the hub is as the broadcasts of the
-- others alone make it: all other channels hold the same events, and the stream's channel is gone.
pub events_private :
    (rounds : List Round) (h : Hub)
    → All (λ s. s.id < h.next_sub) h.subs
    → events true rounds h ≡ (
      stream (fifo rounds []).0,
      broadcasts (announced_events rounds) (record h { next_sub = h.next_sub + 1 }),
    )
unfolding events subscribe
events_private rounds h p =
    let h0 = record h { next_sub = h.next_sub + 1 } in
    rw (stream_rounds-mine h.next_sub rounds [] h0) (
      ap (λ h'. (stream (fifo rounds []).0, h'))
        (unsubscribe-mine h.next_sub (fifo rounds []).1 (broadcasts (announced_events rounds) h0)
          (broadcasts-Older h.next_sub (announced_events rounds) h0 p)))

fifo_keeps :
    (rounds : List Round) (q : List Event)
    → length q + length (announced_events rounds) ≤ 256
    → sent_events (fifo rounds q).0 ++ (fifo rounds q).1 ≡ q ++ announced_events rounds
unfolding fifo announced_events sent_events
fifo_keeps [] q fits = sym (append-nil q)
fifo_keeps (announced ev ∷ xs) q fits =
    let pushed : push ev q ≡ q ++ ev ∷ [] = ground arith in
    let short = length-append q (ev ∷ []) in
    ap (λ r. sent_events (fifo xs r).0 ++ (fifo xs r).1) pushed
    ∙ (fifo_keeps xs (q ++ ev ∷ []) (omega arith) ∙ append_assoc q (ev ∷ []) (announced_events xs))
fifo_keeps (ticks ∷ xs) q fits = fifo_keeps xs q fits
fifo_keeps (arrives ∷ xs) [] fits = fifo_keeps xs [] fits
fifo_keeps (arrives ∷ xs) (ev ∷ q) fits = ap (λ l. ev ∷ l) (fifo_keeps xs q (omega arith))

fifo_complete :
    (rounds : List Round)
    → length (announced_events rounds) ≤ 256
    → sent_events (fifo rounds []).0 ++ (fifo rounds []).1 ≡ announced_events rounds
fifo_complete rounds fits = fifo_keeps rounds [] (omega arith)

-- The events that a response has sent.
abbrev pub sent_by : Streamed → List Event
sent_by (unsupported status text) = []
sent_by (stream chunks) = sent_events chunks

-- Where the numbers of the channels are below the next one and at most 256 events are announced while
-- the stream is open, those that the client is sent are all of them in their order, but for the last
-- ones, which are still in the queue of the specification.
pub events_complete :
    (rounds : List Round) (h : Hub)
    → All (λ s. s.id < h.next_sub) h.subs
    → length (announced_events rounds) ≤ 256
    → sent_by (events true rounds h).0 ++ (fifo rounds []).1 ≡ announced_events rounds
events_complete rounds h p fits = rw (events_private rounds h p) (fifo_complete rounds fits)
