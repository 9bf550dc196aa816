-- ===== src/Web/Stream.antt =====
-- The stream of events (`events`, internal/web/server.go): a response that goes on until the client
-- leaves. What `select` finds ready, and what others broadcast between two rounds, is a list; how an
-- event is written as JSON is a parameter.
pub mod Laws
use zigbeemq.Prelude.{Str, codes, ℕ, Bool, true, false, none, some, List, [], ◌∷◌, ◌++◌}
use zigbeemq.Hub.Channel.{receive}
use zigbeemq.Hub.{Event, Hub, broadcast, subscribe, unsubscribe}

-- Between two looks at the stream: another part of the program broadcasts an event, or the loop finds
-- the ticker or the channel ready.
pub data Round : Type 0 where
  announced : Event → Round
  ticks : Round
  arrives : Round

-- What is sent to the client.
pub data Chunk : Type 0 where
  ping : Chunk
  data_of : Event → Chunk

-- The bytes of the writes of one round, up to the flush.
chunk_text : (Event → Str) → Chunk → Str
chunk_text json ping = codes ": ping" ++ (10 ∷ 10 ∷ [])
chunk_text json (data_of ev) = codes "data: " ++ (json ev ++ (10 ∷ 10 ∷ []))

stream_text : (Event → Str) → List Chunk → Str
unfolding chunk_text
stream_text json [] = []
stream_text json (c ∷ cs) = chunk_text json c ++ stream_text json cs

-- One round: an empty channel is not ready, so `select` does not choose it.
pub stream_round : ℕ → Round → Hub → List Chunk × Hub
unfolding receive
stream_round id (announced ev) h = ([], broadcast ev h)
stream_round id ticks h = (ping ∷ [], h)
stream_round id arrives h =
    let (found, h') = receive id h in
    elim found [ none ↦ ([], h) | some ev ↦ (data_of ev ∷ [], h') ]

pub stream_rounds : ℕ → List Round → Hub → List Chunk × Hub
unfolding stream_round
stream_rounds id [] h = ([], h)
stream_rounds id (x ∷ xs) h =
    let (chunks, h') = stream_round id x h in
    let (rest, h'') = stream_rounds id xs h' in (chunks ++ rest, h'')

-- What `events` answers: an error, or a stream.
pub data Streamed : Type 0 where
  unsupported : ℕ → Str → Streamed
  stream : List Chunk → Streamed

-- `events`, until the context of the request ends; `flushes` says that the writer is a `Flusher`.
pub events : Bool → List Round → Hub → Streamed × Hub
unfolding stream_rounds
events false rounds h = (unsupported 500 (codes "streaming unsupported"), h)
events true rounds h =
    let (h', id) = subscribe h in
    let (chunks, h'') = stream_rounds id rounds h' in (stream chunks, unsubscribe id h'')
