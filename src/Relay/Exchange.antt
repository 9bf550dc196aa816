-- ===== src/Relay/Exchange.antt =====
-- One request and its answer (`relayExchange` of internal/hub/relay.go, `noteAF` of
-- internal/hub/incoming.go).
--
-- The slot is set and cleared within one call, under the lock of the radio, so it is a value of that
-- call. What the listener and the loop do meanwhile is a list of moments, in any order.
pub mod Laws
pub mod Order
use zigbeemq.Prelude.{
  ltb, ◌==◌, if◌then◌else◌, length, Str, codes, hex2, decimal, join_commas, ℕ, ◌+◌, ◌%◌, Bool, ◌&&◌,
  Option, none, some, List, [], ◌∷◌, ◌++◌,
}
use zigbeemq.Zigbee.{Frame, Message, Outgoing, Goznp}
use zigbeemq.Errors.{Error, message, Reply, ok, err}
use zigbeemq.Radio.{Moment, hears, takes, gives_up, Link}
use zigbeemq.Relay.Call.{Call, require, gets, update_hub, ◌>>=◌, ◌>>◌}

-- `afSlot`; its channel holds 8 messages.
pub record Slot : Type 0 where
  pub nwk : ℕ
  pub cluster : ℕ
  pub queue : List Message

abbrev pub open_slot : ℕ → ℕ → Slot
open_slot nwk cluster = record { nwk = nwk; cluster = cluster; queue = [] }

-- A message that the slot is for.
abbrev pub fits : ℕ → ℕ → Message → Bool
fits nwk cluster m = m.src_addr == nwk && m.cluster_id == cluster

-- `noteAF`, where there is a slot: a full channel drops the message.
unfoldable pub note_af : Message → Slot → Slot
note_af m s = record s {
  queue = if fits s.nwk s.cluster m && ltb (length s.queue) 8 then s.queue ++ m ∷ [] else s.queue;
}

-- The sequence number after `n`: `h.zclSeq++` of a uint8, which passes over 0.
pub next_seq : ℕ → ℕ
next_seq n = let m = (n + 1) % 256 in if m == 0 then 1 else m

module _ (z : Goznp) where
  -- The frame of a message, if it has the command that is waited for.
  unfoldable pub answer_in : ℕ → Message → Option Frame
  answer_in want m = elim (z.parse_frame m.body) [
    | none ↦ none
    | some frame ↦ if frame.command_id == want then some frame else none
  ]

  -- What the loop notes of a message that it passes over.
  skipped_text : Message → Str
  skipped_text m = elim (z.parse_frame m.body) [
    | none ↦ codes "len:" ++ decimal (length m.body)
    | some frame ↦ codes "cmd:0x" ++ hex2 frame.command_id
  ]

  abbrev timed_out : List Str → Error
  timed_out skipped = message (codes "relay response timeout skipped=" ++ join_commas skipped)

  -- The loop that waits, over the moments until its timer fires.
  unfoldable pub wait_answer : ℕ → List Moment → Slot → List Str → Reply Frame
  unfolding skipped_text
  wait_answer want [] s skipped = err (timed_out skipped)
  wait_answer want (hears m ∷ moments) s skipped = wait_answer want moments (note_af m s) skipped
  wait_answer want (gives_up e ∷ moments) s skipped = err e
  wait_answer want (takes ∷ moments) s skipped = elim s.queue [
    | [] ↦ wait_answer want moments s skipped
    | m ∷ queue ↦
        let rest =
          wait_answer want moments (record s { queue = queue }) (skipped ++ skipped_text m ∷ []) in
        elim (answer_in want m) [ some frame ↦ ok frame | none ↦ rest ]
  ]

  -- A call of the client that gives a status; any but 0 is an error.
  abbrev zero_status : Str → Reply ℕ → Reply (Unit {0})
  zero_status text (err e) = err e
  zero_status text (ok status) = if status == 0 then ok tt else err (message (text ++ hex2 status))

  module _ {World : Type 0} (link : Link World) where
    sends : ℕ → ℕ → ℕ → ℕ → Outgoing → Call World (Unit {0})
    sends nwk ep cluster seq out h w =
        let (w', r) = link.data_request w nwk ep cluster seq out in
        (h, w', zero_status (codes "data request status 0x") r)

    confirms : ℕ → Call World (Unit {0})
    confirms seq h w =
        let (w', r) = link.data_confirm w seq in (h, w', zero_status (codes "data confirm 0x") r)

    awaits : ℕ → ℕ → ℕ → Call World Frame
    awaits nwk cluster want h w =
        let (w', moments) = link.moments w in
        (h, w', wait_answer want moments (open_slot nwk cluster) [])

    -- `relayExchange`.
    unfoldable pub relay_exchange : ℕ → ℕ → ℕ → Outgoing → ℕ → Call World Frame
    unfolding sends confirms awaits
    relay_exchange nwk ep cluster out want = do
      require link.present (message (codes "no znp client"))
      update_hub (λ h. record h { zcl_seq = next_seq h.zcl_seq })
      seq ← gets (λ h. h.zcl_seq)
      sends nwk ep cluster seq out
      confirms seq
      awaits nwk cluster want
