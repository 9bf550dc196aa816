-- ===== src/Incoming/Listener.antt =====
-- The listener of the radio's frames (the function that `hookIncoming` gives to `OnFrame`,
-- internal/hub/incoming.go): it hands each AF message to the exchange that waits, if there is one, and
-- puts it in the queue of the hub, of capacity 128.
pub mod Laws
use zigbeemq.Prelude.{
  ltb, ◌==◌, if◌then◌else◌, length, ℕ, ◌&&◌, Option, none, some, List, [], ◌∷◌, ◌++◌,
}
use zigbeemq.Zigbee.{Message}
use zigbeemq.Relay.Exchange.{Slot, note_af}
use zigbeemq.Incoming.Parse.{Parsed, message, parse_af_incoming, parse_af_incoming_ext}

-- A `unpi.Frame`, with the fields that the listener looks at.
pub record WireFrame : Type 0 where
  pub kind : ℕ
  pub subsystem : ℕ
  pub command_id : ℕ
  pub bytes : List ℕ

-- The constants of goznp that tell frames apart.
pub record Wire : Type 0 where
  pub areq : ℕ
  pub af : ℕ
  pub af_incoming_msg : ℕ
  pub af_incoming_msg_ext : ℕ

-- `h.incoming`, whose goroutine has not taken the messages of `queue` yet, and `h.afWait`.
pub record Listener : Type 0 where
  pub queue : List Message
  pub slot : Option Slot

abbrev message_of : Parsed → Option Message
message_of (Parsed.message m) = some m
message_of _ = none

-- The message of a frame, if it is an AF message that can be parsed.
unfoldable pub heard : Wire → WireFrame → Option Message
heard c frame =
    if frame.kind == c.areq && frame.subsystem == c.af
    then (if frame.command_id == c.af_incoming_msg
        then message_of (parse_af_incoming frame.bytes)
        else if frame.command_id == c.af_incoming_msg_ext
        then message_of (parse_af_incoming_ext frame.bytes)
        else none)
    else none

-- `noteAF`.
abbrev note_slot : Message → Option Slot → Option Slot
note_slot m none = none
note_slot m (some s) = some (note_af m s)

-- The function that `OnFrame` calls.
pub on_frame : Wire → WireFrame → Listener → Listener
on_frame c frame s = elim (heard c frame) [
  | none ↦ s
  | some m ↦ record {
    queue = if ltb (length s.queue) 128 then s.queue ++ m ∷ [] else s.queue;
    slot = note_slot m s.slot;
  }
]

pub on_frames : Wire → List WireFrame → Listener → Listener
unfolding on_frame
on_frames c [] s = s
on_frames c (frame ∷ frames) s = on_frames c frames (on_frame c frame s)
