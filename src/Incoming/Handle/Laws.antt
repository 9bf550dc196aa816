-- ===== src/Incoming/Handle/Laws.antt =====
-- Which device a frame is taken from, and what it changes.
pub mod Valid
use mathlib.Core.Option
use zigbeemq.Prelude.{
  ◌==◌, All, Bool, Str, str_eq, str_eq_iff, Assoc, lookup, lookup-adjust, codes, ℕ, zero, suc, ◌+◌,
  ◌%◌, ◌^◌, ◌≤◌, ◌≡◌, refl, inl, inr, true, false, ◌&&◌, not, Option, some, List, [], ◌∷◌, arith,
}
use zigbeemq.Zigbee.{Frame, Message, Goznp}
use zigbeemq.Ieee.{compact_ieee}
use zigbeemq.Device.{Device, is_light_like}
use zigbeemq.Hub.{Hub, find, modify, broadcast_device}
use zigbeemq.Incoming.Action.{Action, action_name, click_action, xiaomi_click_count}
use zigbeemq.Incoming.Press.{cancel_press, Detector, Move, run, inputs_of}
use zigbeemq.Incoming.Press.Gestures.{tally, presses_of}
use zigbeemq.Incoming.Press.Silence.{always, cancel_press_silences}
use zigbeemq.Incoming.Reports.{clicked, note_action, switched, apply_light_report}
use zigbeemq.Incoming.Reports.Laws.{apply_light_report-devices}
use zigbeemq.Incoming.Handle.{
  Receiver, first_at, device_for_nwk, act, is_on_off_report, handle_switch, is_motion_source,
  handle_frame,
}

-- No device of the map but that under the key `k` has the network address.
abbrev OnlyAt : Str → ℕ → Assoc Device → Type 0
OnlyAt k nwk m = All (λ e. (e.1.nwk_addr == nwk && not (str_eq e.0 k)) ≡ false) m

first_at_only :
    (k : Str) (nwk : ℕ) (m : Assoc Device) (d : Device)
    → OnlyAt k nwk m
    → lookup k m ≡ some d
    → d.nwk_addr ≡ nwk
    → first_at nwk m ≡ some d
unfolding first_at lookup
first_at_only k nwk [] d h e n = absurd (ground arith)
first_at_only k nwk ((j, c) ∷ m) d (p, h) e n =
    ground (arith, str_eq_iff j k, first_at_only k nwk m d h)

-- A device that stands under a key and alone has its network address is found by this address, in
-- whatever order the table is listed, and nothing changes.
device_for_nwk_only :
    (k : Str) (h : Hub) (d : Device)
    → OnlyAt k d.nwk_addr h.devices
    → lookup k h.devices ≡ some d
    → device_for_nwk d.nwk_addr h ≡ (h, some d)
unfolding device_for_nwk
device_for_nwk_only k h d only e =
    ground (arith, first_at_only k d.nwk_addr h.devices d only e refl)

abbrev click_of : Device → Str × ℕ
click_of d = (d.last_click, d.click_seq)

-- A frame of a light, a plug or a relay moves no button and counts no click, of any device.
light_frames_click_nothing :
    (z : Goznp) (d : Device) (frame : Frame) (msg : Message) (now : ℕ) (s : Receiver) (k : Str)
    → is_light_like d.kind ≡ true
    → let s' = handle_frame z d frame msg now s in
      (s'.presses ≡ s.presses)
      × (Option.map click_of (lookup k s'.hub.devices)
          ≡ Option.map click_of (lookup k s.hub.devices))
unfolding handle_frame
light_frames_click_nothing z d frame msg now s k e =
    let h' = apply_light_report z d.ieee frame msg.cluster_id now s.hub in
    (
      ground arith,
      elim (apply_light_report-devices z d.ieee frame msg.cluster_id now s.hub) [
        | inl same ↦ ground (arith, same)
        | inr (on, changed) ↦
            ground (
              arith,
              changed,
              lookup-adjust (compact_ieee d.ieee) k (switched on now) s.hub.devices,
            )
      ],
    )

-- The texts for more than one click.
abbrev click_text : ℕ → Str
click_text (suc (suc zero)) = codes "double"
click_text (suc (suc (suc zero))) = codes "triple"
click_text (suc (suc (suc (suc zero)))) = codes "quadruple"
click_text _ = codes "many"

click_action-text : (n : ℕ) → 2 ≤ n → action_name (click_action n) ≡ click_text n
unfolding action_name click_action
click_action-text zero h = absurd (omega arith)
click_action-text (suc zero) h = absurd (omega arith)
click_action-text (suc (suc zero)) h = refl
click_action-text (suc (suc (suc zero))) h = refl
click_action-text (suc (suc (suc (suc zero)))) h = refl
click_action-text (suc (suc (suc (suc (suc n))))) h = ground arith

-- What a click sets, in fields.
abbrev Clicks : Type 0
Clicks = Str × ℕ × Bool × Option ℕ

abbrev pub clicks_of : Device → Clicks
clicks_of dev = (dev.last_click, dev.click_seq, dev.reachable, dev.last_seen)

abbrev pub clicked_by : ℕ → ℕ → Device → Clicks
clicked_by n now dev = (click_text n, (dev.click_seq + 1) % 2 ^ 64, true, some now)

-- A report of two or more clicks from a device that is neither like a light nor a source of motion
-- reports is noted as that many clicks: the text of the last click becomes "double", "triple",
-- "quadruple" or "many", the number of clicks grows by one modulo 2^64, and the device counts as
-- reachable and seen now. The press detector notes nothing more for the device, whatever timers it
-- had armed, until the button is pressed again, but for the calls of `noteAction` that were already
-- under way.
pub multi_click_noted :
    (z : Goznp) (d : Device) (frame : Frame) (msg : Message) (now n : ℕ) (s : Receiver)
    (pending : List (Str × Action)) (moves : List Move)
    → is_light_like d.kind ≡ false
    → is_motion_source z d msg.cluster_id ≡ false
    → is_on_off_report z frame msg.cluster_id ≡ true
    → xiaomi_click_count z frame ≡ some n
    → 2 ≤ n
    → presses_of d.ieee (inputs_of moves) ≡ 0
    → let s' = handle_frame z d frame msg now s in
      let (after, noted) = run moves (record { presses = s'.presses; pending = pending }) in
      (Option.map clicks_of (find s'.hub d.ieee)
        ≡ Option.map (clicked_by n now) (find s.hub d.ieee))
      × (tally d.ieee always noted + tally d.ieee always after.pending
          ≡ tally d.ieee always pending)
unfolding handle_frame handle_switch act note_action find broadcast_device modify
multi_click_noted z d frame msg now n s pending moves l m r c two quiet =
    let k = compact_ieee d.ieee in
    let s' = handle_frame z d frame msg now s in
    let cancelled' : s'.presses ≡ cancel_press d.ieee s.presses = ground arith in
    let named : action_name (click_action n) ≡ click_text n = click_action-text n two in
    (
      ground (
        arith,
        named,
        lookup-adjust k k (clicked (click_action n) now) s.hub.devices,
        str_eq_iff k k,
      ),
      rw cancelled' (
          cancel_press_silences d.ieee (record { presses = s.presses; pending = pending }) moves
            quiet),
    )
