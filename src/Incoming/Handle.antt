-- ===== src/Incoming/Handle.antt =====
-- The way of one incoming frame (`handleIncoming`, `deviceForNwk` and `handleXiaomiOnOff`,
-- internal/hub/incoming.go).
pub mod Laws
use mathlib.Core.Option
use zigbeemq.Prelude.{
  leb, ◌==◌, if◌then◌else◌, Str, Assoc, lookup, adjust, ℕ, Bool, true, false, ◌&&◌, ◌||◌, Option,
  none, some, List, [], ◌∷◌,
}
use zigbeemq.Zigbee.{Frame, Message, Goznp}
use zigbeemq.Known.{Kind, switch}
use zigbeemq.Device.{Device, is_light_like, is_motion}
use zigbeemq.Hub.{enroll, Hub}
use zigbeemq.Hub.Registry.{maybe_setup_motion}
use zigbeemq.Incoming.Action.{
  Action, click_action, decode_action, xiaomi_click_count, reported_on_off,
}
use zigbeemq.Incoming.Press.{Presses, start_press, finish_press, cancel_press}
use zigbeemq.Incoming.Reports.{note_action, is_undecided, apply_motion_report, apply_light_report}

-- The hub with its press detector.
pub record Receiver : Type 0 where
  pub hub : Hub
  pub presses : Presses

first_at : ℕ → Assoc Device → Option Device
first_at nwk [] = none
first_at nwk ((k, d) ∷ m) = let rest = first_at nwk m in if d.nwk_addr == nwk then some d else rest

abbrev is_switch : Kind → Bool
is_switch switch = true
is_switch _ = false

switch_keys : Assoc Device → List Str
switch_keys [] = []
switch_keys ((k, d) ∷ m) = let rest = switch_keys m in if is_switch d.kind then k ∷ rest else rest

abbrev at_nwk : ℕ → Device → Device
at_nwk nwk d = record d { nwk_addr = nwk }

-- The only switch, which takes the address.
fallback : ℕ → Hub → List Str → Hub × Option Device
fallback nwk h (k ∷ []) = (
  record h { devices = adjust k (at_nwk nwk) h.devices },
  Option.map (at_nwk nwk) (lookup k h.devices),
)
fallback nwk h _ = (h, none)

-- `deviceForNwk`.
pub device_for_nwk : ℕ → Hub → Hub × Option Device
unfolding first_at switch_keys fallback
device_for_nwk nwk h = elim (first_at nwk h.devices) [
  | some d ↦ (h, some d)
  | none ↦ fallback nwk h (switch_keys h.devices)
]

-- The call of `noteAction` that an operation of the press detector makes.
noted : ℕ → Option (Str × Action) → Hub → Hub
noted now none h = h
noted now (some (ieee, action)) h = note_action ieee action now h

-- `cancelPress` and `noteAction`.
act : Str → Action → ℕ → Receiver → Receiver
act ieee action now s = record {
  hub = note_action ieee action now s.hub;
  presses = cancel_press ieee s.presses;
}

module _ (z : Goznp) where
  -- `handleXiaomiOnOff`: "off" is down and "on" is up.
  handle_xiaomi_on_off : Str → Frame → ℕ → Receiver → Receiver
  unfolding noted
  handle_xiaomi_on_off ieee frame now s = elim (reported_on_off z frame) [
    | none ↦ s
    | some on ↦
        let (p, out) = if on then finish_press ieee s.presses else start_press ieee s.presses in
        record { hub = noted now out s.hub; presses = p }
  ]

  abbrev is_on_off_report : Frame → ℕ → Bool
  is_on_off_report frame cluster =
      cluster == z.cluster_on_off
      && frame.frame_type == z.frame_type_global
      && frame.command_id == z.cmd_report_attributes

  -- The end of `handleIncoming`, for a device that is taken for a switch.
  pub handle_switch : Str → Frame → ℕ → ℕ → Receiver → Receiver
  unfolding act handle_xiaomi_on_off
  handle_switch ieee frame cluster now s =
      let report = is_on_off_report frame cluster in
      let count = if report then xiaomi_click_count z frame else none in
      elim count [
        | some n ↦ if leb 2 n then act ieee (click_action n) now s else s
        | none ↦ elim (decode_action z frame cluster) [
          | some action ↦ act ieee action now s
          | none ↦ if report then handle_xiaomi_on_off ieee frame now s else s
        ]
      ]

  abbrev is_motion_source : Device → ℕ → Bool
  is_motion_source d cluster =
      is_motion d.kind
      || d.has_occupancy
      || ((cluster == z.cluster_occupancy_sensing || cluster == z.cluster_ias_zone)
          && is_undecided d.kind)

  abbrev is_enroll_request : Frame → ℕ → Bool
  is_enroll_request frame cluster =
      cluster == z.cluster_ias_zone
      && frame.frame_type == z.frame_type_cluster
      && frame.command_id == z.cmd_ias_zone_enroll_request

  -- The branch of motion sensors.
  pub handle_motion : Device → Frame → Message → ℕ → Receiver → Receiver
  handle_motion d frame msg now s =
      let h = maybe_setup_motion d s.hub in
      let (h', done) = apply_motion_report z d.ieee frame msg.cluster_id now h in
      if is_enroll_request frame msg.cluster_id
      then record s { hub = record h { tasks = enroll d.ieee msg.src_endpoint ∷ h.tasks } }
      else if done
      then record s { hub = h' }
      else handle_switch d.ieee frame msg.cluster_id now (record s { hub = h' })

  -- `handleIncoming` once the device and the frame are known.
  pub handle_frame : Device → Frame → Message → ℕ → Receiver → Receiver
  unfolding handle_switch handle_motion
  handle_frame d frame msg now s =
      if is_light_like d.kind
      then record s { hub = apply_light_report z d.ieee frame msg.cluster_id now s.hub }
      else if is_motion_source d msg.cluster_id
      then handle_motion d frame msg now s
      else handle_switch d.ieee frame msg.cluster_id now s

  -- `handleIncoming`.
  pub handle_incoming : Message → ℕ → Receiver → Receiver
  unfolding handle_frame
  handle_incoming msg now s =
      let (h, found) = device_for_nwk msg.src_addr s.hub in
      let s' = record s { hub = h } in
      elim found [
        | none ↦ s'
        | some d ↦ elim (z.parse_frame msg.body) [
          | none ↦ s'
          | some frame ↦ handle_frame d frame msg now s'
        ]
      ]
