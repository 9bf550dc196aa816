-- ===== src/Incoming/Reports.antt =====
-- What an action, an occupancy or an on/off report changes (`noteAction`, `noteOccupancy`,
-- `applyMotionReport` and `applyLightReport`, internal/hub/incoming.go).
pub mod Laws
use Prim.Native.Nat.{bit_and}
use zigbeemq.Prelude.{
  ◌==◌, if◌then◌else◌, Str, ℕ, ◌+◌, ◌*◌, ◌%◌, ◌^◌, Bool, true, false, ◌&&◌, ◌||◌, not, Option, none,
  some, List, [], ◌∷◌,
}
use zigbeemq.Zigbee.{Attribute, Frame, Goznp}
use zigbeemq.Known.{Kind, sensor, motion, unknown}
use zigbeemq.Device.{Device, seen}
use zigbeemq.Hub.{Hub, find, modify, broadcast_device, save_cache}
use zigbeemq.Hub.Control.{occupancy_from_value}
use zigbeemq.Incoming.Action.{Action, action_name, reported_on_off}

-- The assignments of `noteAction`; `ClickSeq` has 64 bits.
abbrev pub clicked : Action → ℕ → Device → Device
clicked action now d = record (seen now d) {
  last_click = action_name action;
  click_seq = (d.click_seq + 1) % 2 ^ 64;
}

-- `noteAction`.
unfoldable pub note_action : Str → Action → ℕ → Hub → Hub
note_action ieee action now h = elim (find h ieee) [
  | none ↦ h
  | some d ↦ broadcast_device ieee (modify ieee (clicked action now) h)
]

-- A kind that the first occupancy report changes to "motion".
abbrev pub is_undecided : Kind → Bool
is_undecided sensor = true
is_undecided unknown = true
is_undecided _ = false

abbrev differs : Option Bool → Bool → Bool
differs none occ = true
differs (some old) occ = if old then not occ else occ

-- The assignments of `noteOccupancy`.
abbrev pub occupied : Bool → ℕ → Device → Device
occupied occ now d = record (seen now d) {
  occupancy = some occ;
  has_occupancy = true;
  kind = if is_undecided d.kind then motion else d.kind;
}

-- `noteOccupancy`.
pub note_occupancy : Str → Bool → ℕ → Hub → Hub
note_occupancy ieee occ now h = elim (find h ieee) [
  | none ↦ h
  | some d ↦
      let changed = differs d.occupancy occ in
      let meta = not d.has_occupancy || is_undecided d.kind in
      let h1 = modify ieee (occupied occ now) h in
      let h2 = if meta then save_cache h1 else h1 in
      if not changed && not meta then h2 else broadcast_device ieee h2
]

-- The assignments of `applyLightReport`.
abbrev pub switched : Bool → ℕ → Device → Device
switched on now d = record (seen now d) { on = some on }

module _ (z : Goznp) where
  -- The first value of the occupancy attribute that can be read.
  reported_occupancy : List Attribute → Option Bool
  reported_occupancy [] = none
  reported_occupancy (a ∷ attrs) =
      let rest = reported_occupancy attrs in
      if a.id == z.attr_occupancy_value
      then elim (occupancy_from_value a.value) [ some occ ↦ some occ | none ↦ rest ]
      else rest

  zone_status : List ℕ → Option Bool
  zone_status (a ∷ b ∷ _) =
      let status = a + 256 * b in
      some
        (not (bit_and status z.ias_zone_alarm1 == 0) || not (bit_and status z.ias_zone_alarm2 == 0))
  zone_status _ = none

  zone_occupancy : Frame → ℕ → Option Bool
  zone_occupancy frame cluster =
      if cluster == z.cluster_ias_zone
        && frame.frame_type == z.frame_type_cluster
        && frame.command_id == z.cmd_ias_zone_status_change
      then zone_status frame.payload
      else none

  -- The occupancy that `applyMotionReport` takes from a frame.
  unfoldable pub frame_occupancy : Frame → ℕ → Option Bool
  unfolding reported_occupancy zone_status zone_occupancy
  frame_occupancy frame cluster =
      if cluster == z.cluster_occupancy_sensing && frame.command_id == z.cmd_report_attributes
      then elim (z.parse_report_attributes_payload frame.payload) [
        | none ↦ none
        | some attrs ↦ elim (reported_occupancy attrs) [
          | some occ ↦ some occ
          | none ↦ zone_occupancy frame cluster
        ]
      ]
      else zone_occupancy frame cluster

  -- `applyMotionReport`.
  pub apply_motion_report : Str → Frame → ℕ → ℕ → Hub → Hub × Bool
  apply_motion_report ieee frame cluster now h = elim (frame_occupancy frame cluster) [
    | none ↦ (h, false)
    | some occ ↦ (note_occupancy ieee occ now h, true)
  ]

  -- `applyLightReport`.
  pub apply_light_report : Str → Frame → ℕ → ℕ → Hub → Hub
  apply_light_report ieee frame cluster now h =
      if not (cluster == z.cluster_on_off) || not (frame.command_id == z.cmd_report_attributes)
      then h
      else elim (reported_on_off z frame) [
        | none ↦ h
        | some on ↦ elim (find h ieee) [
          | none ↦ h
          | some d ↦ broadcast_device ieee (modify ieee (switched on now) h)
        ]
      ]

wrap_sum : ℕ → Str → ℕ
wrap_sum n [] = n
wrap_sum n (c ∷ s) = wrap_sum ((n + c) % 256) s

-- `zoneIDForIEEE`.
pub zone_id_for_ieee : Str → ℕ
unfolding wrap_sum
zone_id_for_ieee ieee = let n = wrap_sum 1 ieee in if n == 0 then 1 else n
