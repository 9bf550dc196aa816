-- ===== src/Hub/Motion.antt =====
-- Setting a motion sensor up (the goroutine of `maybeSetupMotion`, `enrollIASZone` and
-- `clearMotionReady` of internal/hub/incoming.go).
pub mod Laws
use zigbeemq.Prelude.{
  ◌==◌, if◌then◌else◌, is_some, Str, codes, delete, ℕ, Bool, true, false, ◌||◌, not, none, some,
  List,
}
use zigbeemq.Zigbee.{Goznp}
use zigbeemq.Ieee.{parse_ieee}
use zigbeemq.Device.{Device, endpoint_with}
use zigbeemq.Radio.{Radio}
use zigbeemq.Hub.{Hub, find}
use zigbeemq.Incoming.Reports.{zone_id_for_ieee}

-- `clearMotionReady`.
abbrev clear_motion_ready : Str → Hub → Hub
clear_motion_ready key h = record h { motion_ready = delete key h.motion_ready }

module _ {World : Type 0} (z : Goznp) (r : Radio World) where
  -- The part for the cluster IASZone, with the device's endpoint for it; 0 is none. The Boolean says
  -- that the cluster was bound.
  pub bind_ias : Device → List ℕ → ℕ → Hub → World → World × Bool
  bind_ias d addr ep h w =
      let (w1, written) = r.write_cie_address w d.nwk_addr ep h.coord_ieee in
      let (w2, error) = r.bind w1 addr d.nwk_addr ep z.cluster_ias_zone h.coord_ieee in
      if ep == 0 then (w, false) else (w2, not (is_some error))

  -- The part for the cluster OccupancySensing: reports are asked for once it is bound, and an error
  -- of that is passed over.
  pub bind_occupancy : Device → List ℕ → ℕ → Hub → World → World × Bool
  bind_occupancy d addr ep h w =
      let (w1, error) = r.bind w addr d.nwk_addr ep z.cluster_occupancy_sensing h.coord_ieee in
      let (w2, configured) = r.configure_occupancy w1 d.nwk_addr ep in
      if ep == 0 then (w, false) else if is_some error then (w1, false) else (w2, true)

  -- The goroutine of `maybeSetupMotion`.
  unfoldable pub run_motion_setup : Str → Device → Hub → World → Hub × World
  run_motion_setup key d h w = elim (parse_ieee z d.ieee) [
    | none ↦ (clear_motion_ready key h, w)
    | some addr ↦
        let (w1, ias) = bind_ias d addr (endpoint_with d.endpoints (codes "IASZone")) h w in
        let (w2, occupancy) =
          bind_occupancy d addr (endpoint_with d.endpoints (codes "OccupancySensing")) h w1 in
        (if ias || occupancy then h else clear_motion_ready key h, w2)
  ]

  abbrev nonzero_or : ℕ → ℕ → ℕ
  nonzero_or a b = if a == 0 then b else a

  -- `enrollIASZone`; its error is only logged.
  unfoldable pub enroll_ias_zone : Str → ℕ → Hub → World → World
  enroll_ias_zone ieee ep h w = elim (find h ieee) [
    | none ↦ w
    | some d ↦
        (r.enroll_ias_zone w d.nwk_addr (nonzero_or (nonzero_or ep d.endpoint) 1)
          (zone_id_for_ieee ieee)).0
  ]
