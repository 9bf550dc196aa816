-- ===== src/Hub/Motion/Laws.antt =====
-- A motion sensor whose set-up failed is set up again (internal/hub/incoming.go).
use zigbeemq.Prelude.{
  Option-cases, is_some, codes, str_eq_iff, delete, lookup-delete, member, ℕ, ◌≡◌, inl, inr, true,
  false, List, ◌∷◌, arith,
}
use zigbeemq.Zigbee.{Goznp}
use zigbeemq.Ieee.{compact_ieee, parse_ieee}
use zigbeemq.Device.{Device, endpoint_with}
use zigbeemq.Radio.{Radio}
use zigbeemq.Hub.{setup_motion, Hub}
use zigbeemq.Hub.Registry.{maybe_setup_motion}
use zigbeemq.Hub.Motion.{bind_ias, bind_occupancy, run_motion_setup}

module _ {World : Type 0} (z : Goznp) (r : Radio World) where
  -- Where no `Bind` succeeds, the next report of a motion sensor starts its set-up again: the
  -- goroutine that failed leaves no mark that keeps `maybeSetupMotion` from it.
  pub motion_set_up_again :
      (d : Device) (h : Hub) (w : World)
      → ((w' : World) (addr : List ℕ) (nwk ep cluster : ℕ) (coord : List ℕ)
          → is_some (r.bind w' addr nwk ep cluster coord).1 ≡ true)
      → let h' = (run_motion_setup z r (compact_ieee d.ieee) d h w).0 in
        (maybe_setup_motion d h').tasks ≡ setup_motion (compact_ieee d.ieee) d ∷ h'.tasks
  unfolding run_motion_setup maybe_setup_motion bind_ias bind_occupancy
  motion_set_up_again d h w fails =
      let key = compact_ieee d.ieee in
      let gone : member key (delete key h.motion_ready) ≡ false =
        ground (arith, lookup-delete key key h.motion_ready, str_eq_iff key key) in
      elim (Option-cases (parse_ieee z d.ieee)) [
        | inl bad ↦ ground (arith, gone)
        | inr (addr, good) ↦
            let ias = endpoint_with d.endpoints (codes "IASZone") in
            let occ = endpoint_with d.endpoints (codes "OccupancySensing") in
            let w1 = (r.write_cie_address w d.nwk_addr ias h.coord_ieee).0 in
            let w2 = (bind_ias z r d addr ias h w).0 in
            ground (
              arith,
              gone,
              fails w1 addr d.nwk_addr ias z.cluster_ias_zone h.coord_ieee,
              fails w2 addr d.nwk_addr occ z.cluster_occupancy_sensing h.coord_ieee,
            )
      ]
