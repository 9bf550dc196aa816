-- ===== src/Incoming/Reports/Laws.antt =====
-- What reports leave behind.
use zigbeemq.Prelude.{
  ◌==◌, Bool-cases, Option-cases, Str, str_eq_iff, lookup, adjust, lookup-adjust, ℕ, ◌+◌, ◌%◌, ◌≤◌,
  ◌<◌, ◌≡◌, refl, ◌⊎◌, inl, inr, Bool, ◌||◌, not, some, [], ◌∷◌, arith,
}
use zigbeemq.Zigbee.{Frame, Goznp}
use zigbeemq.Ieee.{compact_ieee}
use zigbeemq.Hub.{Hub, find, modify, broadcast_device, save_cache}
use zigbeemq.Hub.Registry.Table.{IsValid, IsValid-of_adjust, IsValid-of_same}
use zigbeemq.Incoming.Action.{Action, reported_on_off}
use zigbeemq.Incoming.Reports.{
  clicked, note_action, occupied, note_occupancy, switched, frame_occupancy, apply_motion_report,
  apply_light_report, wrap_sum, zone_id_for_ieee,
}

pub note_action-IsValid :
    (ieee : Str) (action : Action) (now : ℕ) (h : Hub)
    → IsValid h
    → IsValid (note_action ieee action now h)
unfolding note_action broadcast_device modify
note_action-IsValid ieee action now h t =
    let h' = note_action ieee action now h in
    elim (Option-cases (find h ieee)) [
      | inl missing ↦ IsValid-of_same h h' (ground arith) (ground arith) t
      | inr (d, found) ↦
          IsValid-of_adjust ieee (clicked action now) h h' (λ d. refl) (ground arith) (ground arith)
            t
    ]

note_occupancy-IsValid :
    (ieee : Str) (occ : Bool) (now : ℕ) (h : Hub)
    → IsValid h
    → IsValid (note_occupancy ieee occ now h)
unfolding note_occupancy broadcast_device modify save_cache
note_occupancy-IsValid ieee occ now h t =
    let h' = note_occupancy ieee occ now h in
    elim (Option-cases (find h ieee)) [
      | inl missing ↦ IsValid-of_same h h' (ground arith) (ground arith) t
      | inr (d, found) ↦
          IsValid-of_adjust ieee (occupied occ now) h h' (λ d. refl) (ground arith) (ground arith) t
    ]

pub apply_motion_report-IsValid :
    (z : Goznp) (ieee : Str) (frame : Frame) (cluster now : ℕ) (h : Hub)
    → IsValid h
    → IsValid (apply_motion_report z ieee frame cluster now h).0
unfolding apply_motion_report
apply_motion_report-IsValid z ieee frame cluster now h t =
    elim (Option-cases (frame_occupancy z frame cluster)) [
      | inl nothing ↦ rw (apply_motion_report, nothing) t
      | inr (occ, read) ↦ rw (apply_motion_report, read) (note_occupancy-IsValid ieee occ now h t)
    ]

pub apply_light_report-devices :
    (z : Goznp) (ieee : Str) (frame : Frame) (cluster now : ℕ) (h : Hub)
    → ((apply_light_report z ieee frame cluster now h).devices ≡ h.devices)
      ⊎ ((on : Bool) × ((apply_light_report z ieee frame cluster now h).devices
            ≡ adjust (compact_ieee ieee) (switched on now) h.devices))
unfolding apply_light_report broadcast_device modify
apply_light_report-devices z ieee frame cluster now h =
    elim (Option-cases (reported_on_off z frame)) [
      | inl nothing ↦ inl (ground arith)
      | inr (on, read) ↦
          elim (Bool-cases (
            not (cluster == z.cluster_on_off)
            || not (frame.command_id == z.cmd_report_attributes))) [
              | inl skipped ↦ inl (rw skipped refl)
              | inr report ↦ elim (Option-cases (find h ieee)) [
                | inl missing ↦ inl (rw (report, read, missing) refl)
                | inr (d, found) ↦ inr (on, rw (report, read, found) refl)
              ]
            ]
    ]

apply_light_report-forgotten :
    (z : Goznp) (ieee : Str) (frame : Frame) (cluster now : ℕ) (h : Hub)
    → (apply_light_report z ieee frame cluster now h).forgotten ≡ h.forgotten
unfolding apply_light_report broadcast_device modify
apply_light_report-forgotten z ieee frame cluster now h = ground arith

pub apply_light_report-IsValid :
    (z : Goznp) (ieee : Str) (frame : Frame) (cluster now : ℕ) (h : Hub)
    → IsValid h
    → IsValid (apply_light_report z ieee frame cluster now h)
apply_light_report-IsValid z ieee frame cluster now h t =
    let h' = apply_light_report z ieee frame cluster now h in
    let kept = apply_light_report-forgotten z ieee frame cluster now h in
    elim (apply_light_report-devices z ieee frame cluster now h) [
      | inl same ↦ IsValid-of_same h h' same kept t
      | inr (on, changed) ↦ IsValid-of_adjust ieee (switched on now) h h' (λ d. refl) changed kept t
    ]

-- The second of two equal occupancy reports in a row for one address sends no event and does not
-- write the cache file.
note_occupancy_again :
    (ieee : Str) (occ : Bool) (before now : ℕ) (h : Hub)
    → let h1 = note_occupancy ieee occ before h in
      let h2 = note_occupancy ieee occ now h1 in (h2.subs ≡ h1.subs) × (h2.disk ≡ h1.disk)
unfolding note_occupancy find
note_occupancy_again ieee occ before now h =
    let k = compact_ieee ieee in
    let h1 = note_occupancy ieee occ before h in
    elim (Option-cases (lookup k h.devices)) [
      | inl missing ↦ (ground arith, ground arith)
      | inr (d, found) ↦
          let there : lookup k h1.devices ≡ some (occupied occ before d) =
            unfold broadcast_device modify save_cache in
            ground (arith, lookup-adjust k k (occupied occ before) h.devices, str_eq_iff k k) in
          (
            unfold broadcast_device modify save_cache in ground (arith, there),
            unfold broadcast_device modify save_cache in ground (arith, there),
          )
    ]

wrap_sum_small : (n : ℕ) (s : Str) → n < 256 → wrap_sum n s < 256
unfolding wrap_sum
wrap_sum_small n [] h = h
wrap_sum_small n (c ∷ s) h = wrap_sum_small ((n + c) % 256) s (omega arith)

-- A zone number fits in a byte and is not 0.
zone_id_for_ieee_bounds : (ieee : Str) → (1 ≤ zone_id_for_ieee ieee) × (zone_id_for_ieee ieee ≤ 255)
unfolding zone_id_for_ieee
zone_id_for_ieee_bounds ieee = ground (arith, wrap_sum_small 1 ieee (omega arith))
