-- ===== src/Hub/Registry/Kept.antt =====
-- Interviews, recoveries, joins and refreshes (internal/hub/hub.go) keep the table well formed.
use zigbeemq.Prelude.{
  ◌==◌, Bool-cases, Option-cases, length, Str, ℕ, ◌≡◌, refl, ap, inl, inr, ◌&&◌, ◌||◌, not, List,
  [], ◌∷◌, arith,
}
use zigbeemq.Zigbee.{InterviewResult, Goznp, DeviceEvent}
use zigbeemq.Radio.{Radio}
use zigbeemq.Errors.{Reply, ok, err, Reply-cases}
use zigbeemq.Ieee.{compact_ieee, is_zero_ieee, parse_ieee}
use zigbeemq.Hub.{Hub, find, snapshot, modify, broadcast, broadcast_device, save_cache}
use zigbeemq.Hub.Control.{set_unavailable, read_state, permit_join_for, recover_loop, run_recovery}
use zigbeemq.Device.{Device}
use zigbeemq.Hub.Start.{ask_network, network}
use zigbeemq.Hub.Motion.{run_motion_setup}
use zigbeemq.Hub.Registry.Join.{event_nwk, run_join}
use zigbeemq.Hub.Registry.{
  note_joined, maybe_setup_motion, Finder, refresh_table, refresh, event_ieee, on_device_event,
}
use zigbeemq.Hub.Registry.Interview.{
  apply_interview, unknown_devices, finish_interview, interview, interview_each, interview_missing,
}
use zigbeemq.Hub.Registry.Table.{IsValid, modify-IsValid, IsValid-of_adjust, IsValid-of_same}
use zigbeemq.Hub.Registry.Refresh.{PrintsAddresses, format_ieee-IsCompact, refresh_table-IsValid}
use zigbeemq.Hub.Registry.Steps.{note_joined-IsValid}
use zigbeemq.Hub.Registry.Commands.{read_state-IsValid}

finish_interview-IsValid :
    {World : Type 0} (z : Goznp) (f : Finder) (r : Radio World) (ieee : Str)
    (reply : Reply InterviewResult) (now : ℕ) (h : Hub) (w : World)
    → IsValid h
    → IsValid (finish_interview z f r ieee reply now h w).0
unfolding finish_interview broadcast_device save_cache modify maybe_setup_motion apply_interview
finish_interview-IsValid z f r ieee (err e) now h w t =
    let h' = (finish_interview z f r ieee (err e) now h w).0 in
    elim (Option-cases (find h ieee)) [
      | inl missing ↦ IsValid-of_same h h' (ground arith) (ground arith) t
      | inr (d, found) ↦
          IsValid-of_adjust ieee (set_unavailable e) h h' (λ d. refl) (ground arith) (ground arith)
            t
    ]
finish_interview-IsValid z f r ieee (ok result) now h w t =
    let h' = (finish_interview z f r ieee (ok result) now h w).0 in
    elim (Option-cases (find h ieee)) [
      | inl missing ↦ IsValid-of_same h h' (ground arith) (ground arith) t
      | inr (d, found) ↦
          let h1 = modify ieee (apply_interview z f result) h in
          IsValid-of_same (read_state z r d.ieee now h1 w).0 h' (ground arith) (ground arith) (
            read_state-IsValid z r d.ieee now h1 w
              (modify-IsValid ieee (apply_interview z f result) h (λ d. refl) t))
    ]

pub interview-IsValid :
    {World : Type 0} (z : Goznp) (f : Finder) (r : Radio World) (ieee : Str) (now : ℕ) (h : Hub)
    (w : World)
    → IsValid h
    → IsValid (interview z f r ieee now h w).0
unfolding interview
interview-IsValid z f r ieee now h w t =
    let h' = (interview z f r ieee now h w).0 in
    elim (Option-cases (find h ieee)) [
      | inl missing ↦ IsValid-of_same h h' (ground arith) (ground arith) t
      | inr (d, found) ↦ elim (Option-cases (parse_ieee z ieee)) [
        | inl bad ↦ IsValid-of_same h h' (ground arith) (ground arith) t
        | inr (addr, good) ↦
            let reply = r.interview_device w d.nwk_addr addr in
            let same : h' ≡ (finish_interview z f r ieee reply.1 now h reply.0).0 = ground arith in
            rw same (finish_interview-IsValid z f r ieee reply.1 now h reply.0 t)
      ]
    ]

pub interview_missing-IsValid :
    {World : Type 0} (z : Goznp) (f : Finder) (r : Radio World) (at : ℕ → ℕ) (h : Hub) (w : World)
    → IsValid h
    → IsValid (interview_missing z f r at h w).0
unfolding interview_missing interview_each
interview_missing-IsValid {World} z f r at h w t = each (unknown_devices (snapshot h)) h w t
  where
    each :
        (ds : List Device) (h' : Hub) (w' : World)
        → IsValid h'
        → IsValid (interview_each z f r at ds h' w').0
    each [] h' w' t' = t'
    each (d ∷ ds) h' w' t' =
        let (h'', w'', error) = interview z f r d.ieee (at (length ds)) h' w' in
        each ds h'' w'' (interview-IsValid z f r d.ieee (at (length ds)) h' w' t')

compact-nil : compact_ieee [] ≡ []
unfolding compact_ieee
compact-nil = refl

recover_loop-IsValid :
    {World : Type 0} (z : Goznp) (r : Radio World) (wake : ℕ → ℕ) (delays : List ℕ) (key : Str)
    (h : Hub) (w : World)
    → IsValid h
    → IsValid (recover_loop z r wake delays key h w).0
unfolding recover_loop broadcast_device
recover_loop-IsValid z r wake [] key h w t = t
recover_loop-IsValid z r wake (delay ∷ delays) key h w t =
    let h' = (recover_loop z r wake (delay ∷ delays) key h w).0 in
    let one = read_state z r key (wake delay) h w in
    let kept = read_state-IsValid z r key (wake delay) h w t in
    let rest = recover_loop z r wake delays key one.0 one.1 in
    let later = recover_loop-IsValid z r wake delays key one.0 one.1 kept in
    elim (Option-cases (find h key)) [
      | inl missing ↦ IsValid-of_same h h' (ground arith) (ground arith) t
      | inr (d, found) ↦ elim (Bool-cases d.archived) [
        | inl archived ↦ IsValid-of_same h h' (ground arith) (ground arith) t
        | inr active ↦ elim (Bool-cases one.2) [
          | inl reached ↦ IsValid-of_same one.0 h' (ground arith) (ground arith) kept
          | inr lost ↦ let same : h' ≡ rest.0 = ground arith in rw same later
        ]
      ]
    ]

pub run_recovery-IsValid :
    {World : Type 0} (z : Goznp) (r : Radio World) (wake : ℕ → ℕ) (key : Str) (h : Hub) (w : World)
    → IsValid h
    → IsValid (run_recovery z r wake key h w).0
unfolding run_recovery
run_recovery-IsValid z r wake key h w t =
    recover_loop-IsValid z r wake (3 ∷ 10 ∷ 30 ∷ 60 ∷ 120 ∷ []) key h w t

module _ {World : Type 0} (z : Goznp) (f : Finder) (r : Radio World)
    (prints : PrintsAddresses z) where
  pub event_ieee-IsCompact : (ev : DeviceEvent) → compact_ieee (event_ieee z ev) ≡ event_ieee z ev
  unfolding event_ieee
  event_ieee-IsCompact ev = elim (Option-cases ev.device) [
    | inl gone ↦ ground (arith, compact-nil, format_ieee-IsCompact z ev.ieee_addr prints)
    | inr (d, there) ↦ ground (
      arith,
      compact-nil,
      format_ieee-IsCompact z ev.ieee_addr prints,
      format_ieee-IsCompact z d.ieee_addr prints,
    )
  ]

  pub on_device_event-IsValid :
      (ev : DeviceEvent) (now : ℕ) (h : Hub) → IsValid h → IsValid (on_device_event z ev now h)
  unfolding on_device_event
  on_device_event-IsValid ev now h t =
      let ieee = event_ieee z ev in
      elim (Bool-cases (ev.joined && not (is_zero_ieee ieee))) [
        | inl joins ↦
            rw joins
              (note_joined-IsValid ieee _ now h (ap compact_ieee (event_ieee-IsCompact ev)) t)
        | inr stays ↦ rw stays t
      ]

  pub refresh-IsValid : (h : Hub) (w : World) → IsValid h → IsValid (refresh z r h w).0
  unfolding refresh broadcast save_cache
  refresh-IsValid h w t =
      let h' = (refresh z r h w).0 in
      elim (Reply-cases (r.get_devices w).1) [
        | inl (raws, answer) ↦
            IsValid-of_same (refresh_table z raws h) h' (ground arith) (ground arith)
              (refresh_table-IsValid z raws h prints t)
        | inr (e, answer) ↦ IsValid-of_same h h' (ground arith) (ground arith) t
      ]

  pub permit_join_for-IsValid :
      (seconds now : ℕ) (h : Hub) (w : World)
      → IsValid h
      → IsValid (permit_join_for z r seconds now h w).0
  unfolding permit_join_for broadcast
  permit_join_for-IsValid seconds now h w t =
      IsValid-of_same h (permit_join_for z r seconds now h w).0 (ground arith) (ground arith) t

  pub run_join-IsValid :
      (ev : DeviceEvent) (now : ℕ) (h : Hub) (w : World)
      → IsValid h
      → IsValid (run_join z f r ev now h w).0
  unfolding run_join
  run_join-IsValid ev now h w t =
      let ieee = event_ieee z ev in
      let h' = (run_join z f r ev now h w).0 in
      let h1 = (refresh z r h w).0 in
      let w1 = (refresh z r h w).1 in
      let h2 = (note_joined ieee (event_nwk ev) now h1).0 in
      let valid1 : IsValid h1 = refresh-IsValid h w t in
      let valid2 : IsValid h2 =
        note_joined-IsValid ieee (event_nwk ev) now h1 (ap compact_ieee (event_ieee-IsCompact ev))
          valid1 in
      elim (Bool-cases (ev.joined && not (is_zero_ieee ieee))) [
        | inr stays ↦ IsValid-of_same h1 h' (ground arith) (ground arith) valid1
        | inl joins ↦ elim (Option-cases (find h2 ieee)) [
          | inl missing ↦ IsValid-of_same h2 h' (ground arith) (ground arith) valid2
          | inr (d, found) ↦ elim (Bool-cases (d.archived || d.nwk_addr == 0)) [
            | inl passed ↦ IsValid-of_same h2 h' (ground arith) (ground arith) valid2
            | inr active ↦
                IsValid-of_same (interview z f r ieee now h2 w1).0 h' (ground arith) (ground arith)
                  (interview-IsValid z f r ieee now h2 w1 valid2)
          ]
        ]
      ]

pub run_motion_setup-IsValid :
    {World : Type 0} (z : Goznp) (r : Radio World) (key : Str) (d : Device) (h : Hub) (w : World)
    → IsValid h
    → IsValid (run_motion_setup z r key d h w).0
unfolding run_motion_setup
run_motion_setup-IsValid z r key d h w t =
    IsValid-of_same h (run_motion_setup z r key d h w).0 (ground arith) (ground arith) t

pub network-IsValid :
    {World : Type 0} (r : Radio World) (now later : ℕ) (h : Hub) (w : World)
    → IsValid h
    → IsValid (network r now later h w).0
unfolding network ask_network
network-IsValid r now later h w t =
    IsValid-of_same h (network r now later h w).0 (ground arith) (ground arith) t
