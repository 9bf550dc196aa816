-- ===== src/Concurrent/Alone/Interview.antt =====
-- `Interview` (internal/hub/hub.go), not interrupted.
use zigbeemq.Zigbee.{InterviewResult, Goznp}
use zigbeemq.Radio.{Radio}
use zigbeemq.Errors.{Error, Reply, ok, err, map_radio_error, Reply-cases}
use zigbeemq.Ieee.{compact_ieee, parse_ieee}
use zigbeemq.Device.{Device, is_sonoff_mini, seen, is_motion}
use zigbeemq.Prelude.{
  if◌then◌else◌, Bool-cases, Option-cases, Str, str_eq, str_eq_refl, Assoc, lookup, member, adjust,
  lookup-adjust, ℕ, ◌≡◌, refl, ap, ◌∙◌, inl, inr, true, false, ◌||◌, none, some, [], ◌∷◌, arith,
}
use zigbeemq.Hub.{Hub, find, must_device, modify, broadcast_device, save_cache}
use zigbeemq.Hub.Control.{
  percent_of_level, set_unavailable, read_on_off, read_level, read_occupancy, read_motion,
  read_state,
}
use zigbeemq.Hub.Registry.{or_else, maybe_setup_motion, Finder}
use zigbeemq.Concurrent.{run_alone, run_alone-bind, ◌>>=◌}
use zigbeemq.Concurrent.Methods.Reading.{reads_state}
use zigbeemq.Hub.Registry.Interview.{apply_interview, finish_interview, interview}
use zigbeemq.Concurrent.Methods.Interview.{
  starts_setup, failed, concludes, sets_up, applied, interviewed, interviews,
}
use zigbeemq.Concurrent.Alone.Reading.{reads_state_alone}

module _ {World : Type 0} (z : Goznp) (f : Finder) (r : Radio World) where
  member-modify :
      (k ieee : Str) (g : Device → Device) (h : Hub)
      → member k (modify ieee g h).devices ≡ member k h.devices
  unfolding modify
  member-modify k ieee g h = ground (arith, lookup-adjust (compact_ieee ieee) k g h.devices)

  member-read_on_off :
      (k : Str) (d : Device) (ieee : Str) (now : ℕ) (h : Hub) (w : World)
      → member k (read_on_off z r d ieee now h w).0.devices ≡ member k h.devices
  unfolding read_on_off
  member-read_on_off k d ieee now h w =
      elim (Reply-cases (r.get_on_off_state w d.nwk_addr d.endpoint).1) [
        | inl (b, answer) ↦
            ground
              (arith, answer, member-modify k ieee (λ dev. record (seen now dev) { on = some b }) h)
        | inr (e, answer) ↦
            ground (arith, answer, member-modify k ieee (λ dev. record dev { reachable = false }) h)
      ]

  member-read_level :
      (k : Str) (d : Device) (ieee : Str) (now : ℕ) (h : Hub) (w : World)
      → member k (read_level z r d ieee now h w).0.devices ≡ member k h.devices
  unfolding read_level
  member-read_level k d ieee now h w =
      elim (Reply-cases (r.get_brightness w d.nwk_addr d.endpoint).1) [
        | inl (level, answer) ↦ ground (
          arith,
          answer,
          member-modify k ieee
              (λ dev. record (seen now dev) { brightness = some (percent_of_level level) }) h,
        )
        | inr (e, answer) ↦ ground (arith, answer)
      ]

  member-read_motion :
      (k : Str) (d : Device) (ieee : Str) (now : ℕ) (h : Hub) (w : World)
      → member k (read_motion z r d ieee now h w).0.devices ≡ member k h.devices
  unfolding read_motion
  member-read_motion k d ieee now h w = elim (Reply-cases (read_occupancy z r d w).1) [
    | inl (occ, answer) ↦ ground (
      arith,
      answer,
      member-modify k ieee (λ dev. record (seen now dev) { occupancy = some occ }) h,
    )
    | inr (e, answer) ↦ ground (arith, answer)
  ]

  member-read_state :
      (k ieee : Str) (now : ℕ) (h : Hub) (w : World)
      → member k (read_state z r ieee now h w).0.devices ≡ member k h.devices
  unfolding read_state
  member-read_state k ieee now h w = elim (Option-cases (find h ieee)) [
    | inl missing ↦ ground arith
    | inr (d, found) ↦
        let (h1, w1, a) = read_on_off z r d ieee now h w in
        let (h2, w2, b) = read_level z r d ieee now h1 w1 in
        rw (found, read_state)
          (member-read_motion k d ieee now h2 w2
            ∙ member-read_level k d ieee now h1 w1
            ∙ member-read_on_off k d ieee now h w)
  ]

  failed_alone :
      (ieee : Str) (e : Error) (h : Hub) (w : World)
      → run_alone (failed ieee e true) h w
        ≡ (broadcast_device ieee (save_cache h), w, some (map_radio_error e))
  unfolding run_alone ◌>>=◌ save_cache broadcast_device
  failed_alone ieee e h w = ground arith

  concludes_alone :
      (ieee : Str) (h : Hub) (w : World)
      → run_alone (concludes ieee) h w ≡ (
          let h' = broadcast_device ieee (save_cache h) in
          (if is_sonoff_mini (must_device h' ieee) then starts_setup ieee h' else h', w, none))
  unfolding run_alone ◌>>=◌ save_cache broadcast_device
  concludes_alone ieee h w = ground arith

  sets_up_alone :
      (ieee own : Str) (d : Device) (h : Hub) (w : World)
      → run_alone (sets_up ieee own d) h w
        ≡ run_alone
            (concludes own)
            (if is_motion d.kind || d.has_occupancy
              then maybe_setup_motion (must_device h ieee) h
              else h)
            w
  unfolding run_alone ◌>>=◌
  sets_up_alone ieee own d h w = elim (Bool-cases (is_motion d.kind || d.has_occupancy)) [
    | inl senses ↦ rw senses refl
    | inr apart ↦ rw apart refl
  ]

  -- What is left of the hub after the state was read.
  conclusion : Str → Str → Hub → Hub
  conclusion ieee own h =
      let d = must_device h ieee in
      let h' = if is_motion d.kind || d.has_occupancy then maybe_setup_motion d h else h in
      let h'' = broadcast_device own (save_cache h') in
      if is_sonoff_mini (must_device h'' own) then starts_setup own h'' else h''

  sets_up-concludes :
      (ieee own : Str) (dev : Device) (h : Hub) (w : World)
      → member (compact_ieee ieee) h.devices ≡ true
      → run_alone (sets_up ieee own (or_else (find h ieee) dev)) h w
        ≡ (conclusion ieee own h, w, none)
  unfolding conclusion find must_device
  sets_up-concludes ieee own dev h w there =
      let same : or_else (find h ieee) dev ≡ must_device h ieee =
        ground (arith, Option-cases (find h ieee)) in
      let d = must_device h ieee in
      ap (λ dv. run_alone (sets_up ieee own dv) h w) same
      ∙ sets_up_alone ieee own d h w
      ∙ concludes_alone own
          (if is_motion d.kind || d.has_occupancy then maybe_setup_motion d h else h) w

  applied_alone :
      (ieee : Str) (now : ℕ) (dev : Device) (h : Hub) (w : World)
      → member (compact_ieee ieee) h.devices ≡ true
      → run_alone (applied z f r ieee now (some dev)) h w ≡ (
          let (h', w', reached) = read_state z r dev.ieee now h w in
          (conclusion ieee dev.ieee h', w', none))
  unfolding applied
  applied_alone ieee now dev h w there =
      let (h', w', reached) = read_state z r dev.ieee now h w in
      rw
        (
          run_alone-bind (reads_state z r dev.ieee now) _ h w,
          reads_state_alone z r dev.ieee now h w,
        )
        (unfold run_alone ◌>>=◌ in
          sets_up-concludes ieee dev.ieee dev h' w'
            (member-read_state (compact_ieee ieee) dev.ieee now h w ∙ there))

  adjust_missing :
      (k : Str) (g : Device → Device) (m : Assoc Device) → lookup k m ≡ none → adjust k g m ≡ m
  unfolding adjust lookup
  adjust_missing k g [] e = refl
  adjust_missing k g ((j, d) ∷ m) e = elim (Bool-cases (str_eq j k)) [
    | inl same ↦ absurd (ground arith)
    | inr apart ↦ rw apart (ap (λ l. (j, d) ∷ l) (adjust_missing k g m (ground arith)))
  ]

  modify_missing :
      (ieee : Str) (g : Device → Device) (h : Hub) → find h ieee ≡ none → modify ieee g h ≡ h
  unfolding modify find
  modify_missing ieee g h e =
      ap (λ m. record h { devices = m }) (adjust_missing (compact_ieee ieee) g h.devices e)

  find-modify :
      (ieee : Str) (g : Device → Device) (h : Hub) (d : Device)
      → find h ieee ≡ some d
      → find (modify ieee g h) ieee ≡ some (g d)
  unfolding modify find
  find-modify ieee g h d e =
      let k = compact_ieee ieee in rw (lookup-adjust k k g h.devices, str_eq_refl k, e) refl

  member-found :
      (ieee : Str) (h : Hub) (d : Device)
      → find h ieee ≡ some d
      → member (compact_ieee ieee) h.devices ≡ true
  unfolding find
  member-found ieee h d e = rw e refl

  interviewed_alone :
      (ieee : Str) (now : ℕ) (reply : Reply InterviewResult) (h : Hub) (w : World)
      → run_alone (interviewed z f r ieee now reply) h w ≡ finish_interview z f r ieee reply now h w
  unfolding interviewed applied conclusion apply_interview finish_interview run_alone ◌>>=◌
  interviewed_alone ieee now (err e) h w = elim (Option-cases (find h ieee)) [
    | inl missing ↦
        rw (missing, run_alone, finish_interview)
          (ap (λ h'. (h', w, some e)) (modify_missing ieee (set_unavailable e) h missing))
    | inr (d, found) ↦
        rw (found, run_alone, finish_interview)
          (failed_alone ieee e (modify ieee (set_unavailable e) h) w)
  ]
  interviewed_alone ieee now (ok result) h w =
      let g = apply_interview z f result in
      elim (Option-cases (find h ieee)) [
        | inl missing ↦
            rw (modify_missing ieee g h missing, missing, run_alone, finish_interview) refl
        | inr (d, found) ↦
            let h1 = modify ieee g h in
            let now_there = find-modify ieee g h d found in
            rw (now_there, found, run_alone, finish_interview)
              (applied_alone ieee now (g d) h1 w (member-found ieee h1 (g d) now_there))
      ]

  -- `Interview`, with no other goroutine beside it.
  pub interviews_alone :
      (ieee : Str) (now : ℕ) (h : Hub) (w : World)
      → run_alone (interviews z f r ieee now) h w ≡ interview z f r ieee now h w
  unfolding interviews interview run_alone ◌>>=◌
  interviews_alone ieee now h w = elim (Option-cases (find h ieee)) [
    | inl missing ↦ ground arith
    | inr (d, found) ↦ elim (Option-cases (parse_ieee z ieee)) [
      | inl bad ↦ rw (found, bad, run_alone, interview) refl
      | inr (addr, good) ↦
          let (w', reply) = r.interview_device w d.nwk_addr addr in
          rw (found, good, run_alone, interview) (interviewed_alone ieee now reply h w')
    ]
  ]
