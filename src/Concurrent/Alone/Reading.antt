-- ===== src/Concurrent/Alone/Reading.antt =====
-- `readState`, `Toggle` and the recovery (internal/hub/hub.go), not interrupted.
use zigbeemq.Zigbee.{Goznp}
use zigbeemq.Radio.{Radio}
use zigbeemq.Errors.{Error, map_radio_error}
use zigbeemq.Device.{Device}
use zigbeemq.Prelude.{
  if◌then◌else◌, Bool-cases, Option-cases, Str, ℕ, ◌≡◌, refl, inl, inr, ◌||◌, Option, none, some,
  List, [], ◌∷◌, arith,
}
use zigbeemq.Hub.{Hub, find, broadcast_device}
use zigbeemq.Hub.Control.{
  note_unavailable, read_on_off, read_level, read_motion, read_state, toggle, recover_loop,
  run_recovery,
}
use zigbeemq.Concurrent.{Routine, run_alone, run_alone-bind, ◌>>=◌}
use zigbeemq.Concurrent.Methods.Reading.{
  reads_on_off, reads_level, reads_motion, reads_parts, reads_state, toggled, toggles, tries,
  recovers_loop, recovers,
}
use zigbeemq.Concurrent.Alone.{notes_unavailable_alone}

module _ {World : Type 0} (z : Goznp) (r : Radio World) where
  reads_on_off_alone :
      (d : Device) (ieee : Str) (now : ℕ) (h : Hub) (w : World)
      → run_alone (reads_on_off z r d ieee now) h w ≡ read_on_off z r d ieee now h w
  unfolding run_alone ◌>>=◌ read_on_off
  reads_on_off_alone d ieee now h w = ground arith

  reads_level_alone :
      (d : Device) (ieee : Str) (now : ℕ) (h : Hub) (w : World)
      → run_alone (reads_level z r d ieee now) h w ≡ read_level z r d ieee now h w
  unfolding run_alone ◌>>=◌ read_level
  reads_level_alone d ieee now h w = ground arith

  reads_motion_alone :
      (d : Device) (ieee : Str) (now : ℕ) (h : Hub) (w : World)
      → run_alone (reads_motion z r d ieee now) h w ≡ read_motion z r d ieee now h w
  unfolding run_alone ◌>>=◌ read_motion
  reads_motion_alone d ieee now h w = ground arith

  reads_parts_alone :
      (d : Device) (ieee : Str) (now : ℕ) (h : Hub) (w : World)
      → run_alone (reads_parts z r d ieee now) h w ≡ (
          let (h1, w1, a) = read_on_off z r d ieee now h w in
          let (h2, w2, b) = read_level z r d ieee now h1 w1 in
          let (h3, w3, c) = read_motion z r d ieee now h2 w2 in (h3, w3, a || b || c))
  unfolding reads_parts
  reads_parts_alone d ieee now h w =
      let (h1, w1, a) = read_on_off z r d ieee now h w in
      let (h2, w2, b) = read_level z r d ieee now h1 w1 in
      rw
        (
          run_alone-bind (reads_on_off z r d ieee now) _ h w,
          reads_on_off_alone d ieee now h w,
          run_alone-bind (reads_level z r d ieee now) _ h1 w1,
          reads_level_alone d ieee now h1 w1,
          run_alone-bind (reads_motion z r d ieee now) _ h2 w2,
          reads_motion_alone d ieee now h2 w2,
        )
        (unfold run_alone in refl)

  -- `readState`, with no other goroutine beside it.
  pub reads_state_alone :
      (ieee : Str) (now : ℕ) (h : Hub) (w : World)
      → run_alone (reads_state z r ieee now) h w ≡ read_state z r ieee now h w
  unfolding run_alone ◌>>=◌ reads_state read_state
  reads_state_alone ieee now h w = elim (Option-cases (find h ieee)) [
    | inl missing ↦ ground arith
    | inr (d, found) ↦ rw (found, run_alone, read_state) (reads_parts_alone d ieee now h w)
  ]

  toggled_alone :
      (ieee : Str) (now : ℕ) (error : Option Error) (h : Hub) (w : World)
      → run_alone (toggled z r ieee now error) h w ≡ elim error [
        | some e ↦ (note_unavailable ieee e h, w, some (map_radio_error e))
        | none ↦
            let (h', w', reached) = read_state z r ieee now h w in
            (broadcast_device ieee h', w', none)
      ]
  unfolding toggled broadcast_device
  toggled_alone ieee now (some e) h w = notes_unavailable_alone ieee e h w
  toggled_alone ieee now none h w =
      rw (run_alone-bind (reads_state z r ieee now) _ h w, reads_state_alone ieee now h w)
        (unfold run_alone ◌>>=◌ in refl)

  -- `Toggle`.
  pub toggles_alone :
      (ieee : Str) (now : ℕ) (h : Hub) (w : World)
      → run_alone (toggles z r ieee now) h w ≡ toggle z r ieee now h w
  unfolding run_alone ◌>>=◌ toggles toggle
  toggles_alone ieee now h w = elim (Option-cases (find h ieee)) [
    | inl missing ↦ ground arith
    | inr (d, found) ↦
        let (w', error) = r.toggle w d.nwk_addr d.endpoint in
        rw (found, run_alone, toggle) (toggled_alone ieee now error h w')
  ]

  -- One round of the recovery, on a device that is there.
  round_alone :
      (key : Str) (now : ℕ) (later : Routine World (Unit {0})) (h : Hub) (w : World)
      → run_alone (tries z r key now later) h w ≡ (
          let (h', w', reached) = read_state z r key now h w in
          if reached then (broadcast_device key h', w', tt) else run_alone later h' w')
  unfolding broadcast_device
  round_alone key now later h w =
      let answered = (read_state z r key now h w).2 in
      rw (run_alone-bind (reads_state z r key now) _ h w, reads_state_alone key now h w)
        (elim (Bool-cases answered) [
          | inl reached ↦ rw reached (unfold run_alone ◌>>=◌ in refl)
          | inr lost ↦ rw lost refl
        ])

  recovers_loop_alone :
      (wake : ℕ → ℕ) (delays : List ℕ) (key : Str) (h : Hub) (w : World)
      → run_alone (recovers_loop z r wake delays key) h w
        ≡ (let (h', w') = recover_loop z r wake delays key h w in (h', w', tt))
  unfolding recovers_loop recover_loop run_alone ◌>>=◌
  recovers_loop_alone wake [] key h w = refl
  recovers_loop_alone wake (delay ∷ delays) key h w =
      let (h', w', reached) = read_state z r key (wake delay) h w in
      ground (
        arith,
        round_alone key (wake delay) (recovers_loop z r wake delays key) h w,
        recovers_loop_alone wake delays key h' w',
      )

  -- The goroutine of `startRecovery`.
  pub recovers_alone :
      (wake : ℕ → ℕ) (key : Str) (h : Hub) (w : World)
      → run_alone (recovers z r wake key) h w
        ≡ (let (h', w') = run_recovery z r wake key h w in (h', w', tt))
  unfolding recovers run_recovery
  recovers_alone wake key h w =
      rw
        (
          run_alone-bind (recovers_loop z r wake (3 ∷ 10 ∷ 30 ∷ 60 ∷ 120 ∷ []) key) _ h w,
          recovers_loop_alone wake (3 ∷ 10 ∷ 30 ∷ 60 ∷ 120 ∷ []) key h w,
        )
        (unfold run_alone ◌>>=◌ in refl)
