-- ===== src/Hub/Registry/Commands.antt =====
-- The operations that talk to the radio keep the table well formed.
use zigbeemq.Prelude.{
  ltb, Bool-cases, Option-cases, Str, ℕ, ◌≡◌, refl, inl, inr, Bool, false, ◌||◌, some, arith,
}
use zigbeemq.Zigbee.{Goznp}
use zigbeemq.Radio.{Radio}
use zigbeemq.Errors.{Reply-cases}
use zigbeemq.Device.{Device, seen, is_light_like, is_light, is_motion}
use zigbeemq.Hub.{Hub, find, modify, broadcast_device}
use zigbeemq.Hub.Control.{
  level_of_percent, percent_of_level, clamp_percent, note_unavailable, touched, switch_command,
  turn, set_brightness, read_on_off, read_level, read_occupancy, read_motion, read_state, toggle,
}
use zigbeemq.Hub.Registry.Table.{IsValid, modify-IsValid, IsValid-of_adjust, IsValid-of_same}
use zigbeemq.Hub.Registry.Steps.{note_unavailable-IsValid}

module _ {World : Type 0} (z : Goznp) (r : Radio World) (ieee : Str) (now : ℕ) where
  pub turn-IsValid :
      (on : Bool) (h : Hub) (w : World) → IsValid h → IsValid (turn z r ieee on now h w).0
  unfolding turn broadcast_device modify
  turn-IsValid on h w t =
      let h' = (turn z r ieee on now h w).0 in
      elim (Option-cases (find h ieee)) [
        | inl missing ↦ IsValid-of_same h h' (ground arith) (ground arith) t
        | inr (d, found) ↦ elim (Option-cases (switch_command z r on w d.nwk_addr d.endpoint).1) [
          | inl done ↦
              IsValid-of_adjust ieee (λ dev. record (touched now dev) { on = some on }) h h'
                (λ d. refl) (ground arith) (ground arith) t
          | inr (e, failed) ↦
              let same : h' ≡ note_unavailable ieee e h = ground arith in
              rw same (note_unavailable-IsValid ieee e h t)
        ]
      ]

  pub set_brightness-IsValid :
      (percent : ℕ) (h : Hub) (w : World)
      → IsValid h
      → IsValid (set_brightness z r ieee percent now h w).0
  unfolding set_brightness broadcast_device modify
  set_brightness-IsValid percent h w t =
      let h' = (set_brightness z r ieee percent now h w).0 in
      let p = clamp_percent percent in
      elim (Option-cases (find h ieee)) [
        | inl missing ↦ IsValid-of_same h h' (ground arith) (ground arith) t
        | inr (d, found) ↦
            elim (Option-cases
              (r.set_brightness w d.nwk_addr d.endpoint (level_of_percent p) 5).1) [
                | inl done ↦
                    IsValid-of_adjust ieee
                      (λ dev. record (touched now dev) { brightness = some p; on = some (ltb 0 p) })
                      h h' (λ d. refl) (ground arith) (ground arith) t
                | inr (e, failed) ↦
                    let same : h' ≡ note_unavailable ieee e h = ground arith in
                    rw same (note_unavailable-IsValid ieee e h t)
              ]
      ]

  read_on_off-IsValid :
      (d : Device) (h : Hub) (w : World) → IsValid h → IsValid (read_on_off z r d ieee now h w).0
  unfolding read_on_off
  read_on_off-IsValid d h w t = elim (Bool-cases (d.has_on_off || is_light_like d.kind)) [
    | inr skipped ↦ rw skipped t
    | inl asked ↦ elim (Reply-cases (r.get_on_off_state w d.nwk_addr d.endpoint).1) [
      | inl (b, answer) ↦
          rw (asked, answer)
            (modify-IsValid ieee (λ dev. record (seen now dev) { on = some b }) h (λ d. refl) t)
      | inr (e, answer) ↦
          rw (asked, answer)
            (modify-IsValid ieee (λ dev. record dev { reachable = false }) h (λ d. refl) t)
    ]
  ]

  read_level-IsValid :
      (d : Device) (h : Hub) (w : World) → IsValid h → IsValid (read_level z r d ieee now h w).0
  unfolding read_level
  read_level-IsValid d h w t = elim (Bool-cases (d.has_level || is_light d.kind)) [
    | inr skipped ↦ rw skipped t
    | inl asked ↦ elim (Reply-cases (r.get_brightness w d.nwk_addr d.endpoint).1) [
      | inl (level, answer) ↦
          rw (asked, answer)
            (modify-IsValid ieee
              (λ dev. record (seen now dev) { brightness = some (percent_of_level level) }) h
              (λ d. refl) t)
      | inr (e, answer) ↦ rw (asked, answer) t
    ]
  ]

  read_motion-IsValid :
      (d : Device) (h : Hub) (w : World) → IsValid h → IsValid (read_motion z r d ieee now h w).0
  unfolding read_motion
  read_motion-IsValid d h w t = elim (Bool-cases (d.has_occupancy || is_motion d.kind)) [
    | inr skipped ↦ rw skipped t
    | inl asked ↦ elim (Reply-cases (read_occupancy z r d w).1) [
      | inl (occ, answer) ↦
          rw (asked, answer)
            (modify-IsValid ieee (λ dev. record (seen now dev) { occupancy = some occ }) h
              (λ d. refl) t)
      | inr (e, answer) ↦ rw (asked, answer) t
    ]
  ]

  pub read_state-IsValid :
      (h : Hub) (w : World) → IsValid h → IsValid (read_state z r ieee now h w).0
  unfolding read_state
  read_state-IsValid h w t = elim (Option-cases (find h ieee)) [
    | inl missing ↦ rw (missing, read_state) t
    | inr (d, found) ↦
        let a = read_on_off z r d ieee now h w in
        let b = read_level z r d ieee now a.0 a.1 in
        rw (found, read_state)
          (read_motion-IsValid d b.0 b.1
            (read_level-IsValid d a.0 a.1 (read_on_off-IsValid d h w t)))
  ]

  pub toggle-IsValid : (h : Hub) (w : World) → IsValid h → IsValid (toggle z r ieee now h w).0
  unfolding toggle broadcast_device
  toggle-IsValid h w t =
      let h' = (toggle z r ieee now h w).0 in
      elim (Option-cases (find h ieee)) [
        | inl missing ↦ IsValid-of_same h h' (ground arith) (ground arith) t
        | inr (d, found) ↦
            let w' = (r.toggle w d.nwk_addr d.endpoint).0 in
            elim (Option-cases (r.toggle w d.nwk_addr d.endpoint).1) [
              | inl done ↦
                  IsValid-of_same (read_state z r ieee now h w').0 h' (ground arith) (ground arith)
                    (read_state-IsValid h w' t)
              | inr (e, failed) ↦
                  let same : h' ≡ note_unavailable ieee e h = ground arith in
                  rw same (note_unavailable-IsValid ieee e h t)
            ]
      ]
