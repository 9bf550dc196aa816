-- ===== src/Concurrent/Alone.antt =====
-- A method that no other one interrupts does what its sequential definition says
-- (internal/hub/hub.go).
pub mod Reading
pub mod Interview
pub mod Registry
pub mod Sequential
use zigbeemq.Zigbee.{Goznp}
use zigbeemq.Radio.{Radio}
use zigbeemq.Errors.{Error, map_radio_error}
use zigbeemq.Ieee.{compact_ieee}
use zigbeemq.Device.{Device}
use zigbeemq.Prelude.{
  ltb, Option-cases, Str, ℕ, ◌≡◌, refl, inl, inr, Bool, Option, none, some, arith,
}
use zigbeemq.Hub.{Hub, find, modify, broadcast_device, save_cache}
use zigbeemq.Hub.Control.{
  level_of_percent, clamp_percent, start_recovery, note_unavailable, touched, switch_command, turn,
  set_brightness,
}
use zigbeemq.Concurrent.{run_alone, ◌>>=◌}
use zigbeemq.Concurrent.Methods.{
  saves, starts_recovery, notes_unavailable, settles, turns, brightens,
}

module _ {World : Type 0} where
  starts_recovery_alone :
      (ieee : Str) (h : Hub) (w : World)
      → run_alone (starts_recovery ieee) h w ≡ (start_recovery ieee h, w, tt)
  unfolding run_alone ◌>>=◌ starts_recovery start_recovery
  starts_recovery_alone ieee h w = elim (Option-cases (find h (compact_ieee ieee))) [
    | inl missing ↦ ground arith
    | inr (d, found) ↦ ground arith
  ]

  pub notes_unavailable_alone :
      (ieee : Str) (e : Error) (h : Hub) (w : World)
      → run_alone (notes_unavailable ieee e) h w
        ≡ (note_unavailable ieee e h, w, some (map_radio_error e))
  unfolding run_alone ◌>>=◌ notes_unavailable note_unavailable broadcast_device
  notes_unavailable_alone ieee e h w = ground (arith, starts_recovery_alone ieee)

  settles_alone :
      (ieee : Str) (f : Device → Device) (error : Option Error) (h : Hub) (w : World)
      → run_alone (settles ieee f error) h w ≡ elim error [
        | some e ↦ (note_unavailable ieee e h, w, some (map_radio_error e))
        | none ↦ (broadcast_device ieee (modify ieee f h), w, none)
      ]
  unfolding run_alone ◌>>=◌ settles broadcast_device
  settles_alone ieee f (some e) h w = notes_unavailable_alone ieee e h w
  settles_alone ieee f none h w = refl

  pub saves_alone : (h : Hub) (w : World) → run_alone saves h w ≡ (save_cache h, w, tt)
  unfolding run_alone ◌>>=◌ save_cache
  saves_alone h w = ground arith

module _ {World : Type 0} (z : Goznp) (r : Radio World) where
  -- `Turn`, with no other goroutine beside it.
  pub turns_alone :
      (ieee : Str) (on : Bool) (now : ℕ) (h : Hub) (w : World)
      → run_alone (turns z r ieee on now) h w ≡ turn z r ieee on now h w
  unfolding run_alone ◌>>=◌ turns turn
  turns_alone ieee on now h w = elim (Option-cases (find h ieee)) [
    | inl missing ↦ ground arith
    | inr (d, found) ↦
        rw (found, run_alone, turn)
          (settles_alone ieee (λ dev. record (touched now dev) { on = some on })
            (switch_command z r on w d.nwk_addr d.endpoint).1 h
            (switch_command z r on w d.nwk_addr d.endpoint).0)
  ]

  -- `SetBrightness`.
  pub brightens_alone :
      (ieee : Str) (percent now : ℕ) (h : Hub) (w : World)
      → run_alone (brightens z r ieee percent now) h w ≡ set_brightness z r ieee percent now h w
  unfolding run_alone ◌>>=◌ brightens set_brightness
  brightens_alone ieee percent now h w = elim (Option-cases (find h ieee)) [
    | inl missing ↦ ground arith
    | inr (d, found) ↦
        let p = clamp_percent percent in
        let answer = r.set_brightness w d.nwk_addr d.endpoint (level_of_percent p) 5 in
        rw (found, run_alone, set_brightness)
          (settles_alone ieee
            (λ dev. record (touched now dev) { brightness = some p; on = some (ltb 0 p) }) answer.1
            h answer.0)
  ]
