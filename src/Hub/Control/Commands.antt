-- ===== src/Hub/Control/Commands.antt =====
-- What a command leaves behind, on every branch.
use mathlib.Core.Option
use zigbeemq.Prelude.{
  ltb, if◌then◌else◌, Option-cases, Str, str_eq, str_eq_iff, lookup, adjust, lookup-adjust, ℕ, ◌≤◌,
  ◌≡◌, inl, inr, Bool, true, false, Option, none, some, [], arith,
}
use zigbeemq.Zigbee.{Goznp}
use zigbeemq.Radio.{Radio}
use zigbeemq.Ieee.{compact_ieee}
use zigbeemq.Errors.{Error, not_found, map_radio_error, display_radio_error}
use zigbeemq.Device.{Device}
use zigbeemq.Hub.{Hub, find, modify, broadcast_device}
use zigbeemq.Hub.Control.{
  level_of_percent, clamp_percent, start_recovery, set_unavailable, note_unavailable, touched, Done,
  switch_command, turn, set_brightness, toggle,
}

-- The table of `h'` is that of `h` but for the device that `ieee` names, which became `f d`.
abbrev Changes : Str → (Device → Device) → Hub → Hub → Type 0
Changes ieee f h h' =
    (k : Str)
    → lookup k h'.devices ≡ (
        if str_eq (compact_ieee ieee) k
        then Option.map f (lookup k h.devices)
        else lookup k h.devices)

Changes-of_devices :
    (ieee : Str) (f : Device → Device) (h h' : Hub)
    → h'.devices ≡ adjust (compact_ieee ieee) f h.devices
    → Changes ieee f h h'
Changes-of_devices ieee f h h' e k = rw e (lookup-adjust (compact_ieee ieee) k f h.devices)

start_recovery-devices : (ieee : Str) (h : Hub) → (start_recovery ieee h).devices ≡ h.devices
unfolding start_recovery
start_recovery-devices ieee h = ground arith

note_unavailable-devices :
    (ieee : Str) (e : Error) (h : Hub)
    → (note_unavailable ieee e h).devices ≡ adjust (compact_ieee ieee) (set_unavailable e) h.devices
unfolding note_unavailable broadcast_device modify
note_unavailable-devices ieee e h =
    ground (
      arith,
      start_recovery-devices ieee (broadcast_device ieee (modify ieee (set_unavailable e) h)),
    )

-- The device `d` after a command that was answered with `reply`, and that gives it the state `on` and
-- the percentage `brightness`.
abbrev pub after : Option Error → ℕ → Option Bool → Option ℕ → Device → Device
after none now on brightness d = record d {
  on = on;
  brightness = brightness;
  reachable = true;
  error = [];
  last_seen = some now;
}
after (some e) now on brightness d = record d { reachable = false; error = display_radio_error e }

-- The device that `ieee` names became `d`, the others are as they were, and the command returns what
-- the answer is mapped to.
abbrev pub Outcome : {World : Type 0} → Str → Option Error → Device → Hub → Done World → Type 0
Outcome ieee reply d h done =
    ((k : Str)
      → lookup k done.0.devices
        ≡ (if str_eq (compact_ieee ieee) k then some d else lookup k h.devices))
    × (done.2 ≡ Option.map map_radio_error reply)

Outcome-of :
    {World : Type 0} (ieee : Str) (d : Device) (h : Hub) (done : Done World) (f : Device → Device)
    (reply : Option Error) (d' : Device)
    → find h ieee ≡ some d
    → done.0.devices ≡ adjust (compact_ieee ieee) f h.devices
    → f d ≡ d'
    → done.2 ≡ Option.map map_radio_error reply
    → Outcome ieee reply d' h done
unfolding find
Outcome-of ieee d h done f reply d' e t g returned = (
  λ k. ground (arith, Changes-of_devices ieee f h done.0 t k, str_eq_iff (compact_ieee ieee) k),
  returned,
)

module _ {World : Type 0} (z : Goznp) (r : Radio World) (ieee : Str) (now : ℕ) (h : Hub)
    (w : World) where
  -- `Turn`, `Toggle` and `SetBrightness` of a device that the hub does not know change nothing,
  -- call no radio and return the error for a missing device.
  pub commands_unknown :
      (on : Bool) (percent : ℕ)
      → find h ieee ≡ none
      → (turn z r ieee on now h w ≡ (h, w, some not_found))
        × (toggle z r ieee now h w ≡ (h, w, some not_found))
        × (set_brightness z r ieee percent now h w ≡ (h, w, some not_found))
  unfolding turn toggle set_brightness
  commands_unknown on percent e = (ground arith, ground arith, ground arith)

  -- `SetBrightness` of a known device, where the radio sets the level for at most 100 per cent
  -- without an error: the device gets this percentage, is on exactly if it is not 0, counts as
  -- reachable without an error and as seen now, all other devices stay as they were, and no error
  -- is returned.
  pub set_brightness_done :
      (percent : ℕ) (d : Device) (w' : World)
      → find h ieee ≡ some d
      → r.set_brightness w d.nwk_addr d.endpoint (level_of_percent (clamp_percent percent)) 5
        ≡ (w', none)
      → let p = clamp_percent percent in
        let done = set_brightness z r ieee percent now h w in
        Changes ieee
          (λ dev. record (touched now dev) { brightness = some p; on = some (ltb 0 p) })
          h
          done.0
        × (p ≤ 100)
        × (done.1 ≡ w')
        × (done.2 ≡ none)
  unfolding set_brightness
  set_brightness_done percent d w' e s = (
    Changes-of_devices ieee _ h (set_brightness z r ieee percent now h w).0
        (unfold broadcast_device modify in ground arith),
    ground arith,
    ground arith,
    ground arith,
  )

  turn-Outcome :
      (on : Bool) (d : Device)
      → find h ieee ≡ some d
      → let reply = (switch_command z r on w d.nwk_addr d.endpoint).1 in
        Outcome ieee reply (after reply now (some on) d.brightness d) h (turn z r ieee on now h w)
  unfolding turn
  turn-Outcome on d e =
      let reply = (switch_command z r on w d.nwk_addr d.endpoint).1 in
      elim (Option-cases reply) [
        | inl done ↦
            Outcome-of ieee d h (turn z r ieee on now h w)
              (λ dev. record (touched now dev) { on = some on }) reply
              (after reply now (some on) d.brightness d) e
              (unfold broadcast_device modify in ground arith) (ground arith) (ground arith)
        | inr (error, failed) ↦
            Outcome-of ieee d h (turn z r ieee on now h w) (set_unavailable error) reply
              (after reply now (some on) d.brightness d) e
              (ground (arith, note_unavailable-devices ieee error h)) (ground arith) (ground arith)
      ]

  set_brightness-Outcome :
      (percent : ℕ) (d : Device)
      → find h ieee ≡ some d
      → let reply =
          (r.set_brightness w d.nwk_addr d.endpoint
            (level_of_percent (clamp_percent percent))
            5).1 in
        let p = clamp_percent percent in
        Outcome ieee reply
          (after reply now (some (ltb 0 p)) (some p) d)
          h
          (set_brightness z r ieee percent now h w)
  unfolding set_brightness
  set_brightness-Outcome percent d e =
      let p = clamp_percent percent in
      let reply =
        (r.set_brightness w d.nwk_addr d.endpoint (level_of_percent (clamp_percent percent)) 5).1 in
      elim (Option-cases reply) [
        | inl done ↦
            Outcome-of ieee d h (set_brightness z r ieee percent now h w)
              (λ dev. record (touched now dev) { brightness = some p; on = some (ltb 0 p) }) reply
              (after reply now (some (ltb 0 p)) (some p) d) e
              (unfold broadcast_device modify in ground arith) (ground arith) (ground arith)
        | inr (error, failed) ↦
            Outcome-of ieee d h (set_brightness z r ieee percent now h w) (set_unavailable error)
              reply (after reply now (some (ltb 0 p)) (some p) d) e
              (ground (arith, note_unavailable-devices ieee error h)) (ground arith) (ground arith)
      ]

  -- `Turn` and `SetBrightness` of a known device, whatever the radio answers. Without an error the
  -- device has the new state, for `SetBrightness` with the percentage limited to 100 and on exactly
  -- if that is not 0; it is reachable, without an error text, and seen now, while its `LastSeenMs` is
  -- as it was. After an error the device is unreachable, with the text that is displayed for the
  -- error, and all else of it is as it was. No other device changes, and the method returns what the
  -- answer of the radio is mapped to.
  pub commands-Outcome :
      (on : Bool) (percent : ℕ) (d : Device)
      → find h ieee ≡ some d
      → let p = if ltb 100 percent then 100 else percent in
        let turned = (switch_command z r on w d.nwk_addr d.endpoint).1 in
        let dimmed = (r.set_brightness w d.nwk_addr d.endpoint (level_of_percent p) 5).1 in
        Outcome ieee turned (after turned now (some on) d.brightness d) h (turn z r ieee on now h w)
        × Outcome ieee dimmed
            (after dimmed now (some (ltb 0 p)) (some p) d)
            h
            (set_brightness z r ieee percent now h w)
  commands-Outcome on percent d e = (turn-Outcome on d e, set_brightness-Outcome percent d e)
