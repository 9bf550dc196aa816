-- ===== src/Relay/Codec.antt =====
-- The values of the relay's settings on the wire (internal/hub/relay.go).
pub mod Laws
use Prim.Native.Nat.{bit_or, bit_xor}
use zigbeemq.Prelude.{
  ltb, ◌==◌, if◌then◌else◌, Str, codes, str_eq, to_lower, to_upper, trim_space, ℕ, ◌+◌, ◌-◌, ◌*◌,
  ◌/◌, ◌%◌, ◌^◌, Bool, true, false, ◌&&◌, ◌||◌, not, Option, none, some, List, [], ◌∷◌, ◌++◌,
}
use zigbeemq.Zigbee.{Value, boolean, uint8, uint16, int8, int16, bit, ReadResult, Goznp}
use zigbeemq.Errors.{relay_input, Reply, ok, err}
use zigbeemq.Device.{Seconds, Relay}

-- `powerOnValue`.
unfoldable pub power_on_value : Str → Reply ℕ
power_on_value name =
    let s = to_lower (trim_space name) in
    if str_eq s (codes "off")
    then ok 0
    else if str_eq s (codes "on")
    then ok 1
    else if str_eq s (codes "toggle")
    then ok 2
    else if str_eq s (codes "previous")
    then ok 255
    else err (relay_input (codes "power_on_behavior " ++ name))

-- `powerOnName`.
pub power_on_name : ℕ → Option Str
power_on_name v =
    if v == 0
    then some (codes "off")
    else if v == 1
    then some (codes "on")
    else if v == 2
    then some (codes "toggle")
    else if v == 255
    then some (codes "previous")
    else none

-- `triggerValue`.
unfoldable pub trigger_value : Str → Reply ℕ
trigger_value name =
    let s = to_lower (trim_space name) in
    if str_eq s (codes "edge")
    then ok 0
    else if str_eq s (codes "pulse")
    then ok 1
    else if str_eq s (codes "following(off)")
    then ok 2
    else if str_eq s (codes "following(on)")
    then ok 130
    else err (relay_input (codes "external_trigger_mode " ++ name))

-- `triggerName`.
pub trigger_name : ℕ → Option Str
trigger_name v =
    if v == 0
    then some (codes "edge")
    else if v == 1
    then some (codes "pulse")
    else if v == 2
    then some (codes "following(off)")
    else if v == 130
    then some (codes "following(on)")
    else none

-- `turboValue` and `turboOn`, over the bit pattern of an int16.
unfoldable pub turbo_value : Bool → ℕ
turbo_value on = if on then 0x14 else 0x09

unfoldable turbo_on : ℕ → Option Bool
turbo_on v = if v == 0x14 then some true else if v == 0x09 then some false else none

-- One second in the units of `Seconds`.
abbrev pub second : ℕ
second = 2 ^ 53

-- `math.Round(seconds * 2)`, half away from zero.
abbrev rounded_halves : Seconds → ℕ
rounded_halves s = (4 * s + second) / (2 * second)

-- The distance of two numbers, as `math.Abs` of their difference.
abbrev pub distance : ℕ → ℕ → ℕ
distance a b = (a - b) + (b - a)

-- `delayRaw`. With both sides multiplied by 20 units the test against 0.05 is one of whole numbers;
-- no multiple of 2^-52 lies between 1/20 and the float64 nearest to it.
unfoldable pub delay_raw : Seconds → Reply ℕ
delay_raw seconds =
    let raw = rounded_halves seconds in
    if ltb (2 * seconds) second || ltb (7199 * second) (2 * seconds)
    then err (relay_input (codes "delayed_power_on_time out of range"))
    else if ltb second (20 * distance (2 * seconds) (raw * second)) || ltb raw 1 || ltb 7199 raw
    then err (relay_input (codes "delayed_power_on_time step is 0.5"))
    else ok raw

-- `float64(raw) / 2`.
abbrev pub seconds_of_raw : ℕ → Seconds
seconds_of_raw raw = raw * (second / 2)

pub xor_all : ℕ → List ℕ → ℕ
xor_all sum [] = sum
xor_all sum (b ∷ bytes) = xor_all (bit_xor sum b) bytes

-- The first ten bytes of `inchingPayload`; `flags` is the byte at index 4.
abbrev inching_body : ℕ → ℕ → List ℕ
inching_body flags raw =
    0x01 ∷ 0x17 ∷ 0x07 ∷ 0x80 ∷ flags ∷ 0x00 ∷ (raw % 256) ∷ (raw / 256 % 256) ∷ 0x00 ∷ 0x00 ∷ []

-- With the checksum.
pub inching_bytes : ℕ → ℕ → List ℕ
unfolding xor_all
inching_bytes flags raw = inching_body flags raw ++ xor_all 0 (inching_body flags raw) ∷ []

abbrev inching_flags : Bool → Bool → ℕ
inching_flags enable on = bit_or (if enable then 0x80 else 0x00) (if on then 0x01 else 0x00)

-- `inchingPayload`.
unfoldable pub inching_payload : Str → Str → Seconds → Reply (List ℕ)
inching_payload control mode seconds =
    let ctrl = to_upper (trim_space control) in
    let md = to_upper (trim_space mode) in
    let enable = str_eq ctrl (codes "ENABLE") in
    let on = str_eq md (codes "ON") in
    if not enable && not (str_eq ctrl (codes "DISABLE"))
    then err (relay_input (codes "inching_control"))
    else if not on && not (str_eq md (codes "OFF"))
    then err (relay_input (codes "inching_mode"))
    else elim (delay_raw seconds) [
      | err e ↦ err e
      | ok raw ↦ ok (inching_bytes (inching_flags enable on) raw)
    ]

-- `asU8`, `asU16`, `asI16` and `asBool`.
unfoldable as_u8 : Value → ℕ
as_u8 (uint8 n) = n
as_u8 (int8 n) = n
as_u8 (boolean b) = bit b
as_u8 _ = 0

unfoldable as_u16 : Value → ℕ
as_u16 (uint16 n) = n
as_u16 (uint8 n) = n
as_u16 _ = 0

unfoldable as_i16 : Value → ℕ
as_i16 (int16 n) = n
as_i16 (uint16 n) = n
as_i16 (uint8 n) = n
as_i16 _ = 0

unfoldable as_bool : Value → Bool
as_bool (boolean b) = b
as_bool (uint8 n) = not (n == 0)
as_bool _ = false

-- The attributes of the eWeLink cluster.
abbrev pub attr_network_led : ℕ
attr_network_led = 0x0001

abbrev pub attr_radio_power : ℕ
attr_radio_power = 0x0012

abbrev pub attr_delayed_state : ℕ
attr_delayed_state = 0x0014

abbrev pub attr_delayed_time : ℕ
attr_delayed_time = 0x0015

abbrev pub attr_external_trigger : ℕ
attr_external_trigger = 0x0016

abbrev pub attr_detach_relay : ℕ
attr_detach_relay = 0x0017

abbrev set_power_on : Option Str → Relay → Relay × Bool
set_power_on none next = (next, false)
set_power_on (some name) next = (record next { power_on_behavior = name }, true)

abbrev set_turbo : Option Bool → Relay → Relay × Bool
set_turbo none next = (next, false)
set_turbo (some on) next = (record next { turbo_mode = some on }, true)

abbrev set_trigger : Option Str → Relay → Relay × Bool
set_trigger none next = (next, false)
set_trigger (some name) next = (record next { external_trigger_mode = name }, true)

module _ (z : Goznp) where
  -- The `switch` of `applyRelayRead`, for an attribute that was read.
  read_attribute : ℕ → Value → Relay → Relay × Bool
  read_attribute id v next =
      if id == z.attr_start_up_on_off
      then set_power_on (power_on_name (as_u8 v)) next
      else if id == attr_network_led
      then (record next { network_indicator = some (as_bool v) }, true)
      else if id == attr_radio_power
      then set_turbo (turbo_on (as_i16 v)) next
      else if id == attr_delayed_state
      then (record next { delayed_power_on_state = some (as_bool v) }, true)
      else if id == attr_delayed_time
      then (record next { delayed_power_on_time = some (seconds_of_raw (as_u16 v)) }, true)
      else if id == attr_external_trigger
      then set_trigger (trigger_name (as_u8 v)) next
      else if id == attr_detach_relay
      then (record next { detach_relay_mode = some (as_bool v) }, true)
      else (next, false)

  read_result : ReadResult → Relay → Relay × Bool
  unfolding read_attribute
  read_result r next =
      if r.status == z.status_success then read_attribute r.id r.value next else (next, false)

  -- `applyRelayRead`.
  pub apply_relay_read : List ReadResult → Relay → Relay × Bool
  unfolding read_result
  apply_relay_read [] next = (next, false)
  apply_relay_read (r ∷ results) next =
      let (next', got) = read_result r next in
      let (last, more) = apply_relay_read results next' in (last, got || more)
