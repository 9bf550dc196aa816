-- ===== src/Relay/Settings/Refused.antt =====
-- What `ApplyRelay` refuses.
use zigbeemq.Prelude.{
  Bool-cases, Option-cases, Str, codes, ℕ, ◌≡◌, refl, ◌⊎◌, inl, inr, true, false, Option, none,
  some, arith,
}
use zigbeemq.Errors.{
  Error, not_found, not_relay, relay_input, message, Reply, ok, err, is_relay_input, Reply-cases,
}
use zigbeemq.Zigbee.{Goznp}
use zigbeemq.Radio.{Link}
use zigbeemq.Hub.{Hub, find}
use zigbeemq.Device.{Seconds, Device, is_sonoff_mini}
use zigbeemq.Relay.Codec.{power_on_value, trigger_value, delay_raw, inching_payload}
use zigbeemq.Relay.Call.{◌>>=◌}
use zigbeemq.Relay.Settings.{apply_relay}
use zigbeemq.Relay.Patch.{RelayPatch, patch_is_empty, Values, check, inching_of, patch_values}

power_on_value_error : (s : Str) (e : Error) → power_on_value s ≡ err e → is_relay_input e ≡ true
unfolding power_on_value
power_on_value_error s e h = ground arith

trigger_value_error : (s : Str) (e : Error) → trigger_value s ≡ err e → is_relay_input e ≡ true
unfolding trigger_value
trigger_value_error s e h = ground arith

delay_raw_error : (s : Seconds) (e : Error) → delay_raw s ≡ err e → is_relay_input e ≡ true
unfolding delay_raw
delay_raw_error s e h = ground arith

inching_payload_error :
    (control mode : Str) (time : Seconds) (e : Error)
    → inching_payload control mode time ≡ err e
    → is_relay_input e ≡ true
unfolding inching_payload
inching_payload_error control mode time e h = elim (Reply-cases (delay_raw time)) [
  | inl (raw, good) ↦ ground arith
  | inr (x, bad) ↦ ground (arith, delay_raw_error time x bad)
]

check_error :
    {A : Type 0} {B : Type 0} (f : A → Reply B) (o : Option A) (e : Error)
    → ((a : A) (x : Error) → f a ≡ err x → is_relay_input x ≡ true)
    → check f o ≡ err e
    → is_relay_input e ≡ true
check_error f none e k h = ground arith
check_error f (some a) e k h = elim (Reply-cases (f a)) [
  | inl (b, good) ↦ ground arith
  | inr (x, bad) ↦ k a e (ground arith)
]

patch_values_error : (p : RelayPatch) (e : Error) → patch_values p ≡ err e → is_relay_input e ≡ true
unfolding patch_values
patch_values_error p e h = elim (Reply-cases (check power_on_value p.power_on_behavior)) [
  | inr (x, bad) ↦
      check_error power_on_value p.power_on_behavior e power_on_value_error (ground arith)
  | inl (a, startup) ↦ elim (Reply-cases (check trigger_value p.external_trigger_mode)) [
    | inr (x, bad) ↦
        check_error trigger_value p.external_trigger_mode e trigger_value_error (ground arith)
    | inl (b, trigger) ↦ elim (Reply-cases (check delay_raw p.delayed_power_on_time)) [
      | inr (x, bad) ↦
          check_error delay_raw p.delayed_power_on_time e delay_raw_error (ground arith)
      | inl (c, delay) ↦
          check_error inching_of p.inching e (λ i. inching_payload_error i.control i.mode i.time)
            (ground (arith, Reply-cases (check inching_of p.inching)))
    ]
  ]
]

-- Why `ApplyRelay` refuses a patch.
pub data IsRefusal (h : Hub) (ieee : Str) (p : RelayPatch) : Error → Type 0 where
  missing : find h ieee ≡ none → IsRefusal h ieee p not_found
  other_kind :
      (d : Device) → find h ieee ≡ some d → is_sonoff_mini d ≡ false → IsRefusal h ieee p not_relay
  bad_input :
      (e : Error)
      → is_relay_input e ≡ true
      → (patch_is_empty p ≡ true) ⊎ (patch_values p ≡ err e)
      → IsRefusal h ieee p e
  closed : h.open_adapter ≡ false → IsRefusal h ieee p (message (codes "adapter closed"))

-- What `ApplyRelay` asks before it calls the radio.
pub record IsAccepted (h : Hub) (ieee : Str) (p : RelayPatch) : Type 0 where
  target : Device
  listed : find h ieee ≡ some target
  mini : is_sonoff_mini target ≡ true
  full : patch_is_empty p ≡ false
  values : Values
  valid : patch_values p ≡ ok values
  opened : h.open_adapter ≡ true

module _ {World : Type 0} (z : Goznp) (link : Link World) where
  -- `ApplyRelay` either refuses a patch with the hub as it was and no call of the radio, for one of
  -- four reasons: the device is unknown (the error is errNotFound), it is not a ZBMINIR2
  -- (errNotRelay), the patch is empty or one of its values is out of range (an errRelayInput), the
  -- adapter is closed; or none of these holds.
  pub apply_relay_checked :
      (ieee : Str) (p : RelayPatch) (now : ℕ) (h : Hub) (w : World)
      → ((e : Error) × IsRefusal h ieee p e × (apply_relay z link ieee p now h w ≡ (h, w, err e)))
        ⊎ IsAccepted h ieee p
  unfolding apply_relay ◌>>=◌
  apply_relay_checked ieee p now h w = elim (Option-cases (find h ieee)) [
    | inl absent ↦ inl (not_found, missing absent, ground arith)
    | inr (d, found) ↦ elim (Bool-cases (is_sonoff_mini d)) [
      | inr unlike ↦ inl (not_relay, other_kind d found unlike, ground arith)
      | inl mini ↦ elim (Bool-cases (patch_is_empty p)) [
        | inl empty ↦ inl (relay_input (codes "empty"), bad_input _ refl (inl empty), ground arith)
        | inr full ↦ elim (Reply-cases (patch_values p)) [
          | inr (e, bad) ↦ inl (e, bad_input e (patch_values_error p e bad) (inr bad), ground arith)
          | inl (v, good) ↦ elim (Bool-cases h.open_adapter) [
            | inr closed_ ↦ inl (message (codes "adapter closed"), closed closed_, ground arith)
            | inl opened ↦ inr (record {
              target = d;
              listed = found;
              mini = mini;
              full = full;
              values = v;
              valid = good;
              opened = opened;
            })
          ]
        ]
      ]
    ]
  ]
