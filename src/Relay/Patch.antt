-- ===== src/Relay/Patch.antt =====
-- A partial update of the settings of a relay, and its check (`RelayPatch` and the first half of
-- `ApplyRelay`, internal/hub/relay.go).
use zigbeemq.Prelude.{is_some, Str, ℕ, Bool, ◌&&◌, not, Option, none, some, List, [], ◌∷◌, ◌++◌}
use zigbeemq.Zigbee.{Value, boolean, uint8, uint16, int16}
use zigbeemq.Errors.{Reply, ok, ◌>>=◌}
use zigbeemq.Device.{Seconds}
use zigbeemq.Relay.Codec.{
  power_on_value, trigger_value, turbo_value, delay_raw, inching_payload, attr_network_led,
  attr_radio_power, attr_delayed_state, attr_delayed_time, attr_external_trigger, attr_detach_relay,
}

-- `Inching`.
pub record Inching : Type 0 where
  pub control : Str
  pub time : Seconds
  pub mode : Str

-- `RelayPatch`; nil leaves a setting as it is.
pub record RelayPatch : Type 0 where
  pub power_on_behavior : Option Str
  pub network_indicator : Option Bool
  pub turbo_mode : Option Bool
  pub delayed_power_on_state : Option Bool
  pub delayed_power_on_time : Option Seconds
  pub detach_relay_mode : Option Bool
  pub external_trigger_mode : Option Str
  pub inching : Option Inching

-- `Empty`.
unfoldable pub patch_is_empty : RelayPatch → Bool
patch_is_empty p =
    not (is_some p.power_on_behavior)
    && not (is_some p.network_indicator)
    && not (is_some p.turbo_mode)
    && not (is_some p.delayed_power_on_state)
    && not (is_some p.delayed_power_on_time)
    && not (is_some p.detach_relay_mode)
    && not (is_some p.external_trigger_mode)
    && not (is_some p.inching)

-- The values that `ApplyRelay` sends, where the patch sets them.
pub record Values : Type 0 where
  pub startup : Option ℕ
  pub trigger : Option ℕ
  pub delay : Option ℕ
  pub inch : Option (List ℕ)

-- A check of a field that may be nil.
abbrev pub check {ℓ} : {A : Type ℓ} {B : Type 0} → (A → Reply B) → Option A → Reply (Option B)
check f none = ok none
check f (some a) = f a >>= λ b. ok (some b)

abbrev pub inching_of : Inching → Reply (List ℕ)
inching_of i = inching_payload i.control i.mode i.time

-- The checks of `ApplyRelay` before it calls the radio.
unfoldable pub patch_values : RelayPatch → Reply Values
patch_values p = do
  startup ← check power_on_value p.power_on_behavior
  trigger ← check trigger_value p.external_trigger_mode
  delay ← check delay_raw p.delayed_power_on_time
  inch ← check inching_of p.inching
  ok (record { startup = startup; trigger = trigger; delay = delay; inch = inch })

abbrev attribute {ℓ} : {A : Type ℓ} → ℕ → (A → Value) → Option A → List (ℕ × Value)
attribute id f none = []
attribute id f (some a) = (id, f a) ∷ []

-- `ewelinkVals`; the order of a Go map is open.
unfoldable pub ewelink_values : RelayPatch → Values → List (ℕ × Value)
ewelink_values p v =
    attribute attr_network_led boolean p.network_indicator
    ++ (attribute attr_radio_power (λ on. int16 (turbo_value on)) p.turbo_mode
        ++ (attribute attr_delayed_state boolean p.delayed_power_on_state
            ++ (attribute attr_delayed_time uint16 v.delay
                ++ (attribute attr_external_trigger uint8 v.trigger
                    ++ attribute attr_detach_relay boolean p.detach_relay_mode))))
