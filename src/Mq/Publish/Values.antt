-- ===== src/Mq/Publish/Values.antt =====
-- What the body of a device's message has under each key (`publishDevice`, internal/mq/bridge.go).
use mathlib.Core.Option
use Prim.Native.String.{String}
use zigbeemq.Prelude.{
  if◌then◌else◌, All, Str, codes, str_eq, str_eq_refl, ℕ, ◌≡◌, refl, ◌∙◌, Bool, true, false, Option,
  none, some, List, [], ◌∷◌, ◌++◌,
}
use zigbeemq.Device.{Relay, Device}
use zigbeemq.Mq.{published_level}
use zigbeemq.Mq.Publish.{
  Json, text, number, flag, duration, Entries, entry, full_text, on_text, relay_entries,
  state_entries,
}

-- What a body has under a key.
pub value_of : Str → Entries → Option Json
value_of k [] = none
value_of k ((j, v) ∷ entries) = if str_eq j k then some v else value_of k entries

value_of-other :
    {A : Type 0} (k : Str) (key : String) (f : A → Json) (o : Option A) (rest : Entries)
    → str_eq (codes key) k ≡ false
    → value_of k (entry key f o ++ rest) ≡ value_of k rest
unfolding value_of
value_of-other k key f none rest e = refl
value_of-other k key f (some a) rest e = rw e refl

value_of-last :
    {A : Type 0} (k : Str) (key : String) (f : A → Json) (o : Option A)
    → str_eq (codes key) k ≡ false
    → value_of k (entry key f o) ≡ none
unfolding value_of
value_of-last k key f none e = refl
value_of-last k key f (some a) e = rw e refl

value_of-own :
    {A : Type 0} (key : String) (f : A → Json) (o : Option A) (rest : Entries)
    → value_of (codes key) rest ≡ none
    → value_of (codes key) (entry key f o ++ rest) ≡ Option.map f o
unfolding value_of
value_of-own key f none rest e = e
value_of-own key f (some a) rest e = rw (str_eq_refl (codes key)) refl

abbrev relay_keys : List String
relay_keys =
    "power_on_behavior" ∷ "network_indicator" ∷ "turbo_mode" ∷ "delayed_power_on_state"
    ∷ "delayed_power_on_time" ∷ "detach_relay_mode" ∷ "external_trigger_mode" ∷ []

value_of-relay :
    (k : Str) (o : Option Relay)
    → All (λ key. str_eq (codes key) k ≡ false) relay_keys
    → value_of k (relay_entries o) ≡ none
value_of-relay k none others = unfold value_of in refl
value_of-relay k (some r) (a, (b, (c, (d, (e, (f, (g, u))))))) =
    value_of-other k "power_on_behavior" text (full_text r.power_on_behavior) _ a
    ∙ value_of-other k "network_indicator" flag r.network_indicator _ b
    ∙ value_of-other k "turbo_mode" flag r.turbo_mode _ c
    ∙ value_of-other k "delayed_power_on_state" flag r.delayed_power_on_state _ d
    ∙ value_of-other k "delayed_power_on_time" duration r.delayed_power_on_time _ e
    ∙ value_of-other k "detach_relay_mode" flag r.detach_relay_mode _ f
    ∙ value_of-last k "external_trigger_mode" text (full_text r.external_trigger_mode) g

abbrev pub state_json : Bool → Json
state_json on = text (if on then codes "ON" else codes "OFF")

abbrev pub level_json : ℕ → Json
level_json percent = number (published_level percent)

-- The keys of a body that are not the settings of a relay.
pub record HasValues (action : Option Str) (d : Device) (entries : Entries) : Type 0 where
  pub state : value_of (codes "state") entries ≡ Option.map state_json d.on
  pub brightness : value_of (codes "brightness") entries ≡ Option.map level_json d.brightness
  pub action_value : value_of (codes "action") entries ≡ Option.map text action
  pub occupancy : value_of (codes "occupancy") entries ≡ Option.map flag d.occupancy

state_text : (o : Option Bool) → Option.map on_text o ≡ Option.map state_json o
state_text none = refl
state_text (some true) = refl
state_text (some false) = refl

pub state_entries-HasValues :
    (action : Option Str) (d : Device) → HasValues action d (state_entries action d)
unfolding state_entries str_eq
state_entries-HasValues action d = record {
  state =
      value_of-own "state" on_text d.on _ (
        value_of-other (codes "state") "brightness" level_json d.brightness _ refl
        ∙ value_of-other (codes "state") "action" text action _ refl
        ∙ value_of-other (codes "state") "occupancy" flag d.occupancy _ refl
        ∙ value_of-relay (codes "state") d.relay
            (refl, (refl, (refl, (refl, (refl, (refl, (refl, tt))))))))
      ∙ state_text d.on;
  brightness =
      value_of-other (codes "brightness") "state" on_text d.on _ refl
      ∙ value_of-own "brightness" level_json d.brightness _ (
          value_of-other (codes "brightness") "action" text action _ refl
          ∙ value_of-other (codes "brightness") "occupancy" flag d.occupancy _ refl
          ∙ value_of-relay (codes "brightness") d.relay
              (refl, (refl, (refl, (refl, (refl, (refl, (refl, tt))))))));
  action_value =
      value_of-other (codes "action") "state" on_text d.on _ refl
      ∙ value_of-other (codes "action") "brightness" level_json d.brightness _ refl
      ∙ value_of-own "action" text action _ (
          value_of-other (codes "action") "occupancy" flag d.occupancy _ refl
          ∙ value_of-relay (codes "action") d.relay
              (refl, (refl, (refl, (refl, (refl, (refl, (refl, tt))))))));
  occupancy =
      value_of-other (codes "occupancy") "state" on_text d.on _ refl
      ∙ value_of-other (codes "occupancy") "brightness" level_json d.brightness _ refl
      ∙ value_of-other (codes "occupancy") "action" text action _ refl
      ∙ value_of-own "occupancy" flag d.occupancy _ (
          value_of-relay (codes "occupancy") d.relay
            (refl, (refl, (refl, (refl, (refl, (refl, (refl, tt))))))));
}
