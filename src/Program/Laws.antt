-- ===== src/Program/Laws.antt =====
-- Which settings turn the MQTT bridge off (cmd/zigbeemq/main.go).
use zigbeemq.Prelude.{
  if◌then◌else◌, Bool-cases, is_some, Str, codes, str_eq, ◌≡◌, refl, ◌∙◌, inl, inr, true, false,
  ◌||◌, not, Option, none, some, [], ◌∷◌, arith,
}
use zigbeemq.Program.{Environment, env, Flags, Settings, flag_or, settings, bridge_of}

bridge_of-none :
    (s : Settings)
    → not (is_some (bridge_of s)) ≡ (str_eq s.mqtt_broker [] || str_eq s.mqtt_broker (codes "-"))
unfolding bridge_of
bridge_of-none s = ground arith

dash_full : (v : Str) → str_eq v [] ≡ true → str_eq v (codes "-") ≡ false
unfolding str_eq
dash_full [] e = refl
dash_full (c ∷ v) e = absurd (ground arith)

default_broker :
    (v : Str)
    → let broker = if str_eq v [] then codes "tcp://bb:1883" else v in
      (str_eq broker [] || str_eq broker (codes "-")) ≡ str_eq v (codes "-")
default_broker v = elim (Bool-cases (str_eq v [])) [
  | inl unset ↦ rw (unset, dash_full v unset) (unfold str_eq in refl)
  | inr set ↦ rw (set, set) refl
]

-- The program starts no MQTT bridge exactly if the flag `-mqtt` is given as "" or "-", or is not given
-- and the variable is "-": a variable that is set and empty leaves the bridge on, like an unset one.
pub bridge_off :
    (getenv : Environment) (flags : Flags)
    → not (is_some (bridge_of (settings getenv flags))) ≡ elim flags.mqtt_flag [
      | some s ↦ str_eq s [] || str_eq s (codes "-")
      | none ↦ str_eq (getenv (codes "ZIGBEEMQ_MQTT")) (codes "-")
    ]
unfolding settings env
bridge_off getenv flags = bridge_of-none (settings getenv flags) ∙ broker_lem flags.mqtt_flag
  where
    broker_lem :
        (flag : Option Str)
        → let broker = flag_or flag (env getenv (codes "ZIGBEEMQ_MQTT") (codes "tcp://bb:1883")) in
          (str_eq broker [] || str_eq broker (codes "-")) ≡ elim flag [
            | some s ↦ str_eq s [] || str_eq s (codes "-")
            | none ↦ str_eq (getenv (codes "ZIGBEEMQ_MQTT")) (codes "-")
          ]
    broker_lem none = default_broker (getenv (codes "ZIGBEEMQ_MQTT"))
    broker_lem (some s) = refl
