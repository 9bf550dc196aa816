-- ===== src/Mq/Set.antt =====
-- Commands over MQTT (`handleSet`, `parseSet`, `relayPatch`, internal/mq/bridge.go). Reading JSON is a
-- parameter; its numbers are whole and not negative.
pub mod Laws
use zigbeemq.Prelude.{
  if◌then◌else◌, Str, codes, str_eq, to_lower, to_upper, trim_space, ℕ, Bool, false, ◌||◌, not,
  Option, none, some, [],
}
use zigbeemq.Zigbee.{Goznp}
use zigbeemq.Errors.{message, Reply, ok, err}
use zigbeemq.Device.{Device, is_sonoff_mini}
use zigbeemq.Radio.{Radio, Link}
use zigbeemq.Hub.{Hub, find_by_name}
use zigbeemq.Hub.Control.{clamp_percent, Done, turn, set_brightness, toggle}
use zigbeemq.Relay.Patch.{RelayPatch, patch_is_empty}
use zigbeemq.Relay.Settings.{apply_relay}
use zigbeemq.Mq.{set_name, received_percent}

-- What `parseSet` looks at in a JSON object: "state" as `fmt.Sprint` prints it, and the numbers of
-- "brightness_percent" and "brightness".
pub record SetBody : Type 0 where
  pub state : Option Str
  pub brightness_percent : Option ℕ
  pub brightness : Option ℕ

-- `json.Unmarshal`.
pub record Unmarshal : Type 0 where
  pub set_body : Str → Reply SetBody
  pub patch : Str → Reply RelayPatch

abbrev upper_state : Option Str → Option Str
upper_state none = none
upper_state (some s) = some (to_upper s)

-- The percentage of `parseSet`: "brightness_percent" goes before "brightness".
abbrev wanted_percent : SetBody → Option ℕ
wanted_percent body = elim body.brightness_percent [
  | some p ↦ some (clamp_percent p)
  | none ↦ elim body.brightness [ some level ↦ some (received_percent level) | none ↦ none ]
]

-- `parseSet`: the state and the percentage that are asked for.
unfoldable pub parse_set : Unmarshal → Str → Reply (Option Str × Option ℕ)
parse_set json payload =
    let s = trim_space payload in
    let u = to_upper s in
    if str_eq s []
    then err (message (codes "empty"))
    else if str_eq u (codes "ON") || str_eq u (codes "OFF") || str_eq u (codes "TOGGLE")
    then ok (some u, none)
    else elim (json.set_body payload) [
      | err e ↦ err e
      | ok body ↦ ok (upper_state body.state, wanted_percent body)
    ]

-- `relayPatch`.
unfoldable relay_patch : Unmarshal → Str → Option RelayPatch
relay_patch json payload = elim (json.patch payload) [
  | err e ↦ none
  | ok p ↦ if patch_is_empty p then none else some p
]

-- The last argument of the last `Turn` of `handleSet`; `EqualFold` is on ASCII letters here.
pub wants_on : Str → Bool
wants_on state =
    str_eq (to_lower state) (codes "on") || str_eq state (codes "1") || str_eq state (codes "true")

abbrev is_on : Option Bool → Bool
is_on none = false
is_on (some b) = b

module _ {World : Type 0} (z : Goznp) (r : Radio World) (link : Link World) (json : Unmarshal) where
  -- The part of `handleSet` for the settings of a relay; errors are only logged.
  pub set_relay : Device → Str → ℕ → Hub → World → Hub × World
  set_relay d payload now h w =
      if is_sonoff_mini d
      then (elim (relay_patch json payload) [
        | none ↦ (h, w)
        | some p ↦ let (h', w', reply) = apply_relay z link d.ieee p now h w in (h', w')
      ])
      else (h, w)

  abbrev done : Done World → Hub × World
  done (h, w, error) = (h, w)

  -- The part for the state.
  pub set_state : Device → Str → ℕ → Hub → World → Hub × World
  set_state d state now h w =
      if str_eq (to_lower state) (codes "toggle")
      then (if is_sonoff_mini d
          then done (toggle z r d.ieee now h w)
          else done (turn z r d.ieee (not (is_on d.on)) now h w))
      else done (turn z r d.ieee (wants_on state) now h w)

  -- The brightness goes before the state.
  pub set_light : Device → Option Str → Option ℕ → ℕ → Hub → World → Hub × World
  set_light d state (some percent) now h w = done (set_brightness z r d.ieee percent now h w)
  set_light d (some state) none now h w = set_state d state now h w
  set_light d none none now h w = (h, w)

  -- `handleSet`.
  pub handle_set : Str → Str → Str → ℕ → Hub → World → Hub × World
  handle_set base topic payload now h w = elim (set_name base topic) [
    | none ↦ (h, w)
    | some name ↦ elim (find_by_name h name) [
      | none ↦ (h, w)
      | some d ↦ elim (parse_set json payload) [
        | err e ↦ (h, w)
        | ok (state, percent) ↦
            let (h', w') = set_relay d payload now h w in set_light d state percent now h' w'
      ]
    ]
  ]
