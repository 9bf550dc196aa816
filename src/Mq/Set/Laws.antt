-- ===== src/Mq/Set/Laws.antt =====
-- What a command over MQTT asks for (internal/mq/bridge.go).
use zigbeemq.Prelude.{
  Bool-cases, Option-cases, Str, codes, str_eq, str_eq_iff, to_lower, to_upper, contains,
  trim_space, ℕ, ◌≡◌, refl, inl, inr, true, false, ◌||◌, Option, none, some, [], ◌∷◌, ◌++◌, arith,
}
use zigbeemq.Zigbee.{Goznp}
use zigbeemq.Errors.{Error, ok, err, Reply-cases}
use zigbeemq.Radio.{Radio, Link}
use zigbeemq.Device.{Device, is_sonoff_mini}
use zigbeemq.Hub.{Hub, find_by_name}
use zigbeemq.Hub.Control.{turn}
use zigbeemq.Mq.{slash, set_suffix, topic_prefix, set_name}
use zigbeemq.Mq.Laws.{set_name_of_parts}
use zigbeemq.Mq.Set.{Unmarshal, parse_set, wants_on, set_relay, set_state, set_light, handle_set}

wants_on-to_upper :
    (s : Str)
    → wants_on (to_upper s) ≡ (str_eq (to_upper s) (codes "ON") || str_eq (to_upper s) (codes "1"))
unfolding wants_on to_upper to_lower str_eq
wants_on-to_upper [] = refl
wants_on-to_upper (a ∷ []) = ground arith
wants_on-to_upper (a ∷ b ∷ []) = ground arith
wants_on-to_upper (a ∷ b ∷ c ∷ s) = ground arith

-- The state that a payload asks for is taken for "on" exactly if it is ON or 1, in upper case.
parse_set-wants_on :
    (json : Unmarshal) (payload state : Str) (percent : Option ℕ)
    → parse_set json payload ≡ ok (some state, percent)
    → wants_on state ≡ (str_eq state (codes "ON") || str_eq state (codes "1"))
unfolding parse_set
parse_set-wants_on json payload state percent e =
    let s = to_upper (trim_space payload) in
    elim (Bool-cases
      (str_eq s (codes "ON") || str_eq s (codes "OFF") || str_eq s (codes "TOGGLE"))) [
        | inl word ↦ ground (arith, wants_on-to_upper (trim_space payload))
        | inr longer ↦ elim (Reply-cases (json.set_body payload)) [
          | inr (x, bad) ↦ ground arith
          | inl (body, good) ↦ elim (Option-cases body.state) [
            | inl absent ↦ ground arith
            | inr (t, named) ↦ ground (arith, wants_on-to_upper t)
          ]
        ]
      ]

filled :
    (payload : Str)
    → to_upper (trim_space payload) ≡ codes "ON"
    → str_eq (trim_space payload) [] ≡ false
unfolding to_upper str_eq
filled payload says = elim (Bool-cases (str_eq (trim_space payload) [])) [
  | inr full ↦ full
  | inl empty ↦
      let gone : trim_space payload ≡ [] = (str_eq_iff (trim_space payload) []).0 empty in
      ground (arith, gone, says)
]

module _ {World : Type 0} (z : Goznp) (r : Radio World) (link : Link World) (json : Unmarshal)
    (base : Str) (now : ℕ) (h : Hub) (w : World) where
  -- The payload ON, in any case and with spaces around it, in the topic for the set commands of a
  -- known device that is no ZBMINIR2, does what `Turn` to on does; its name is not empty and has no
  -- slash.
  pub handle_set_on :
      (name payload : Str) (d : Device)
      → str_eq name [] ≡ false
      → contains name slash ≡ false
      → find_by_name h name ≡ some d
      → is_sonoff_mini d ≡ false
      → to_upper (trim_space payload) ≡ codes "ON"
      → handle_set z r link json base (topic_prefix base ++ (name ++ set_suffix)) payload now h w
        ≡ ((turn z r d.ieee true now h w).0, (turn z r d.ieee true now h w).1)
  unfolding handle_set set_relay set_light set_state parse_set wants_on to_lower str_eq
  handle_set_on name payload d full plain found unlike says =
      let topic = topic_prefix base ++ (name ++ set_suffix) in
      let named : set_name base topic ≡ some name = set_name_of_parts base name full plain in
      let parsed : parse_set json payload ≡ ok (some (codes "ON"), none) =
        ground (arith, says, filled payload says) in
      let idle : set_relay z r link json d payload now h w ≡ (h, w) = ground arith in
      let turned : set_state z r link json d (codes "ON") now h w
          ≡ ((turn z r d.ieee true now h w).0, (turn z r d.ieee true now h w).1) =
        refl in
      ground (arith, named, found, parsed, idle, turned)

  -- A message with a state and no brightness, in the topic for the set commands of a known device that
  -- is no ZBMINIR2 and whose name is not empty and has no slash: where the state is not TOGGLE in any
  -- case, it does what `Turn` does, to on exactly if the state, in upper case, is ON or 1; so
  -- "state": true of a JSON object turns the device off.
  pub handle_set_state :
      (name payload state : Str) (d : Device)
      → str_eq name [] ≡ false
      → contains name slash ≡ false
      → find_by_name h name ≡ some d
      → is_sonoff_mini d ≡ false
      → parse_set json payload ≡ ok (some state, none)
      → str_eq (to_lower state) (codes "toggle") ≡ false
      → let done =
          turn z r d.ieee (str_eq state (codes "ON") || str_eq state (codes "1")) now h w in
        handle_set z r link json base (topic_prefix base ++ (name ++ set_suffix)) payload now h w
        ≡ (done.0, done.1)
  unfolding handle_set set_relay set_light set_state
  handle_set_state name payload state d full plain found unlike parsed other =
      let topic = topic_prefix base ++ (name ++ set_suffix) in
      let named : set_name base topic ≡ some name = set_name_of_parts base name full plain in
      let idle : set_relay z r link json d payload now h w ≡ (h, w) = ground arith in
      let says = parse_set-wants_on json payload state none parsed in
      ground (arith, named, found, parsed, idle, other, says)

  -- A message to a topic that names no known device, or with a payload that cannot be read, changes
  -- nothing and calls no radio.
  handle_set_ignored :
      (topic payload : Str)
      → ((name : Str) (d : Device)
          → set_name base topic ≡ some name
          → find_by_name h name ≡ some d
          → ((e : Error) × (parse_set json payload ≡ err e)))
      → handle_set z r link json base topic payload now h w ≡ (h, w)
  unfolding handle_set
  handle_set_ignored topic payload reason = elim (Option-cases (set_name base topic)) [
    | inl unnamed ↦ ground arith
    | inr (name, named) ↦ elim (Option-cases (find_by_name h name)) [
      | inl unknown ↦ ground arith
      | inr (d, found) ↦ ground (arith, (reason name d named found).1)
    ]
  ]
