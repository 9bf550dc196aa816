-- ===== src/Incoming/Action.antt =====
-- Which gesture a frame of a switch reports (internal/hub/incoming.go).
use zigbeemq.Prelude.{
  ltb, leb, ◌==◌, if◌then◌else◌, Str, codes, ℕ, ◌%◌, ◌^◌, Bool, ◌&&◌, not, Option, none, some, List,
  [], ◌∷◌,
}
use zigbeemq.Zigbee.{
  Value, boolean, uint8, uint16, uint32, uint64, int, bit, Attribute, Frame, Goznp,
}

-- The texts that the source uses for actions; "" is the absence of one.
pub data Action : Type 0 where
  single double triple quadruple many hold release turn_on toggle : Action

unfoldable pub action_name : Action → Str
action_name single = codes "single"
action_name double = codes "double"
action_name triple = codes "triple"
action_name quadruple = codes "quadruple"
action_name many = codes "many"
action_name hold = codes "hold"
action_name release = codes "release"
action_name turn_on = codes "on"
action_name toggle = codes "toggle"

-- `toUint`: signed integers but `int` give 0, and so does a negative `int`.
to_uint : Value → ℕ
to_uint (uint8 x) = x
to_uint (uint16 x) = x
to_uint (uint32 x) = x
to_uint (uint64 x) = x
to_uint (int x) = if ltb x (2 ^ 63) then x else 0
to_uint (boolean b) = bit b
to_uint _ = 0

-- `clickAction`.
unfoldable pub click_action : ℕ → Action
click_action count =
    if count == 1
    then single
    else if count == 2
    then double
    else if count == 3
    then triple
    else if count == 4
    then quadruple
    else many

-- The `switch` on the present value in `decodeAction`.
value_action : ℕ → Option Action
value_action n =
    if n == 0
    then some hold
    else if n == 1
    then some single
    else if n == 2
    then some double
    else if n == 3
    then some triple
    else if n == 255
    then some release
    else if leb 4 n
    then some many
    else none

module _ (z : Goznp) where
  -- The loop of `decodeAction` over the attributes of a report.
  multistate_action : List Attribute → Option Action
  multistate_action [] = none
  multistate_action (a ∷ attrs) =
      let rest = multistate_action attrs in
      if a.id == z.attr_multistate_present_value
      then elim (value_action (to_uint a.value)) [ some action ↦ some action | none ↦ rest ]
      else rest

  on_off_action : ℕ → Option Action
  on_off_action command =
      if command == z.cmd_on_off_off
      then some single
      else if command == z.cmd_on_off_on
      then some turn_on
      else if command == z.cmd_on_off_toggle
      then some toggle
      else none

  multistate_report : Frame → ℕ → Option Action
  multistate_report frame cluster =
      if cluster == z.cluster_multistate_input && frame.command_id == z.cmd_report_attributes
      then elim (z.parse_report_attributes_payload frame.payload) [
        | none ↦ none
        | some attrs ↦ multistate_action attrs
      ]
      else none

  -- `decodeAction`, which does not use the device.
  unfoldable pub decode_action : Frame → ℕ → Option Action
  unfolding multistate_action on_off_action multistate_report value_action to_uint
  decode_action frame cluster =
      if cluster == z.cluster_on_off && frame.frame_type == z.frame_type_cluster
      then elim (on_off_action frame.command_id) [
        | some action ↦ some action
        | none ↦ multistate_report frame cluster
      ]
      else multistate_report frame cluster

  click_value : List Attribute → Option ℕ
  click_value [] = none
  click_value (a ∷ attrs) =
      if a.id == 0x8000 then some (to_uint a.value % 256) else click_value attrs

  -- `xiaomiClickCount`.
  unfoldable pub xiaomi_click_count : Frame → Option ℕ
  unfolding click_value to_uint
  xiaomi_click_count frame = elim (z.parse_report_attributes_payload frame.payload) [
    | none ↦ none
    | some attrs ↦ click_value attrs
  ]

  abbrev is_on : Value → Bool
  is_on (boolean b) = b
  is_on v = not (to_uint v == 0)

  -- The value of the last report of the attribute OnOff, in `handleXiaomiOnOff` and
  -- `applyLightReport`.
  last_on_off : Option Bool → List Attribute → Option Bool
  last_on_off found [] = found
  last_on_off found (a ∷ attrs) =
      last_on_off (if a.id == z.attr_on_off then some (is_on a.value) else found) attrs

  -- The reading of the frame in `handleXiaomiOnOff` and `applyLightReport`.
  unfoldable pub reported_on_off : Frame → Option Bool
  unfolding last_on_off to_uint
  reported_on_off frame = elim (z.parse_report_attributes_payload frame.payload) [
    | none ↦ none
    | some attrs ↦ last_on_off none attrs
  ]
