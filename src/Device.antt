-- ===== src/Device.antt =====
-- The records that the hub keeps and sends (internal/hub/hub.go, internal/hub/relay.go).
use zigbeemq.Prelude.{
  if◌then◌else◌, any, Str, str_eq, ℕ, ◌/◌, Bool, true, false, Option, none, some, List, [], ◌∷◌,
}
use zigbeemq.Known.{Kind, empty, light, plug, motion, is_mini_model}

-- A time of type float64 in seconds, in units of 2^-53 seconds: every float64 from 0.5 up to 4096 is
-- such a number. Negative numbers and 0 are given by 0.
abbrev pub Seconds : Type 0
Seconds = ℕ

pub record Relay : Type 0 where
  pub power_on_behavior : Str
  pub network_indicator : Option Bool
  pub turbo_mode : Option Bool
  pub delayed_power_on_state : Option Bool
  pub delayed_power_on_time : Option Seconds
  pub detach_relay_mode : Option Bool
  pub external_trigger_mode : Str

pub record Endpoint : Type 0 where
  pub id : ℕ
  pub inputs : List Str
  pub outputs : List Str

-- Times are in nanoseconds since 1970; `last_seen_ms` is in milliseconds.
pub record Device : Type 0 where
  pub ieee : Str
  pub nwk_addr : ℕ
  pub name : Str
  pub kind : Kind
  pub manufacturer : Str
  pub model : Str
  pub endpoint : ℕ
  pub reachable : Bool
  pub on : Option Bool
  pub brightness : Option ℕ
  pub occupancy : Option Bool
  pub last_click : Str
  pub click_seq : ℕ
  pub last_seen : Option ℕ
  pub last_seen_ms : ℕ
  pub error : Str
  pub has_on_off : Bool
  pub has_level : Bool
  pub has_occupancy : Bool
  pub clusters : List Str
  pub endpoints : List Endpoint
  pub relay : Option Relay
  pub user_label : Bool
  pub new : Bool
  pub archived : Bool

-- `Device{}`, the zero value.
abbrev pub zero_device : Device
zero_device = record {
  ieee = [];
  nwk_addr = 0;
  name = [];
  kind = empty;
  manufacturer = [];
  model = [];
  endpoint = 0;
  reachable = false;
  on = none;
  brightness = none;
  occupancy = none;
  last_click = [];
  click_seq = 0;
  last_seen = none;
  last_seen_ms = 0;
  error = [];
  has_on_off = false;
  has_level = false;
  has_occupancy = false;
  clusters = [];
  endpoints = [];
  relay = none;
  user_label = false;
  new = false;
  archived = false;
}

abbrev pub zero_relay : Relay
zero_relay = record {
  power_on_behavior = [];
  network_indicator = none;
  turbo_mode = none;
  delayed_power_on_state = none;
  delayed_power_on_time = none;
  detach_relay_mode = none;
  external_trigger_mode = [];
}

-- `IsSonoffMini`.
abbrev pub is_sonoff_mini : Device → Bool
is_sonoff_mini d = is_mini_model d.model

-- The four assignments that mark a device as heard of at time `now`, in nanoseconds.
abbrev pub seen : ℕ → Device → Device
seen now d = record d {
  reachable = true;
  error = [];
  last_seen = some now;
  last_seen_ms = now / 1000000;
}

-- `endpointWith`.
unfoldable pub endpoint_with : List Endpoint → Str → ℕ
endpoint_with [] cluster = 0
endpoint_with (ep ∷ eps) cluster =
    if any (λ n. str_eq n cluster) ep.inputs then ep.id else endpoint_with eps cluster

-- Tests on the kind of a device.
abbrev pub is_light_like : Kind → Bool
is_light_like light = true
is_light_like plug = true
is_light_like Kind.relay = true
is_light_like _ = false

abbrev pub is_light : Kind → Bool
is_light light = true
is_light _ = false

abbrev pub is_motion : Kind → Bool
is_motion motion = true
is_motion _ = false
