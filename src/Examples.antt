-- ===== src/Examples.antt =====
-- A radio, a library and a hub to try the theorems on.
mod Presses
mod Control
mod Codecs
mod Table
mod Frames
mod Relays
mod Requests
mod Interleaved
mod Streams
use mathlib.Core.Option
use zigbeemq.Prelude.{
  ltb, ◌==◌, if◌then◌else◌, Str, codes, to_lower, trim_prefix, remove_all, lookup, insert, ℕ, ◌+◌,
  ◌-◌, ◌*◌, ◌/◌, ◌%◌, refl, Bool, true, false, Option, none, some, List, [], ◌∷◌, arith,
}
use zigbeemq.Zigbee.{boolean, uint8, Attribute, Frame, Message, RawDevice, Goznp}
use zigbeemq.Known.{light}
use zigbeemq.Errors.{Error, message, ok, err}
use zigbeemq.Device.{Device, zero_device}
use zigbeemq.Radio.{Radio}
use zigbeemq.Ieee.Laws.{IsAddress}
use zigbeemq.Hub.{Hub, new_hub}
use zigbeemq.Hub.Registry.{Finder}
use zigbeemq.Hub.Registry.Table.{IsValid, IsTable-insert}
use zigbeemq.Ieee.{compact_ieee}
use zigbeemq.Hub.Registry.Refresh.{PrintsAddresses}

hex : ℕ → ℕ
hex n = if ltb (n % 16) 10 then 48 + n % 16 else 87 + n % 16

hex_text : List ℕ → Str
unfolding hex
hex_text [] = []
hex_text (b ∷ bytes) = hex (b / 16) ∷ hex b ∷ hex_text bytes

unhex : ℕ → ℕ
unhex c = if ltb c 58 then c - 48 else c - 87

hex_bytes : Str → Option (List ℕ)
unfolding unhex
hex_bytes [] = some []
hex_bytes (a ∷ []) = none
hex_bytes (a ∷ b ∷ s) = Option.map (λ bytes. (16 * unhex a + unhex b) ∷ bytes) (hex_bytes s)

-- Attributes of one byte: a number, a type, a value.
attributes : List ℕ → Option (List Attribute)
attributes [] = some []
attributes (a ∷ b ∷ t ∷ v ∷ bytes) =
    let value = if t == 16 then boolean (v == 1) else uint8 v in
    Option.map (λ attrs. record { id = a + 256 * b; value = value } ∷ attrs) (attributes bytes)
attributes _ = none

frame_of : List ℕ → Option Frame
frame_of (control ∷ seq ∷ command ∷ bytes) =
    some (record { frame_type = control % 4; command_id = command; payload = bytes })
frame_of _ = none

pub goznp : Goznp
unfolding hex_text hex_bytes attributes frame_of
goznp = record {
  cluster_on_off = 6;
  cluster_level_control = 8;
  cluster_multistate_input = 18;
  cluster_occupancy_sensing = 1030;
  cluster_ias_zone = 1280;
  cluster_temp_measurement = 1026;
  cluster_humidity_meas = 1029;
  attr_on_off = 0;
  attr_start_up_on_off = 16387;
  attr_multistate_present_value = 85;
  attr_occupancy_value = 0;
  frame_type_global = 0;
  frame_type_cluster = 1;
  cmd_report_attributes = 10;
  cmd_read_attributes_response = 1;
  cmd_write_attributes_response = 4;
  cmd_configure_reporting_resp = 7;
  cmd_default_response = 11;
  cmd_on_off_off = 0;
  cmd_on_off_on = 1;
  cmd_on_off_toggle = 2;
  cmd_ias_zone_enroll_request = 1;
  cmd_ias_zone_status_change = 0;
  ias_zone_alarm1 = 1;
  ias_zone_alarm2 = 2;
  status_success = 0;
  cluster_string = λ id. codes "cluster";
  format_ieee_addr = hex_text;
  parse_ieee_addr = hex_bytes;
  parse_ieee_error = λ s. codes "bad address";
  parse_frame = frame_of;
  parse_report_attributes_payload = attributes;
}

hex_text-IsAddress : (addr : List ℕ) → IsAddress (hex_text addr)
unfolding hex_text hex
hex_text-IsAddress [] = tt
hex_text-IsAddress (b ∷ bytes) = (ground arith, (ground arith, hex_text-IsAddress bytes))

pub goznp_prints : PrintsAddresses goznp
unfolding goznp
goznp_prints = hex_text-IsAddress

unfoldable pub find_endpoint : Finder
find_endpoint result cluster = none

abbrev addr : List ℕ
addr = 0 ∷ 18 ∷ 75 ∷ 0 ∷ 1 ∷ 2 ∷ 3 ∷ 4 ∷ []

abbrev pub raw_lamp : RawDevice
raw_lamp = record { ieee_addr = addr; nwk_addr = 4660 }

abbrev pub key : Str
key = codes "00124b0001020304"

-- A coordinator that lists the lamp and for which each call succeeds, but for those in `broken`.
unfoldable answer : Bool → ℕ → ℕ × Option Error
answer broken w = (w + 1, if broken then some (message (codes "no_ack")) else none)

pub radio : Bool → Radio ℕ
unfolding answer
radio broken = record {
  get_devices = λ w. (w + 1, ok (raw_lamp ∷ []));
  turn_on = λ w nwk ep. answer broken w;
  turn_off = λ w nwk ep. answer broken w;
  toggle = λ w nwk ep. answer broken w;
  set_brightness = λ w nwk ep level time. answer broken w;
  get_on_off_state = λ w nwk ep. (w + 1, ok true);
  get_brightness = λ w nwk ep. (w + 1, ok 127);
  read_attributes = λ w nwk ep cluster id. (w + 1, ok []);
  get_ias_zone_status = λ w nwk ep. (w + 1, ok (false, false));
  interview_device = λ w nwk a. (w + 1, err (message (codes "timeout")));
  remove_device = λ w nwk a. (w + 1, none);
  force_remove_device = λ w a. (w + 1, none);
  permit_join = λ w seconds. (w + 1, none);
  bind = λ w a nwk ep cluster coord. answer broken w;
  write_cie_address = λ w nwk ep coord. answer broken w;
  configure_occupancy = λ w nwk ep. answer broken w;
  enroll_ias_zone = λ w nwk ep zone. answer broken w;
  get_network_info = λ w. (
    w + 1,
    ok (record { ieee_addr = addr; short_addr = 0; pan_id = 1; channel = 11; num_assoc = 1 }),
  );
  get_coordinator_ieee = λ w. (w + 1, ok addr);
}

abbrev pub lamp : Device
lamp = record zero_device {
  ieee = key;
  nwk_addr = 4660;
  name = codes "lamp";
  kind = light;
  endpoint = 1;
  reachable = true;
  has_on_off = true;
}

abbrev pub one_device : Device → Hub
one_device d = record (new_hub (codes "/data") none) { devices = (key, d) ∷ [] }

pub one_device-IsValid : IsValid (one_device lamp)
unfolding lookup insert new_hub compact_ieee to_lower trim_prefix remove_all
one_device-IsValid =
    IsTable-insert key lamp [] [] refl refl refl (record { keyed = λ k. tt; apart = λ k. refl })

-- A report of the lamp's switch.
abbrev pub report : Message
report = record {
  group_id = 0;
  cluster_id = 6;
  src_addr = 4660;
  src_endpoint = 1;
  dst_endpoint = 1;
  was_broadcast = false;
  link_quality = 120;
  security_use = false;
  timestamp = 70000;
  trans_seq_num = 9;
  body = 24 ∷ 5 ∷ 10 ∷ 0 ∷ 0 ∷ 24 ∷ 1 ∷ [];
}
