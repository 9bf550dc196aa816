-- ===== src/Zigbee.antt =====
-- What the program takes from the library goznp (packages adapter, zcl, znp), which is not part of
-- the repository: plain data types for its values, and records of parameters for its constants and
-- functions.
use zigbeemq.Prelude.{Str, ℕ, Bool, true, false, Option, List}

-- A Go value of type `any`, as an attribute holds it. A signed integer is given by its two's
-- complement bit pattern, so `int8 255` is -1; `int` has 64 bits.
pub data Value : Type 0 where
  boolean : Bool → Value
  uint8 uint16 uint32 uint64 int8 int16 int : ℕ → Value
  other : Value

-- The Boolean value of a bit.
abbrev pub bit : Bool → ℕ
bit true = 1
bit false = 0

-- A `zcl.ReportedAttribute`.
pub record Attribute : Type 0 where
  pub id : ℕ
  pub value : Value

-- A `zcl.ReadAttributeResult`.
pub record ReadResult : Type 0 where
  pub id : ℕ
  pub status : ℕ
  pub value : Value

-- A `zcl.Frame`, without the fields that the program never looks at.
pub record Frame : Type 0 where
  pub frame_type : ℕ
  pub command_id : ℕ
  pub payload : List ℕ

-- A `znp.IncomingMessage`.
pub record Message : Type 0 where
  pub group_id : ℕ
  pub cluster_id : ℕ
  pub src_addr : ℕ
  pub src_endpoint : ℕ
  pub dst_endpoint : ℕ
  pub was_broadcast : Bool
  pub link_quality : ℕ
  pub security_use : Bool
  pub timestamp : ℕ
  pub trans_seq_num : ℕ
  pub body : List ℕ

-- A `zcl.WriteAttributeResult`.
pub record WriteResult : Type 0 where
  pub id : ℕ
  pub status : ℕ

-- The ZCL frames that the hub has the library build: a request for attributes, one that writes
-- attributes, one that has OnOff reported, and a payload of eWeLink's protocol. The first number of
-- the first two is the code of a manufacturer, or 0 for none.
pub data Outgoing : Type 0 where
  read_request : ℕ → List ℕ → Outgoing
  write_request : ℕ → List (ℕ × Value) → Outgoing
  report_request : Outgoing
  ewelink_command : List ℕ → Outgoing

-- An `adapter.NetworkInfo`.
pub record NetworkInfo : Type 0 where
  pub ieee_addr : List ℕ
  pub short_addr : ℕ
  pub pan_id : ℕ
  pub channel : ℕ
  pub num_assoc : ℕ

-- One endpoint of an `adapter.InterviewResult`.
pub record RawEndpoint : Type 0 where
  pub endpoint : ℕ
  pub in_clusters : List ℕ
  pub out_clusters : List ℕ

pub record InterviewResult : Type 0 where
  pub manufacturer : Str
  pub model : Str
  pub endpoints : List RawEndpoint

-- An entry of the coordinator's table; the address is an array of eight bytes.
pub record RawDevice : Type 0 where
  pub ieee_addr : List ℕ
  pub nwk_addr : ℕ

-- The constants and pure functions of goznp.
pub record Goznp : Type 0 where
  pub cluster_on_off : ℕ
  pub cluster_level_control : ℕ
  pub cluster_multistate_input : ℕ
  pub cluster_occupancy_sensing : ℕ
  pub cluster_ias_zone : ℕ
  pub cluster_temp_measurement : ℕ
  pub cluster_humidity_meas : ℕ
  pub attr_on_off : ℕ
  pub attr_start_up_on_off : ℕ
  pub attr_multistate_present_value : ℕ
  pub attr_occupancy_value : ℕ
  pub frame_type_global : ℕ
  pub frame_type_cluster : ℕ
  pub cmd_report_attributes : ℕ
  pub cmd_read_attributes_response : ℕ
  pub cmd_write_attributes_response : ℕ
  pub cmd_configure_reporting_resp : ℕ
  pub cmd_default_response : ℕ
  pub cmd_on_off_off : ℕ
  pub cmd_on_off_on : ℕ
  pub cmd_on_off_toggle : ℕ
  pub cmd_ias_zone_enroll_request : ℕ
  pub cmd_ias_zone_status_change : ℕ
  pub ias_zone_alarm1 : ℕ
  pub ias_zone_alarm2 : ℕ
  pub status_success : ℕ
  pub cluster_string : ℕ → Str
  pub format_ieee_addr : List ℕ → Str
  pub parse_ieee_addr : Str → Option (List ℕ)
  pub parse_ieee_error : Str → Str  -- the text of the error of `ParseIEEEAddr`
  pub parse_frame : List ℕ → Option Frame
  pub parse_report_attributes_payload : List ℕ → Option (List Attribute)

-- An `adapter.DeviceEvent`; `device` is nil for a device that left.
pub record DeviceEvent : Type 0 where
  pub joined : Bool
  pub ieee_addr : List ℕ
  pub device : Option RawDevice
