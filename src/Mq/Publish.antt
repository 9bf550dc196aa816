-- ===== src/Mq/Publish.antt =====
-- What the MQTT bridge sends (`publishDevice`, `unpublish`, `publishRaw` and the loop of `Run`,
-- internal/mq/bridge.go), as the list of its calls of `publishRaw`, oldest first; Mq/Run makes the calls.
pub mod Laws
pub mod Rename
pub mod Values
use Prim.Native.String.{String}
use zigbeemq.Prelude.{
  if◌then◌else◌, Str, codes, str_eq, trim_space, ℕ, Bool, true, false, Option, none, some, List, [],
  ◌∷◌, ◌++◌,
}
use zigbeemq.Device.{Seconds, Relay, Device}
use zigbeemq.Hub.{
  Event, device_event, devices_event, renamed_event, removed_event, permit_join_event,
}
use zigbeemq.Mq.{slash, published_level}

-- The JSON values of a message.
pub data Json : Type 0 where
  text : Str → Json
  number : ℕ → Json
  flag : Bool → Json
  duration : Seconds → Json

abbrev pub Entries : Type 0
Entries = List (Str × Json)

-- A payload: a JSON object, plain text, or no bytes.
pub data Payload : Type 0 where
  object : Entries → Payload
  plain : Str → Payload
  nothing : Payload

pub record Publication : Type 0 where
  pub topic : Str
  pub payload : Payload
  pub retain : Bool

abbrev publication : Str → Payload → Bool → Publication
publication topic payload retain = record { topic = topic; payload = payload; retain = retain }

-- `b.cfg.Base+"/"+name`.
abbrev pub device_topic : Str → Str → Str
device_topic base name = base ++ (slash ++ name)

abbrev pub entry : {A : Type 0} → String → (A → Json) → Option A → Entries
entry key f none = []
entry key f (some a) = (codes key, f a) ∷ []

abbrev pub full_text : Str → Option Str
full_text [] = none
full_text (c ∷ s) = some (c ∷ s)

abbrev pub on_text : Bool → Json
on_text true = text (codes "ON")
on_text false = text (codes "OFF")

abbrev pub relay_entries : Option Relay → Entries
relay_entries none = []
relay_entries (some r) =
    entry "power_on_behavior" text (full_text r.power_on_behavior)
    ++ (entry "network_indicator" flag r.network_indicator
        ++ (entry "turbo_mode" flag r.turbo_mode
            ++ (entry "delayed_power_on_state" flag r.delayed_power_on_state
                ++ (entry "delayed_power_on_time" duration r.delayed_power_on_time
                    ++ (entry "detach_relay_mode" flag r.detach_relay_mode
                        ++ entry "external_trigger_mode" text
                            (full_text r.external_trigger_mode))))))

-- The map `body` of `publishDevice`, with the value of "action".
unfoldable pub state_entries : Option Str → Device → Entries
state_entries action d =
    entry "state" on_text d.on
    ++ (entry "brightness" (λ p. number (published_level p)) d.brightness
        ++ (entry "action" text action
            ++ (entry "occupancy" flag d.occupancy ++ relay_entries d.relay)))

-- The name under which a device is published.
abbrev pub shown_name : Device → Str
shown_name d = if str_eq d.name [] then d.ieee else d.name

abbrev pub click_publication : Str → Str → List Publication
click_publication topic [] = []
click_publication topic (c ∷ s) = publication (topic ++ codes "/action") (plain (c ∷ s)) false ∷ []

-- The publications of a body that is not empty, with the click.
pub state_publications : Str → Str → Entries → List Publication
state_publications topic click [] = []
state_publications topic click (e ∷ entries) =
    publication topic (object (e ∷ entries)) true ∷ click_publication topic click

-- `publishDevice`, up to its goroutine.
pub publish_device : Str → Device → List Publication
unfolding state_publications
publish_device base d =
    state_publications (device_topic base (shown_name d)) d.last_click
      (state_entries (full_text d.last_click) d)

-- The goroutine of `publishDevice`, for a device with a click.
pub reset_action : Str → Device → List Publication
reset_action base d =
    publication (device_topic base (shown_name d)) (object (state_entries (some []) d)) true ∷ []

abbrev pub clear_name : Str → Str → List Publication
clear_name base [] = []
clear_name base (c ∷ s) = publication (device_topic base (c ∷ s)) nothing true ∷ []

-- `unpublish`.
pub unpublish : Str → Str → List Publication
unpublish base name = clear_name base (trim_space name)

unfoldable pub publish_devices : Str → List Device → List Publication
publish_devices base [] = []
publish_devices base (d ∷ ds) = publish_device base d ++ publish_devices base ds

-- One round of the loop of `Run`.
pub publish_event : Str → Event → List Publication
publish_event base (device_event d) = publish_device base d
publish_event base (devices_event ds) = publish_devices base ds
publish_event base (renamed_event ieee from to) = unpublish base from
publish_event base (removed_event ieee name) = unpublish base name ++ unpublish base ieee
publish_event base (permit_join_event n until) = []

-- What `OnConnect` and `Run` publish of the bridge itself.
abbrev pub bridge_state : Str → String → Publication
bridge_state base state =
    publication (base ++ codes "/bridge/state") (object ((codes "state", text (codes state)) ∷ []))
      true
