-- ===== src/Examples/Streams.antt =====
-- The stream of events, the life of the bridge, and the settings.
use mathlib.Core.Option
use zigbeemq.Prelude.{
  is_some, All, Str, codes, str_eq, ◌+◌, ◌<◌, ◌≡◌, refl, true, false, not, Option, none, some, List,
  [], ◌∷◌, ◌++◌, arith,
}
use zigbeemq.Hub.{device_event, removed_event, Hub, new_hub, snapshot, broadcast, subscribe}
use zigbeemq.Hub.Subscribers.{broadcasts}
use zigbeemq.Web.Stream.{Round, stream, events}
use zigbeemq.Web.Stream.Laws.{announced_events, fifo, events_private, sent_by, events_complete}
use zigbeemq.Mq.Publish.{object, device_topic, state_entries, shown_name}
use zigbeemq.Mq.Publish.Laws.{retained, shows, after_event}
use zigbeemq.Hub.Channel.{receive}
use zigbeemq.Mq.Publish.Values.{value_of, state_json, level_json}
use zigbeemq.Mq.Run.{Client, Session, Incident, incidents}
use zigbeemq.Mq.Run.View.{see_all}
use zigbeemq.Mq.Run.Outage.{shown_state, reconnects, outage_repaired}
use zigbeemq.Program.{Flags, settings, bridge_of}
use zigbeemq.Program.Laws.{bridge_off}
use zigbeemq.Device.{Device}
use zigbeemq.Examples.{key, lamp, one_device}

-- A hub with another subscriber.
abbrev watched : Hub
watched = (subscribe (one_device lamp)).0

abbrev some_rounds : List Round
some_rounds =
    Round.announced (device_event lamp)
    ∷ Round.ticks
    ∷ Round.announced (removed_event key lamp.name)
    ∷ Round.arrives
    ∷ []

watched_older : All (λ s. s.id < watched.next_sub) watched.subs
unfolding subscribe new_hub
watched_older = (omega arith, tt)

events_private_example : events true some_rounds watched ≡ (
  stream (fifo some_rounds []).0,
  broadcasts (announced_events some_rounds) (record watched { next_sub = watched.next_sub + 1 }),
)
events_private_example = events_private some_rounds watched watched_older

events_complete_example :
    sent_by (events true some_rounds watched).0 ++ (fifo some_rounds []).1
    ≡ announced_events some_rounds
events_complete_example =
    events_complete some_rounds watched watched_older (unfold announced_events in omega arith)

abbrev lamp_on : Device
lamp_on = record lamp { on = some true }

abbrev base : Str
base = codes "zigbee2mqtt"

abbrev offline_client : Client
offline_client = record { connected = false; sent = [] }

-- The connection is lost while the lamp changes.
abbrev outage : List Incident
outage =
    Incident.connects
    ∷ Incident.asks_devices
    ∷ Incident.sends 0
    ∷ Incident.loses
    ∷ Incident.edited ((key, lamp_on) ∷ [])
    ∷ Incident.announced (device_event lamp_on)
    ∷ Incident.arrives
    ∷ []

abbrev session : Session
session = record { hub = watched; client = offline_client; lists = [] }

outage_repaired_example :
    (retained
        (device_topic base (shown_name lamp_on))
        none
        (incidents base 0
          (reconnects ([] ++ lamp_on ∷ []))
          (incidents base 0 outage session)).client.sent
      ≡ some (object (shown_state lamp_on)))
    × (value_of (codes "state") (shown_state lamp_on) ≡ Option.map state_json lamp_on.on)
    × (value_of (codes "brightness") (shown_state lamp_on)
        ≡ Option.map level_json lamp_on.brightness)
outage_repaired_example =
    outage_repaired base 0 outage session [] [] lamp_on none
      (unfold incidents snapshot broadcast receive subscribe new_hub in refl)
      (unfold state_entries in omega arith) tt

-- An `OnConnect` has asked for the devices when the lamp changes; what it found is published last, and
-- the broker retains the state that the lamp had before.
abbrev overtaken : List Incident
overtaken =
    Incident.connects
    ∷ Incident.asks_devices
    ∷ Incident.edited ((key, lamp_on) ∷ [])
    ∷ Incident.announced (device_event lamp_on)
    ∷ Incident.arrives
    ∷ Incident.sends 0
    ∷ []

abbrev lamp_off : Device
lamp_off = record lamp { on = some false }

state_overtaken :
    (see_all lamp.name overtaken (record {
      waiting = [];
      online = false;
      table = (key, lamp_off) ∷ [];
      lists = [];
      shown = none;
    })).shown
    ≡ some (object (shown_state lamp_off))
unfolding see_all shows after_event state_entries str_eq
state_overtaken = refl

abbrev no_flags : Flags
no_flags = record {
  port_flag = none;
  listen_flag = none;
  data_flag = none;
  mqtt_flag = none;
  mqtt_base_flag = none;
}

bridge_off_example :
    not (is_some (bridge_of (settings (λ key. []) no_flags))) ≡ str_eq [] (codes "-")
bridge_off_example = bridge_off (λ key. []) no_flags
