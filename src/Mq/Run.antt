-- ===== src/Mq/Run.antt =====
-- The life of the MQTT bridge (`New`, `Run`, `onSet`, `publishRaw`, internal/mq/bridge.go). The client
-- of the broker is a library: it tells when it is connected and when it has lost the connection.
pub mod Sending
pub mod View
pub mod Laws
pub mod Outage
use zigbeemq.Prelude.{
  if◌then◌else◌, Str, codes, str_eq, Assoc, ℕ, zero, suc, Bool, true, false, Option, none, some,
  List, [], ◌∷◌, ◌++◌,
}
use zigbeemq.Device.{Device}
use zigbeemq.Mq.Publish.{Publication, publish_device, reset_action, publish_event, bridge_state}
use zigbeemq.Hub.{Event, Hub, snapshot, broadcast, subscribe, unsubscribe}
use zigbeemq.Hub.Channel.{receive}
use zigbeemq.Errors.{Error, message, error_text}

pub record Config : Type 0 where
  pub broker : Str
  pub base : Str
  pub client_id : Str

abbrev or_default : Str → Str → Str
or_default s default = if str_eq s [] then default else s

-- `New`.
unfoldable pub new_config : Config → Config
new_config cfg = record cfg {
  base = or_default cfg.base (codes "zigbee2mqtt");
  client_id = or_default cfg.client_id (codes "zigbeemq");
}

-- The client: whether it is connected, and what it has sent, oldest first.
pub record Client : Type 0 where
  pub connected : Bool
  pub sent : List Publication

-- `publishRaw`: without a connection, nothing is sent or kept for later.
pub publish_raw : Publication → Client → Client
publish_raw p c = if c.connected then record c { sent = c.sent ++ p ∷ [] } else c

pub publish_each : List Publication → Client → Client
unfolding publish_raw
publish_each [] c = c
publish_each (p ∷ ps) c = publish_each ps (publish_raw p c)

-- A bridge that runs: the hub, the client, and for each `OnConnect` that has asked the hub for its
-- devices those that it has yet to publish.
pub record Session : Type 0 where
  pub hub : Hub
  pub client : Client
  pub lists : List (List Device)

-- The next device of one of them.
pub next_device : ℕ → List (List Device) → Option Device × List (List Device)
next_device n [] = (none, [])
next_device zero ([] ∷ lists) = (none, [] ∷ lists)
next_device zero ((d ∷ ds) ∷ lists) = (some d, ds ∷ lists)
next_device (suc n) (ds ∷ lists) = let (found, rest) = next_device n lists in (found, ds ∷ rest)

-- What happens to it: another part of the program changes the table or broadcasts an event, `select`
-- finds an event in the channel, the wait after a click of a device ends, the client connects, an
-- `OnConnect` asks for the devices or publishes the next one, or the client loses the connection.
pub data Incident : Type 0 where
  edited : Assoc Device → Incident
  announced : Event → Incident
  arrives : Incident
  waited : Device → Incident
  connects : Incident
  asks_devices : Incident
  sends : ℕ → Incident
  loses : Incident

abbrev sending : List Publication → Session → Session
sending ps s = record s { client = publish_each ps s.client }

-- One of them.
pub incident : Str → ℕ → Incident → Session → Session
unfolding next_device
incident base id (edited m) s = record s { hub = record s.hub { devices = m } }
incident base id (announced ev) s = record s { hub = broadcast ev s.hub }
incident base id arrives s =
    let (found, h) = receive id s.hub in
    elim found [ none ↦ s | some ev ↦ sending (publish_event base ev) (record s { hub = h }) ]
incident base id (waited d) s = sending (reset_action base d) s
incident base id connects s =
    sending (bridge_state base "online" ∷ [])
      (record s { client = record s.client { connected = true } })
incident base id asks_devices s = record s { lists = snapshot s.hub ∷ s.lists }
incident base id (sends n) s =
    let (found, rest) = next_device n s.lists in
    elim found [ none ↦ s | some d ↦ sending (publish_device base d) (record s { lists = rest }) ]
incident base id loses s = record s { client = record s.client { connected = false } }

unfoldable pub incidents : Str → ℕ → List Incident → Session → Session
unfolding incident
incidents base id [] s = s
incidents base id (x ∷ xs) s = incidents base id xs (incident base id x s)

-- `Run`: `refused` is the error of the first connection, `cancelled` the error of the context when it
-- ends.
unfoldable pub run : Str → Option Error → Error → List Incident → Hub → Client → Session × Error
unfolding incidents
run base (some e) cancelled xs h c =
    (record { hub = h; client = c; lists = [] }, message (codes "mqtt connect: " ++ error_text e))
run base none cancelled xs h c =
    let (h', id) = subscribe h in
    let s = incidents base id xs (record { hub = h'; client = c; lists = [] }) in
    let c' = publish_raw (bridge_state base "offline") s.client in
    (record s { hub = unsubscribe id s.hub; client = record c' { connected = false } }, cancelled)
