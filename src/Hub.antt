-- ===== src/Hub.antt =====
-- The hub (internal/hub/hub.go): its state, the table of devices, subscribers and the cache file.
--
-- A method with receiver `*Hub` takes the record `Hub` and returns the new one. The critical sections
-- of one method run one after the other, with no other method between them; the module Concurrent
-- interleaves them. `disk` is the content of
-- the cache file, and `tasks` lists the goroutines that were started and have not run yet.
pub mod Control
pub mod Registry
pub mod Subscribers
pub mod Channel
pub mod Cache
pub mod Motion
pub mod Bind
pub mod Start
use zigbeemq.Prelude.{
  ltb, ◌==◌, if◌then◌else◌, length, any, Str, str_eq, Assoc, StrSet, lookup, insert, adjust, ℕ, ◌+◌,
  Bool, false, ◌||◌, Option, none, some, List, [], ◌∷◌, ◌++◌, map,
}
use zigbeemq.Zigbee.{NetworkInfo}
use zigbeemq.Ieee.{compact_ieee}
use zigbeemq.Known.{plug, relay}
use zigbeemq.Device.{Device, zero_device, is_sonoff_mini}

pub data Event : Type 0 where
  device_event : Device → Event
  devices_event : List Device → Event
  renamed_event : Str → Str → Str → Event
  removed_event : Str → Str → Event
  permit_join_event : ℕ → Option ℕ → Event

-- The channel of one subscriber, of capacity 256.
pub record Subscriber : Type 0 where
  pub id : ℕ
  pub queue : List Event

pub record CacheFile : Type 0 where
  pub devices : Assoc Device
  pub forgotten : StrSet

-- A goroutine that a method of the hub has started.
pub data Task : Type 0 where
  refresh_joined : Str → ℕ → Task
  setup_relay : Str → Task
  enroll : Str → ℕ → Task
  setup_motion : Str → Device → Task
  recover : Str → Task

pub record Hub : Type 0 where
  pub data_dir : Str
  pub open_adapter : Bool
  pub devices : Assoc Device
  pub forgotten : StrSet
  pub motion_ready : StrSet
  pub recovering : StrSet
  pub relay_busy : StrSet
  pub zcl_seq : ℕ
  pub coord_ieee : List ℕ
  pub subs : List Subscriber
  pub next_sub : ℕ
  pub permit_until : Option ℕ
  pub net_info : Option NetworkInfo
  pub net_at : ℕ
  pub disk : Option CacheFile
  pub tasks : List Task

-- `New`, over the content that the cache file has.
unfoldable pub new_hub : Str → Option CacheFile → Hub
new_hub dir file = record {
  data_dir = dir;
  open_adapter = false;
  devices = [];
  forgotten = [];
  motion_ready = [];
  recovering = [];
  relay_busy = [];
  zcl_seq = 0;
  coord_ieee = [];
  subs = [];
  next_sub = 0;
  permit_until = none;
  net_info = none;
  net_at = 0;
  disk = file;
  tasks = [];
}

-- `Device`: the snapshot of one device, or errNotFound as `none`.
unfoldable pub find : Hub → Str → Option Device
find h ieee = lookup (compact_ieee ieee) h.devices

-- `mustDevice`.
unfoldable pub must_device : Hub → Str → Device
unfolding find
must_device h ieee = elim (find h ieee) [ none ↦ zero_device | some d ↦ d ]

unfoldable pub values : Assoc Device → List Device
values [] = []
values ((k, d) ∷ m) = d ∷ values m

-- `Devices` and `cloneLocked`.
unfoldable pub snapshot : Hub → List Device
unfolding values
snapshot h = values h.devices

first_named : Str → Assoc Device → Option Device
first_named name [] = none
first_named name ((k, d) ∷ m) =
    if str_eq d.name name || str_eq d.ieee (compact_ieee name) then some d else first_named name m

-- `DeviceByName`.
unfoldable pub find_by_name : Hub → Str → Option Device
unfolding first_named
find_by_name h name = first_named name h.devices

-- The assignments to the fields of `h.devices[compactIEEE(ieee)]`, if there is such a device.
unfoldable pub modify : Str → (Device → Device) → Hub → Hub
modify ieee f h = record h { devices = adjust (compact_ieee ieee) f h.devices }

unfoldable pub offer : Event → Subscriber → Subscriber
offer ev s = if ltb (length s.queue) 256 then record s { queue = s.queue ++ ev ∷ [] } else s

-- `broadcast`: a full channel drops the event.
unfoldable pub broadcast : Event → Hub → Hub
unfolding offer
broadcast ev h = record h { subs = map (offer ev) h.subs }

-- `h.broadcast(Event{Type: "device", Data: mustDevice(h, ieee)})`.
unfoldable pub broadcast_device : Str → Hub → Hub
unfolding broadcast must_device
broadcast_device ieee h = broadcast (device_event (must_device h ieee)) h

-- `Subscribe`: a channel of its own for each call.
unfoldable pub subscribe : Hub → Hub × ℕ
subscribe h = (
  record h { subs = record { id = h.next_sub; queue = [] } ∷ h.subs; next_sub = h.next_sub + 1 },
  h.next_sub,
)

pub without : ℕ → List Subscriber → List Subscriber
without id [] = []
without id (s ∷ subs) = let rest = without id subs in if s.id == id then rest else s ∷ rest

-- The function that `Subscribe` returns beside the channel.
pub unsubscribe : ℕ → Hub → Hub
unfolding without
unsubscribe id h = record h { subs = without id h.subs }

-- `saveCache`, where the write succeeds.
unfoldable pub save_cache : Hub → Hub
save_cache h =
    if str_eq h.data_dir []
    then h
    else record h { disk = some (record { devices = h.devices; forgotten = h.forgotten }) }

-- What `loadCache` makes of one device of the file.
pub migrate : Device → Device
migrate d = elim d.kind [ plug ↦ if is_sonoff_mini d then record d { kind = relay } else d | _ ↦ d ]

is_migrated : Device → Bool
is_migrated d = elim d.kind [ plug ↦ is_sonoff_mini d | _ ↦ false ]

pub load_devices : Assoc Device → Assoc Device → Assoc Device
unfolding migrate
load_devices [] m = m
load_devices ((ieee, d) ∷ file) m = load_devices file (insert (compact_ieee ieee) (migrate d) m)

pub load_forgotten : StrSet → StrSet → StrSet
load_forgotten [] m = m
load_forgotten ((ieee, u) ∷ file) m = load_forgotten file (insert (compact_ieee ieee) u m)

-- `loadCache`; `none` is a file that cannot be read or decoded.
unfoldable pub load_cache : Hub → Hub
unfolding load_devices load_forgotten is_migrated save_cache
load_cache h = elim h.disk [
  | none ↦ h
  | some file ↦
      let h' = record h {
        devices = load_devices file.devices h.devices;
        forgotten = load_forgotten file.forgotten h.forgotten;
      } in
      if any (λ e. is_migrated e.1) file.devices then save_cache h' else h'
]
