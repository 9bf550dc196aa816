-- ===== src/Hub/Registry.antt =====
-- How devices enter, change and leave the hub's table (internal/hub/hub.go, and
-- `maybeSetupMotion` of internal/hub/incoming.go up to its goroutine).
pub mod Table
pub mod Interview
pub mod Refresh
pub mod Steps
pub mod Commands
pub mod Reach
pub mod Join
pub mod Kept
pub mod Membership
pub mod Canonical
use zigbeemq.Prelude.{
  ◌==◌, if◌then◌else◌, is_some, Str, codes, str_eq, Assoc, StrSet, lookup, insert, delete, member,
  ℕ, Bool, true, false, ◌&&◌, ◌||◌, not, Option, none, some, List, [], ◌∷◌, ◌++◌,
}
use zigbeemq.Zigbee.{InterviewResult, RawDevice, Goznp, DeviceEvent}
use zigbeemq.Radio.{Radio}
use zigbeemq.Errors.{Error, not_found, message, ok, err, error_text}
use zigbeemq.Ieee.{compact_ieee, is_zero_ieee, format_ieee, parse_ieee}
use zigbeemq.Known.{Kind, empty, unknown, valid_kind}
use zigbeemq.Device.{Device, zero_device, seen}
use zigbeemq.Hub.{
  devices_event, renamed_event, removed_event, refresh_joined, setup_motion, Hub, find, snapshot,
  modify, broadcast, broadcast_device, save_cache,
}

abbrev pub is_empty : Kind → Bool
is_empty empty = true
is_empty _ = false

abbrev pub or_else {ℓ} : {A : Type ℓ} → Option A → A → A
or_else none a = a
or_else (some b) a = b

-- What `Update` does to the device: "" and nil leave a field as it is.
unfoldable pub relabel : Str → Kind → Option Bool → Device → Device
relabel name kind archived d =
    let named = not (str_eq name []) in
    let kinded = not (is_empty kind) in
    record d {
      name = if named then name else d.name;
      kind = if kinded then kind else d.kind;
      user_label = if named || kinded then true else d.user_label;
      archived = or_else archived d.archived;
      new = if named || kinded then false else d.new;
    }

-- `Update`.
unfoldable pub update : Str → Str → Kind → Option Bool → Hub → Hub × Option Error
unfolding relabel
update ieee name kind archived h =
    if not (is_empty kind) && not (valid_kind kind)
    then (h, some (message (codes "unknown kind")))
    else elim (find h ieee) [
      | none ↦ (h, some not_found)
      | some d ↦
          let h' = save_cache (modify ieee (relabel name kind archived) h) in
          let new_name = (relabel name kind archived d).name in
          let h'' =
            if not (str_eq name []) && not (str_eq d.name []) && not (str_eq d.name new_name)
            then broadcast (renamed_event (compact_ieee ieee) d.name new_name) h'
            else h' in
          (broadcast_device ieee h'', none)
    ]

abbrev pub fresh_device : Str → Device
fresh_device key = record zero_device {
  ieee = key;
  name = key;
  kind = unknown;
  endpoint = 1;
  new = true;
}

abbrev pub joined_device : ℕ → ℕ → Device → Device
joined_device nwk now d = record (seen now d) { nwk_addr = if nwk == 0 then d.nwk_addr else nwk }

-- `noteJoined`.
unfoldable pub note_joined : Str → ℕ → ℕ → Hub → Hub × Bool
note_joined ieee nwk now h =
    let key = compact_ieee ieee in
    if is_zero_ieee key then (h, false) else (
      broadcast_device key (
          save_cache (record h {
            forgotten = delete key h.forgotten;
            devices =
                insert key
                  (joined_device nwk now (or_else (lookup key h.devices) (fresh_device key)))
                  h.devices;
          })),
      true,
    )

-- `maybeSetupMotion`.
unfoldable pub maybe_setup_motion : Device → Hub → Hub
maybe_setup_motion d h =
    let key = compact_ieee d.ieee in
    if member key h.motion_ready then h else record h {
      motion_ready = insert key tt h.motion_ready;
      tasks = setup_motion key d ∷ h.tasks;
    }

-- `FindEndpointWithCluster`, a method of the library: the endpoint's number.
abbrev pub Finder : Type 0
Finder = InterviewResult → ℕ → Option ℕ

module _ {World : Type 0} (z : Goznp) (find_endpoint : Finder) (r : Radio World) where
  -- `Remove`: whether the device leaves by itself or by force, or neither, it is dropped.
  unfoldable pub remove : Str → Hub → World → Hub × World × Option Error
  remove ieee h w = elim (find h ieee) [
    | none ↦ (h, w, some not_found)
    | some d ↦ elim (parse_ieee z ieee) [
      | none ↦ (h, w, some (message (z.parse_ieee_error (compact_ieee ieee))))
      | some addr ↦
          let (w1, left) = r.remove_device w d.nwk_addr addr in
          let (w2, forced) = r.force_remove_device w1 addr in
          let key = compact_ieee ieee in
          let h' =
            save_cache (record h {
              devices = delete key h.devices;
              forgotten = insert key tt h.forgotten;
            }) in
          (broadcast (removed_event key d.name) h', if is_some left then w2 else w1, none)
    ]
  ]

-- The second loop: what was not seen is unreachable.
unfoldable pub mark_missing : StrSet → Assoc Device → Assoc Device
mark_missing met [] = []
mark_missing met ((k, d) ∷ m) =
    (k, if member k met then d else record d { reachable = false }) ∷ mark_missing met m

module _ (z : Goznp) where
  -- The device that `Refresh` creates for an address that the hub has not met.
  abbrev pub refreshed : ℕ → Str → Device → Device
  refreshed nwk ieee d =
      let d' = record d { nwk_addr = nwk } in
      if not d.user_label && str_eq d.name [] then record d' { name = ieee; kind = unknown } else d'

  -- One round of the loop of `Refresh`, over the table and the set of addresses seen.
  pub refresh_one : StrSet → RawDevice → Assoc Device × StrSet → Assoc Device × StrSet
  refresh_one forgotten raw (devices, met) =
      let ieee = format_ieee z raw.ieee_addr in
      if member ieee forgotten then (devices, met) else (
        insert ieee
            (refreshed raw.nwk_addr ieee (or_else (lookup ieee devices) (fresh_device ieee)))
            devices,
        insert ieee tt met,
      )

  unfoldable pub refresh_all :
      StrSet → List RawDevice → Assoc Device × StrSet → Assoc Device × StrSet
  refresh_all forgotten [] s = s
  refresh_all forgotten (raw ∷ raws) s = refresh_all forgotten raws (refresh_one forgotten raw s)

  unfoldable pub refresh_table : List RawDevice → Hub → Hub
  refresh_table raws h =
      let (devices, met) = refresh_all h.forgotten raws (h.devices, []) in
      record h { devices = mark_missing met devices }

  -- `Refresh`.
  unfoldable pub refresh : {World : Type 0} → Radio World → Hub → World → Hub × World × Option Error
  refresh r h w =
      let (w', reply) = r.get_devices w in
      elim reply [
        | err e ↦ (h, w', some (message (codes "get devices: " ++ error_text e)))
        | ok raws ↦
            let h' = refresh_table raws h in
            (broadcast (devices_event (snapshot h')) (save_cache h'), w', none)
      ]

  -- `eventIEEE`.
  pub event_ieee : DeviceEvent → Str
  event_ieee ev =
      let own = format_ieee z ev.ieee_addr in
      let fallback = if is_zero_ieee own then [] else own in
      elim ev.device [
        | none ↦ fallback
        | some d ↦
            let ieee = format_ieee z d.ieee_addr in if is_zero_ieee ieee then fallback else ieee
      ]

  -- The callback that `Open` gives to `OnDeviceEvent`, up to its goroutine.
  pub on_device_event : DeviceEvent → ℕ → Hub → Hub
  on_device_event ev now h =
      let ieee = event_ieee ev in
      let nwk : ℕ = elim ev.device [ none ↦ 0 | some d ↦ d.nwk_addr ] in
      let h' = if ev.joined && not (is_zero_ieee ieee) then (note_joined ieee nwk now h).0 else h in
      record h' { tasks = refresh_joined ieee nwk ∷ h'.tasks }
