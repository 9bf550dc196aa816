-- ===== src/Concurrent/Methods/Registry.antt =====
-- How devices enter, change and leave (`Update`, `Remove`, `noteJoined`, `Refresh`, `PermitJoin`,
-- internal/hub/hub.go), as goroutines.
use zigbeemq.Zigbee.{RawDevice, Goznp}
use zigbeemq.Radio.{Radio}
use zigbeemq.Errors.{Error, not_found, message, Reply, ok, err, error_text}
use zigbeemq.Ieee.{compact_ieee, is_zero_ieee, parse_ieee}
use zigbeemq.Device.{Device}
use zigbeemq.Prelude.{
  ◌==◌, if◌then◌else◌, Str, codes, str_eq, lookup, insert, delete, ℕ, ◌+◌, ◌*◌, Bool, true, false,
  ◌&&◌, not, Option, none, some, List, [], ◌++◌,
}
use zigbeemq.Hub.{
  devices_event, renamed_event, removed_event, permit_join_event, Hub, find, snapshot, modify,
}
use zigbeemq.Concurrent.{Routine, ends, locked, change, ask, ◌>>=◌, ◌>>◌}
use zigbeemq.Concurrent.Methods.{tells, announces, saves, with_device}
use zigbeemq.Known.{Kind, valid_kind}
use zigbeemq.Hub.Registry.{
  is_empty, or_else, relabel, fresh_device, joined_device, Finder, refresh_table,
}

-- What `Update` does under the lock: the old name and the new one come back.
abbrev pub relabels : Str → Str → Kind → Option Bool → Hub → Hub × Option (Str × Str)
relabels ieee name kind archived h = elim (find h ieee) [
  | none ↦ (h, none)
  | some d ↦ (
    modify ieee (relabel name kind archived) h,
    some (d.name, (relabel name kind archived d).name),
  )
]

-- What `noteJoined` does under the lock.
abbrev pub enters : Str → ℕ → ℕ → Hub → Hub
enters key nwk now h = record h {
  forgotten = delete key h.forgotten;
  devices =
      insert key (joined_device nwk now (or_else (lookup key h.devices) (fresh_device key)))
        h.devices;
}

-- What `Remove` does under the lock.
abbrev pub leaves : Str → Hub → Hub
leaves key h = record h { devices = delete key h.devices; forgotten = insert key tt h.forgotten }

abbrev join_end : ℕ → ℕ → Option ℕ
join_end seconds now = if seconds == 0 then none else some (now + seconds * 1000000000)

module _ {World : Type 0} where
  abbrev pub announces_name : Str → Str → Str → Str → Routine World (Unit {0})
  announces_name ieee name old new =
      if not (str_eq name []) && not (str_eq old []) && not (str_eq old new)
      then tells (renamed_event (compact_ieee ieee) old new)
      else ends tt

  abbrev pub relabelled : Str → Str → Option (Str × Str) → Routine World (Option Error)
  relabelled ieee name none = ends (some not_found)
  relabelled ieee name (some (old, new)) = do
    saves
    announces_name ieee name old new
    announces ieee
    ends none

  -- `Update`.
  unfoldable pub updates : Str → Str → Kind → Option Bool → Routine World (Option Error)
  updates ieee name kind archived =
      if not (is_empty kind) && not (valid_kind kind)
      then ends (some (message (codes "unknown kind")))
      else (do names ← locked (relabels ieee name kind archived) ends; relabelled ieee name names)

  -- `noteJoined`.
  unfoldable pub notes_joined : Str → ℕ → ℕ → Routine World Bool
  notes_joined ieee nwk now =
      let key = compact_ieee ieee in
      if is_zero_ieee key
      then ends false
      else (do change (enters key nwk now); saves; announces key; ends true)

module _ {World : Type 0} (z : Goznp) (f : Finder) (r : Radio World) where
  abbrev pub forces : List ℕ → Option Error → Routine World (Unit {0})
  forces addr none = ends tt
  forces addr (some e) = do forced ← ask (λ w. r.force_remove_device w addr); ends tt

  unfoldable pub drops : Str → Device → List ℕ → Routine World (Option Error)
  drops key d addr = do
    left ← ask (λ w. r.remove_device w d.nwk_addr addr)
    forces addr left
    change (leaves key)
    saves
    tells (removed_event key d.name)
    ends none

  -- `Remove`.
  unfoldable pub removes : Str → Routine World (Option Error)
  unfolding drops
  removes ieee = with_device ieee λ d. elim (parse_ieee z ieee) [
    | none ↦ ends (some (message (z.parse_ieee_error (compact_ieee ieee))))
    | some addr ↦ drops (compact_ieee ieee) d addr
  ]

  -- What `Refresh` does under the lock, with its snapshot.
  abbrev lists : List RawDevice → Hub → Hub × List Device
  lists raws h = let h' = refresh_table z raws h in (h', snapshot h')

  unfoldable pub refreshed_by : Reply (List RawDevice) → Routine World (Option Error)
  refreshed_by (err e) = ends (some (message (codes "get devices: " ++ error_text e)))
  refreshed_by (ok raws) = do
    devices ← locked (lists raws) ends
    saves
    tells (devices_event devices)
    ends none

  -- `Refresh`.
  unfoldable pub refreshes : Routine World (Option Error)
  unfolding refreshed_by
  refreshes = do reply ← ask r.get_devices; refreshed_by reply

  unfoldable pub permitted : ℕ → ℕ → Option Error → Routine World (Option Error)
  permitted seconds now (some e) = ends (some e)
  permitted seconds now none = do
    change (λ h. record h { permit_until = join_end seconds now })
    tells (permit_join_event seconds (join_end seconds now))
    ends none

  -- `PermitJoin`.
  unfoldable pub permits : ℕ → ℕ → Routine World (Option Error)
  unfolding permitted
  permits seconds now = do error ← ask (λ w. r.permit_join w seconds); permitted seconds now error
