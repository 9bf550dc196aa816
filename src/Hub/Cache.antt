-- ===== src/Hub/Cache.antt =====
-- What a hub finds in the cache file that another hub has written (`saveCache` and `loadCache` of
-- internal/hub/hub.go).
use mathlib.Core.Option
use zigbeemq.Prelude.{
  Str, str_eq, str_eq_iff, Assoc, StrSet, lookup, insert, lookup-insert, member, ◌≡◌, refl, false,
  ◌||◌, Option, none, some, [], ◌∷◌, map, arith,
}
use zigbeemq.Ieee.{compact_ieee}
use zigbeemq.Device.{Device}
use zigbeemq.Hub.Registry.Canonical.{IsCanonical}
use zigbeemq.Hub.Registry.Table.{IsKeyed, IsTable, IsValid, IsValid-of}
use zigbeemq.Hub.{
  CacheFile, Hub, new_hub, find, save_cache, migrate, load_devices, load_forgotten, load_cache,
}

abbrev loaded : Option Device → Option Device → Option Device
loaded before none = before
loaded before (some d) = some (migrate d)

lookup-load_devices :
    (k : Str) (file m : Assoc Device)
    → IsCanonical file
    → lookup k (load_devices file m) ≡ loaded (lookup k m) (lookup k file)
unfolding load_devices lookup
lookup-load_devices k [] m h = refl
lookup-load_devices k ((j, d) ∷ file) m ((new, map), (c, cs)) = ground (
  arith,
  lookup-load_devices k file (insert (compact_ieee j) (migrate d) m) (map, cs),
  lookup-insert j k (migrate d) m,
  str_eq_iff j k,
)

member-load_forgotten :
    (k : Str) (file m : StrSet)
    → IsCanonical file
    → member k (load_forgotten file m) ≡ (member k file || member k m)
unfolding load_forgotten lookup
member-load_forgotten k [] m h = refl
member-load_forgotten k ((j, u) ∷ file) m ((new, map), (c, cs)) = ground (
  arith,
  member-load_forgotten k file (insert (compact_ieee j) u m) (map, cs),
  lookup-insert j k u m,
  str_eq_iff j k,
)

save_cache-disk :
    (h : Hub)
    → str_eq h.data_dir [] ≡ false
    → (save_cache h).disk ≡ some (record { devices = h.devices; forgotten = h.forgotten })
unfolding save_cache
save_cache-disk h e = rw e refl

load_cache-devices :
    (h : Hub) (file : CacheFile)
    → h.disk ≡ some file
    → ((load_cache h).devices ≡ load_devices file.devices h.devices)
      × ((load_cache h).forgotten ≡ load_forgotten file.forgotten h.forgotten)
unfolding load_cache save_cache
load_cache-devices h file e = (ground arith, ground arith)

-- A new hub that loads the file written by a hub with a data directory, whose two maps have compact
-- keys only and none twice, finds the same devices, up to the migration of `loadCache`, and has the
-- same addresses forgotten.
pub load_cache-save_cache :
    (h : Hub) (dir ieee : Str)
    → str_eq h.data_dir [] ≡ false
    → IsCanonical h.devices
    → IsCanonical h.forgotten
    → let h' = load_cache (new_hub dir (save_cache h).disk) in
      (find h' ieee ≡ Option.map migrate (find h ieee))
      × (member ieee h'.forgotten ≡ member ieee h.forgotten)
unfolding find new_hub lookup
load_cache-save_cache h dir ieee e c f =
    let k = compact_ieee ieee in
    let file : CacheFile = record { devices = h.devices; forgotten = h.forgotten } in
    let h0 = new_hub dir (save_cache h).disk in
    let (devices', forgotten') = load_cache-devices h0 file (save_cache-disk h e) in
    (
      ground (arith, devices', lookup-load_devices k h.devices [] c),
      ground (arith, forgotten', member-load_forgotten ieee h.forgotten [] f),
    )

loaded-IsKeyed : (k : Str) (o : Option Device) → IsKeyed k o → IsKeyed k (loaded none o)
unfolding migrate
loaded-IsKeyed k none h = tt
loaded-IsKeyed k (some d) (e, c) = (ground arith, c)

-- What a new hub loads from a file that holds a well-formed table, with compact keys only and none
-- twice, is a well-formed table.
pub load_file-IsValid :
    (file : CacheFile) (dir : Str)
    → IsCanonical file.devices
    → IsCanonical file.forgotten
    → IsTable file.devices file.forgotten
    → IsValid (load_cache (new_hub dir (some file)))
unfolding new_hub lookup
load_file-IsValid file dir c f t =
    let h0 = new_hub dir (some file) in
    let (devices', forgotten') = load_cache-devices h0 file refl in
    IsValid-of (load_devices file.devices []) (load_forgotten file.forgotten []) (load_cache h0)
      devices' forgotten'
      (record {
        keyed = λ k.
            rw (lookup-load_devices k file.devices [] c)
              (loaded-IsKeyed k (lookup k file.devices) (t.keyed k));
        apart = λ k. ground (
          arith,
          lookup-load_devices k file.devices [] c,
          member-load_forgotten k file.forgotten [] f,
          t.apart k,
        );
      })

-- A new hub that finds no file.
pub load_none-IsValid : (dir : Str) → IsValid (load_cache (new_hub dir none))
unfolding new_hub lookup load_cache
load_none-IsValid dir = record { keyed = λ k. tt; apart = λ k. ground arith }

-- What a well-formed hub with a data directory has written, with compact keys only and none twice, a
-- new hub loads as a well-formed table.
load_cache-IsValid :
    (h : Hub) (dir : Str)
    → str_eq h.data_dir [] ≡ false
    → IsCanonical h.devices
    → IsCanonical h.forgotten
    → IsValid h
    → IsValid (load_cache (new_hub dir (save_cache h).disk))
load_cache-IsValid h dir e c f t =
    rw (save_cache-disk h e)
      (load_file-IsValid (record { devices = h.devices; forgotten = h.forgotten }) dir c f t)
