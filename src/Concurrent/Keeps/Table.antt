-- ===== src/Concurrent/Keeps/Table.antt =====
-- The table of devices and the cache file under every interleaving (internal/hub/hub.go).
use zigbeemq.Zigbee.{Goznp}
use zigbeemq.Radio.{Radio}
use zigbeemq.Ieee.{compact_ieee}
use zigbeemq.Device.{Device}
use zigbeemq.Prelude.{
  All, Str, Assoc, StrSet, lookup, member, ℕ, ◌≡◌, refl, true, Option, none, some, List,
}
use zigbeemq.Hub.{CacheFile, Hub, find, modify}
use zigbeemq.Hub.Registry.{or_else, fresh_device, joined_device, Finder, refresh_table}
use zigbeemq.Hub.Registry.Table.{IsKeyed, IsTable, IsTable-adjust, IsTable-enter, IsTable-leave}
use zigbeemq.Hub.Registry.Refresh.{PrintsAddresses, known_ieee, refresh_table-IsValid}
use zigbeemq.Hub.Registry.Canonical.{
  IsCompact, IsCanonical, IsCanonical-insert, IsCanonical-delete, IsCanonical-adjust,
  refreshed-IsCanonical,
}
use zigbeemq.Concurrent.Pool.{run_pool, Method, routines}
use zigbeemq.Concurrent.Methods.Registry.{enters, leaves}
use zigbeemq.Concurrent.Keeps.{AllKeep, run_pool-Keeps}
use zigbeemq.Concurrent.Keeps.Closed.{IsClosed}
use zigbeemq.Concurrent.Keeps.Registry.{JoinsIn, routines-Keep}

-- A table and a set of forgotten addresses that are well formed, with compact keys only and none
-- twice.
abbrev IsGood : Assoc Device → StrSet → Type 0
IsGood devices forgotten = IsTable devices forgotten × (IsCanonical devices × IsCanonical forgotten)

-- So is what the cache file holds.
abbrev pub IsGoodFile : Option CacheFile → Type 0
IsGoodFile none = Unit
IsGoodFile (some file) = IsGood file.devices file.forgotten

abbrev pub IsSound : Hub → Type 0
IsSound h = IsGood h.devices h.forgotten × IsGoodFile h.disk

find-IsCompact :
    (ieee : Str) (h : Hub) (d : Device)
    → find h ieee ≡ some d
    → IsSound h
    → IsCompact (compact_ieee ieee)
unfolding find
find-IsCompact ieee h d found v =
    let own : IsKeyed (compact_ieee ieee) (find h ieee) = v.0.0.keyed (compact_ieee ieee) in
    let keyed : IsKeyed (compact_ieee ieee) (some d) = rw found at own in keyed.1

-- What is forgotten stays forgotten, but for the addresses that `Joins` excludes.
abbrev pub Forgets : Str → Hub → Hub → Type 0
Forgets k h h' = member k h.forgotten ≡ true → member k h'.forgotten ≡ true

abbrev pub AnyChange : Hub → Hub → Type 0
AnyChange h h' = Unit

module _ (z : Goznp) (prints : PrintsAddresses z) (R : Hub → Hub → Type 0) (Joins : Str → Type 0)
    (joins_compact : (key : Str) → Joins key → compact_ieee key ≡ key)
    (same_set : (h h' : Hub) → h'.forgotten ≡ h.forgotten → R h h')
    (entering : (key : Str) (nwk now : ℕ) (h : Hub) → Joins key → R h (enters key nwk now h))
    (leaving : (key : Str) (h : Hub) → R h (leaves key h)) where
  IsSound-IsClosed : IsClosed z Joins IsSound R
  IsSound-IsClosed = record {
    unchanged = λ h v. (v, same_set h h refl);
    same =
        λ h h' devices forgotten disk v. (rw (devices, forgotten, disk) v, same_set h h' forgotten);
    cut = λ h v. ((v.0, tt), same_set h _ refl);
    stored = λ h h' v v'. ((v'.0, v.0), same_set h' _ refl);
    modified = λ ieee g h keep v.
        unfold modify in
        (
          (
            (
              IsTable-adjust (compact_ieee ieee) g h.devices h.forgotten keep v.0.0,
              (IsCanonical-adjust (compact_ieee ieee) g h.devices v.0.1.0, v.0.1.1),
            ),
            v.1,
          ),
          same_set h _ refl,
        );
    entered = λ key nwk now h joins v.
        let d = joined_device nwk now (or_else (lookup key h.devices) (fresh_device key)) in
        let c = joins_compact key joins in
        (
          (
            (
              IsTable-enter key d h.devices h.forgotten
                  (known_ieee key (lookup key h.devices) (v.0.0.keyed key)) c v.0.0,
              (
                IsCanonical-insert key d h.devices c v.0.1.0,
                IsCanonical-delete key h.forgotten v.0.1.1,
              ),
            ),
            v.1,
          ),
          entering key nwk now h joins,
        );
    left = λ key h c v. (
      (
        (
          IsTable-leave key h.devices h.forgotten v.0.0,
          (
            IsCanonical-delete key h.devices v.0.1.0,
            IsCanonical-insert key tt h.forgotten c v.0.1.1,
          ),
        ),
        v.1,
      ),
      leaving key h,
    );
    known = find-IsCompact;
    listed = λ raws h v.
        unfold refresh_table in
        (
          (
            (
              refresh_table-IsValid z raws h prints v.0.0,
              (refreshed-IsCanonical z prints h.forgotten raws h.devices v.0.1.0, v.0.1.1),
            ),
            v.1,
          ),
          same_set h _ refl,
        );
  }

  no_change : (h : Hub) → R h h
  no_change h = same_set h h refl

  -- The methods, all at their beginning, under any schedule.
  pub IsSound-run_pool :
      {World : Type 0} (f : Finder) (r : Radio World)
      (chained : (h h' h'' : Hub) → R h h' → R h' h'' → R h h'') (ms : List Method)
      (schedule : List ℕ) (h : Hub) (w : World)
      → All (JoinsIn z Joins) ms
      → IsSound h
      → (let h' = (run_pool schedule (routines z f r ms) h w).0 in IsSound h' × R h h')
        × AllKeep IsSound R (run_pool schedule (routines z f r ms) h w).2
  IsSound-run_pool {World} f r chained ms schedule h w joins v =
      run_pool-Keeps IsSound R no_change chained schedule (routines z f r ms) h w
        (routines-Keep World z f r Joins IsSound R IsSound-IsClosed ms joins) v
