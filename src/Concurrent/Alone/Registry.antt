-- ===== src/Concurrent/Alone/Registry.antt =====
-- `Update`, `Remove`, `noteJoined`, `Refresh` and `PermitJoin` (internal/hub/hub.go), not interrupted.
use zigbeemq.Zigbee.{Goznp}
use zigbeemq.Radio.{Radio}
use zigbeemq.Ieee.{compact_ieee, parse_ieee}
use zigbeemq.Device.{Device}
use zigbeemq.Known.{Kind}
use zigbeemq.Prelude.{
  if◌then◌else◌, Option-cases, is_some, Str, str_eq, ℕ, ◌≡◌, refl, inl, inr, Bool, ◌&&◌, not,
  Option, none, some, List, [], arith,
}
use zigbeemq.Hub.{
  renamed_event, removed_event, Hub, find, modify, broadcast, broadcast_device, save_cache,
}
use zigbeemq.Hub.Control.{permit_join_for}
use zigbeemq.Hub.Registry.{relabel, update, note_joined, Finder, remove, refresh}
use zigbeemq.Concurrent.{Routine, run_alone, run_alone-bind, ◌>>=◌, ◌>>◌}
use zigbeemq.Concurrent.Methods.{saves}
use zigbeemq.Concurrent.Methods.Registry.{
  leaves, relabelled, updates, notes_joined, drops, removes, refreshed_by, refreshes, permitted,
  permits,
}
use zigbeemq.Concurrent.Alone.{saves_alone}

module _ {World : Type 0} where
  saves_then :
      {A : Type 0} (rest : Routine World A) (h : Hub) (w : World)
      → run_alone (saves >> rest) h w ≡ run_alone rest (save_cache h) w
  saves_then rest h w = rw (run_alone-bind saves _ h w, saves_alone h w) refl

  relabelled_alone :
      (ieee name old new : Str) (h : Hub) (w : World)
      → run_alone (relabelled ieee name (some (old, new))) h w ≡ (
        broadcast_device ieee (
            if not (str_eq name []) && not (str_eq old []) && not (str_eq old new)
            then broadcast (renamed_event (compact_ieee ieee) old new) (save_cache h)
            else save_cache h),
        w,
        none,
      )
  unfolding broadcast_device
  relabelled_alone ieee name old new h w =
      rw (saves_then _ h w) (unfold run_alone ◌>>=◌ in ground arith)

  -- `Update`.
  pub updates_alone :
      (ieee name : Str) (kind : Kind) (archived : Option Bool) (h : Hub) (w : World)
      → run_alone (updates ieee name kind archived) h w
        ≡ (let (h', error) = update ieee name kind archived h in (h', w, error))
  unfolding updates update run_alone ◌>>=◌
  updates_alone ieee name kind archived h w = elim (Option-cases (find h ieee)) [
    | inl missing ↦ ground arith
    | inr (d, found) ↦ ground (
      arith,
      relabelled_alone ieee name d.name (relabel name kind archived d).name
          (modify ieee (relabel name kind archived) h) w,
    )
  ]

  -- `noteJoined`.
  pub notes_joined_alone :
      (ieee : Str) (nwk now : ℕ) (h : Hub) (w : World)
      → run_alone (notes_joined ieee nwk now) h w
        ≡ (let (h', noted) = note_joined ieee nwk now h in (h', w, noted))
  unfolding notes_joined note_joined run_alone ◌>>=◌ broadcast_device save_cache
  notes_joined_alone ieee nwk now h w = ground arith

module _ {World : Type 0} (z : Goznp) (f : Finder) (r : Radio World) where
  drops_alone :
      (key : Str) (d : Device) (addr : List ℕ) (h : Hub) (w : World)
      → run_alone (drops z f r key d addr) h w ≡ (
          let (w1, left) = r.remove_device w d.nwk_addr addr in
          let (w2, forced) = r.force_remove_device w1 addr in
          (
            broadcast (removed_event key d.name) (save_cache (leaves key h)),
            if is_some left then w2 else w1,
            none,
          ))
  unfolding drops run_alone ◌>>=◌ save_cache
  drops_alone key d addr h w = ground arith

  -- `Remove`.
  pub removes_alone :
      (ieee : Str) (h : Hub) (w : World)
      → run_alone (removes z f r ieee) h w ≡ remove z f r ieee h w
  unfolding removes remove run_alone ◌>>=◌
  removes_alone ieee h w = elim (Option-cases (find h ieee)) [
    | inl missing ↦ ground arith
    | inr (d, found) ↦ elim (Option-cases (parse_ieee z ieee)) [
      | inl bad ↦ ground arith
      | inr (addr, good) ↦ ground (arith, drops_alone (compact_ieee ieee) d addr h w)
    ]
  ]

  -- `Refresh`.
  pub refreshes_alone : (h : Hub) (w : World) → run_alone (refreshes z f r) h w ≡ refresh z r h w
  unfolding refreshes refreshed_by refresh run_alone ◌>>=◌ save_cache
  refreshes_alone h w = ground arith

  -- `PermitJoin`.
  pub permits_alone :
      (seconds now : ℕ) (h : Hub) (w : World)
      → run_alone (permits z f r seconds now) h w ≡ permit_join_for z r seconds now h w
  unfolding permits permitted permit_join_for run_alone ◌>>=◌
  permits_alone seconds now h w = ground arith
