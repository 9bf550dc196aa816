-- ===== src/Concurrent/Keeps/Removed.antt =====
-- The table, the cache file and the removed devices under every interleaving of the hub's methods
-- (internal/hub/hub.go).
use zigbeemq.Zigbee.{Goznp, DeviceEvent}
use zigbeemq.Radio.{Radio}
use zigbeemq.Ieee.{compact_ieee}
use zigbeemq.Prelude.{
  All, Str, str_eq, lookup, lookup-insert, lookup-delete, member, ℕ, ◌≡◌, refl, ap, true, false,
  Option, none, some, List, [], ◌∷◌, ◌++◌, arith,
}
use zigbeemq.Hub.{CacheFile, Hub, new_hub, load_cache}
use zigbeemq.Hub.Registry.{Finder, event_ieee}
use zigbeemq.Hub.Registry.Table.{forgotten_unlisted, IsValid}
use zigbeemq.Hub.Registry.Refresh.{PrintsAddresses}
use zigbeemq.Hub.Registry.Kept.{event_ieee-IsCompact}
use zigbeemq.Hub.Registry.Canonical.{IsCompact}
use zigbeemq.Hub.Cache.{load_file-IsValid, load_none-IsValid}
use zigbeemq.Concurrent.Pool.{Pool, advance_at, run_pool, Method, routines}
use zigbeemq.Concurrent.Methods.Registry.{enters, leaves}
use zigbeemq.Concurrent.Keeps.{run_pool-Keeps}
use zigbeemq.Concurrent.Keeps.Registry.{JoinsIn, every_joins, joins_with}
use zigbeemq.Concurrent.Keeps.Table.{IsGoodFile, IsSound, Forgets, AnyChange, IsSound-run_pool}
use zigbeemq.Concurrent.Keeps.{run_pool-Keeps}

run_pool-append :
    {World : Type 0} (s1 s2 : List ℕ) (ps : Pool World) (h : Hub) (w : World)
    → run_pool (s1 ++ s2) ps h w ≡ (let (h', w', ps') = run_pool s1 ps h w in run_pool s2 ps' h' w')
unfolding run_pool
run_pool-append [] s2 ps h w = refl
run_pool-append (i ∷ s1) s2 ps h w =
    run_pool-append s1 s2 (advance_at i ps h w).2 (advance_at i ps h w).0 (advance_at i ps h w).1

enters-Forgets :
    (k key : Str) (nwk now : ℕ) (h : Hub)
    → IsCompact key × (str_eq key k ≡ false)
    → Forgets k h (enters key nwk now h)
enters-Forgets k key nwk now h (c, apart) gone = ground (arith, lookup-delete key k h.forgotten)

leaves-Forgets : (k key : Str) (h : Hub) → Forgets k h (leaves key h)
leaves-Forgets k key h gone = ground (arith, lookup-insert key k tt h.forgotten)

module _ {World : Type 0} (z : Goznp) (f : Finder) (r : Radio World)
    (prints : PrintsAddresses z) where
  IsCompact-joins : (ev : DeviceEvent) → IsCompact (compact_ieee (event_ieee z ev))
  IsCompact-joins ev = ap compact_ieee (event_ieee-IsCompact z f r prints ev)

  -- Where the library prints addresses as hexadecimal digits and colons: however many methods of the
  -- hub run side by side, and however the scheduler interleaves their critical sections and their
  -- calls of the radio, the table stays well formed, and so does the one that the cache file holds.
  pub interleaved-IsSound :
      (ms : List Method) (schedule : List ℕ) (h : Hub) (w : World)
      → IsSound h
      → IsSound (run_pool schedule (routines z f r ms) h w).0
  interleaved-IsSound ms schedule h w v =
      (IsSound-run_pool z prints AnyChange IsCompact (λ key c. c) (λ h h' e. tt)
        (λ key nwk now h c. tt) (λ key h. tt) f r (λ h h' h'' a b. tt) ms schedule h w
        (every_joins z IsCompact (IsCompact-joins) ms) v).0.0

  -- Where the library prints addresses as hexadecimal digits and colons: at whatever moment the
  -- program ends, with however many methods under way, and also after the cache file was cut to
  -- nothing and before it is complete again, a new hub that loads the file found then is well formed;
  -- a file that is not complete is one that cannot be read.
  pub crash-IsValid :
      (ms : List Method) (schedule : List ℕ) (h : Hub) (w : World) (dir : Str)
      → IsSound h
      → IsValid (load_cache (new_hub dir (run_pool schedule (routines z f r ms) h w).0.disk))
  crash-IsValid ms schedule h w dir v = restart _ (interleaved-IsSound ms schedule h w v).1
    where
      restart :
          (disk : Option CacheFile) → IsGoodFile disk → IsValid (load_cache (new_hub dir disk))
      restart none good = load_none-IsValid dir
      restart (some file) (t, (c, g)) = load_file-IsValid file dir c g t

  -- Both parts of a schedule, from the hub at the end of the first.
  kept_run :
      (k : Str) (ms : List Method) (before later : List ℕ) (h : Hub) (w : World)
      → All (JoinsIn z (λ key. str_eq key k ≡ false)) ms
      → IsSound h
      → let (h1, w1, ps1) = run_pool before (routines z f r ms) h w in
        let h2 = (run_pool later ps1 h1 w1).0 in IsSound h2 × Forgets k h1 h2
  kept_run k ms before later h w away v =
      let Joins : Str → Type 0 = λ key. IsCompact key × (str_eq key k ≡ false) in
      let same : (h h' : Hub) → h'.forgotten ≡ h.forgotten → Forgets k h h' =
        λ h h' e gone. rw e gone in
      let first =
        IsSound-run_pool z prints (Forgets k) Joins (λ key c. c.0) same (enters-Forgets k)
          (leaves-Forgets k) f r (λ h h' h'' a b gone. b (a gone)) ms before h w
          (joins_with z IsCompact (λ key. str_eq key k ≡ false) IsCompact-joins ms away) v in
      let (h1, w1, ps1) = run_pool before (routines z f r ms) h w in
      (run_pool-Keeps IsSound (Forgets k) (λ h. same h h refl) (λ h h' h'' a b gone. b (a gone))
        later ps1 h1 w1 first.1 first.0.0).0

  -- Where the library prints addresses as hexadecimal digits and colons: however many methods of the
  -- hub run side by side, none of which notes a join of the address `k`, and however the scheduler
  -- interleaves them, from the moment on at which `k` is forgotten, as by a `Remove`, no command,
  -- reading, edit, refresh or recovery that is under way brings a device back under `k`.
  pub removed_in_flight :
      (k : Str) (ms : List Method) (before later : List ℕ) (h : Hub) (w : World)
      → All (JoinsIn z (λ key. str_eq key k ≡ false)) ms
      → IsSound h
      → member k (run_pool before (routines z f r ms) h w).0.forgotten ≡ true
      → lookup k (run_pool (before ++ later) (routines z f r ms) h w).0.devices ≡ none
  removed_in_flight k ms before later h w away v gone =
      let keep = kept_run k ms before later h w away v in
      rw (run_pool-append before later (routines z f r ms) h w)
        (forgotten_unlisted _ _ k keep.0.0.0 (keep.1 gone))
