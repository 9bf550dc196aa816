-- ===== src/Concurrent/Keeps/Registry.antt =====
-- The methods that change the table, and all methods, keep what each section keeps
-- (internal/hub/hub.go).
use zigbeemq.Zigbee.{RawDevice, Goznp, DeviceEvent}
use zigbeemq.Radio.{Radio}
use zigbeemq.Errors.{Error, Reply, ok, err}
use zigbeemq.Ieee.{compact_ieee, is_zero_ieee, parse_ieee}
use zigbeemq.Device.{Device}
use zigbeemq.Known.{Kind, valid_kind}
use zigbeemq.Prelude.{
  Option-cases, All, Str, str_eq, ℕ, refl, inl, inr, Bool, true, false, ◌&&◌, not, Option, none,
  some, List, [], ◌∷◌,
}
use zigbeemq.Hub.{Event, devices_event, renamed_event, removed_event, permit_join_event, Hub, find}
use zigbeemq.Hub.Registry.{is_empty, relabel, Finder, event_ieee}
use zigbeemq.Hub.Registry.Canonical.{IsCompact}
use zigbeemq.Hub.Registry.Join.{event_nwk}
use zigbeemq.Concurrent.{Routine, ends, locked, change, ◌>>=◌}
use zigbeemq.Concurrent.Pool.{
  Method, turn_method, brightness_method, toggle_method, recovery_method, update_method,
  remove_method, join_method, refresh_method, permit_method, interview_method, ignoring, routine,
  routines,
}
use zigbeemq.Concurrent.Methods.{tells, announces, saves}
use zigbeemq.Concurrent.Methods.Reading.{recovers}
use zigbeemq.Concurrent.Methods.Registry.{
  relabels, enters, announces_name, relabelled, updates, notes_joined, forces, drops, removes,
  refreshed_by, refreshes, permitted, permits,
}
use zigbeemq.Concurrent.Keeps.{Keeps, Keeps-bind, if-Keeps, AllKeep}
use zigbeemq.Concurrent.Keeps.Closed.{IsClosed, tells-Keeps, announces-Keeps, saves-Keeps}
use zigbeemq.Concurrent.Keeps.Interview.{interviews-Keeps}
use zigbeemq.Concurrent.Keeps.Reading.{turns-Keeps, brightens-Keeps, toggles-Keeps, recovers-Keeps}

-- The join that a method notes is one of those allowed.
abbrev pub JoinsIn : Goznp → (Str → Type 0) → Method → Type 0
JoinsIn z Joins (join_method ev now) = Joins (compact_ieee (event_ieee z ev))
JoinsIn z Joins _ = Unit

module _ (z : Goznp) where
  every_join :
      (P : Str → Type 0)
      → ((ev : DeviceEvent) → P (compact_ieee (event_ieee z ev)))
      → (m : Method) → JoinsIn z P m
  every_join P all_events (join_method ev now) = all_events ev
  every_join P all_events (turn_method ieee on now) = tt
  every_join P all_events (brightness_method ieee percent now) = tt
  every_join P all_events (toggle_method ieee now) = tt
  every_join P all_events (recovery_method wake key) = tt
  every_join P all_events (update_method ieee name kind archived) = tt
  every_join P all_events (remove_method ieee) = tt
  every_join P all_events refresh_method = tt
  every_join P all_events (permit_method seconds now) = tt
  every_join P all_events (interview_method ieee now) = tt

  both_joins :
      (P Q : Str → Type 0) (m : Method)
      → JoinsIn z P m
      → JoinsIn z Q m
      → JoinsIn z (λ key. P key × Q key) m
  both_joins P Q (join_method ev now) p q = (p, q)
  both_joins P Q (turn_method ieee on now) p q = tt
  both_joins P Q (brightness_method ieee percent now) p q = tt
  both_joins P Q (toggle_method ieee now) p q = tt
  both_joins P Q (recovery_method wake key) p q = tt
  both_joins P Q (update_method ieee name kind archived) p q = tt
  both_joins P Q (remove_method ieee) p q = tt
  both_joins P Q refresh_method p q = tt
  both_joins P Q (permit_method seconds now) p q = tt
  both_joins P Q (interview_method ieee now) p q = tt

  pub every_joins :
      (P : Str → Type 0)
      → ((ev : DeviceEvent) → P (compact_ieee (event_ieee z ev)))
      → (ms : List Method) → All (JoinsIn z P) ms
  every_joins P all_events [] = tt
  every_joins P all_events (m ∷ ms) = (every_join P all_events m, every_joins P all_events ms)

  -- Where all joins satisfy one property, and those of the methods another.
  pub joins_with :
      (P Q : Str → Type 0)
      → ((ev : DeviceEvent) → P (compact_ieee (event_ieee z ev)))
      → (ms : List Method) → All (JoinsIn z Q) ms
      → All (JoinsIn z (λ key. P key × Q key)) ms
  joins_with P Q all_events [] q = tt
  joins_with P Q all_events (m ∷ ms) (q, qs) =
      (both_joins P Q m (every_join P all_events m) q, joins_with P Q all_events ms qs)

module _ (World : Type 0) (z : Goznp) (f : Finder) (r : Radio World) (Joins : Str → Type 0)
    (I : Hub → Type 0) (R : Hub → Hub → Type 0) (closed : IsClosed z Joins I R) where
  saves_then-Keeps :
      {A : Type 0} (rest : Routine World A) → Keeps I R rest → Keeps I R (saves >>= λ _. rest)
  saves_then-Keeps rest kept =
      Keeps-bind I R saves _ (saves-Keeps World z Joins I R closed) λ _. kept

  tells_then-Keeps :
      (ev : Event) (a : Option Error) → Keeps {World = World} I R (tells ev >>= λ _. ends a)
  tells_then-Keeps ev a =
      Keeps-bind I R (tells ev) _ (tells-Keeps World z Joins I R closed ev) λ _. unfold Keeps in tt

  announces_then-Keeps :
      {A : Type 0} (ieee : Str) (a : A) → Keeps {World = World} I R (announces ieee >>= λ _. ends a)
  announces_then-Keeps ieee a =
      Keeps-bind I R (announces ieee) _ (announces-Keeps World z Joins I R closed ieee)
        λ _. unfold Keeps in tt

  relabelled-Keeps :
      (ieee name : Str) (names : Option (Str × Str))
      → Keeps {World = World} I R (relabelled ieee name names)
  relabelled-Keeps ieee name none = unfold Keeps in tt
  relabelled-Keeps ieee name (some (old, new)) = saves_then-Keeps _ (
      Keeps-bind I R (announces_name ieee name old new) _
        (if-Keeps I R (not (str_eq name []) && not (str_eq old []) && not (str_eq old new))
          (tells (renamed_event (compact_ieee ieee) old new)) (ends tt)
          (tells-Keeps World z Joins I R closed _) (unfold Keeps in tt))
        λ _. announces_then-Keeps ieee none)

  updates-Keeps :
      (ieee name : Str) (kind : Kind) (archived : Option Bool)
      → Keeps {World = World} I R (updates ieee name kind archived)
  unfolding Keeps updates ◌>>=◌ relabel
  updates-Keeps ieee name kind archived =
      if-Keeps I R (not (is_empty kind) && not (valid_kind kind)) _
        (locked (relabels ieee name kind archived) (relabelled ieee name)) tt
        λ h v. elim (Option-cases (find h ieee)) [
          | inl missing ↦ rw (missing, relabels) (closed.unchanged h v, tt)
          | inr (d, found) ↦
              rw (found, relabels)
                (
                  closed.modified ieee (relabel name kind archived) h (λ d. refl) v,
                  relabelled-Keeps ieee name (some (d.name, (relabel name kind archived d).name)),
                )
        ]

  notes_joined-Keeps :
      (ieee : Str) (nwk now : ℕ)
      → Joins (compact_ieee ieee)
      → Keeps {World = World} I R (notes_joined ieee nwk now)
  unfolding Keeps notes_joined ◌>>=◌
  notes_joined-Keeps ieee nwk now joins =
      let key = compact_ieee ieee in
      if-Keeps I R (is_zero_ieee key) (ends false)
        (change (enters key nwk now) >>= λ _. saves >>= λ _. announces key >>= λ _. ends true) tt
        λ h v.
          (closed.entered key nwk now h joins v, saves_then-Keeps _ (announces_then-Keeps key true))

  drops-Keeps :
      (key : Str) (d : Device) (addr : List ℕ) → IsCompact key → Keeps I R (drops z f r key d addr)
  unfolding Keeps drops ◌>>=◌
  drops-Keeps key d addr c = λ w.
      Keeps-bind I R (forces z f r addr (r.remove_device w d.nwk_addr addr).1) _ (forced _) λ _ h v.
        (
          closed.left key h c v,
          saves_then-Keeps _ (tells_then-Keeps (removed_event key d.name) none),
        )
    where
      forced : (error : Option Error) → Keeps I R (forces z f r addr error)
      forced none = tt
      forced (some e) = λ w. tt

  removes-Keeps : (ieee : Str) → Keeps I R (removes z f r ieee)
  unfolding Keeps removes ◌>>=◌
  removes-Keeps ieee = λ h v. (
    closed.unchanged h v,
    elim (Option-cases (find h ieee)) [
      | inl missing ↦ rw missing tt
      | inr (d, found) ↦ elim (Option-cases (parse_ieee z ieee)) [
        | inl bad ↦ rw (found, bad) tt
        | inr (addr, good) ↦
            rw (found, good)
              (drops-Keeps (compact_ieee ieee) d addr (closed.known ieee h d found v))
      ]
    ],
  )

  refreshed_by-Keeps : (reply : Reply (List RawDevice)) → Keeps I R (refreshed_by z f r reply)
  unfolding Keeps refreshed_by ◌>>=◌
  refreshed_by-Keeps (err e) = tt
  refreshed_by-Keeps (ok raws) =
      λ h v. (closed.listed raws h v, saves_then-Keeps _ (tells_then-Keeps (devices_event _) none))

  permitted-Keeps :
      (seconds now : ℕ) (error : Option Error) → Keeps I R (permitted z f r seconds now error)
  unfolding Keeps permitted ◌>>=◌
  permitted-Keeps seconds now (some e) = tt
  permitted-Keeps seconds now none =
      λ h v. (closed.same h _ refl refl refl v, tells_then-Keeps (permit_join_event seconds _) none)

  ignoring-Keeps : {A : Type 0} (p : Routine World A) → Keeps I R p → Keeps I R (ignoring z f r p)
  ignoring-Keeps p kept = Keeps-bind I R p _ kept λ _. unfold Keeps in tt

  routine-Keeps : (m : Method) → JoinsIn z Joins m → Keeps I R (routine z f r m)
  unfolding routine
  routine-Keeps (turn_method ieee on now) j = turns-Keeps World z r Joins I R closed ieee on now
  routine-Keeps (brightness_method ieee percent now) j =
      brightens-Keeps World z r Joins I R closed ieee percent now
  routine-Keeps (toggle_method ieee now) j = toggles-Keeps World z r Joins I R closed ieee now
  routine-Keeps (recovery_method wake key) j =
      ignoring-Keeps (recovers z r wake key) (recovers-Keeps World z r Joins I R closed wake key)
  routine-Keeps (update_method ieee name kind archived) j = updates-Keeps ieee name kind archived
  routine-Keeps (remove_method ieee) j = removes-Keeps ieee
  routine-Keeps (join_method ev now) j =
      ignoring-Keeps (notes_joined (event_ieee z ev) (event_nwk ev) now)
        (notes_joined-Keeps (event_ieee z ev) (event_nwk ev) now j)
  routine-Keeps refresh_method j = unfold Keeps refreshes ◌>>=◌ in λ w. refreshed_by-Keeps _
  routine-Keeps (permit_method seconds now) j =
      unfold Keeps permits ◌>>=◌ in λ w. permitted-Keeps seconds now _
  routine-Keeps (interview_method ieee now) j =
      interviews-Keeps World z f r Joins I R closed ieee now

  pub routines-Keep :
      (ms : List Method) → All (JoinsIn z Joins) ms → AllKeep I R (routines z f r ms)
  unfolding routines
  routines-Keep [] j = tt
  routines-Keep (m ∷ ms) (j, js) = (routine-Keeps m j, routines-Keep ms js)
