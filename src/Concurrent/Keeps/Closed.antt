-- ===== src/Concurrent/Keeps/Closed.antt =====
-- A property of the hub that the critical sections keep, one by one, is kept by all methods.
use zigbeemq.Zigbee.{RawDevice, Goznp}
use zigbeemq.Errors.{Error, is_unreachable}
use zigbeemq.Ieee.{compact_ieee}
use zigbeemq.Device.{Device}
use zigbeemq.Prelude.{
  if◌then◌else◌, Bool-cases, Str, str_eq, ℕ, ◌≡◌, refl, inl, inr, Option, none, some, List, [],
  arith,
}
use zigbeemq.Hub.{Event, CacheFile, Hub, find, modify, broadcast}
use zigbeemq.Hub.Control.{set_unavailable}
use zigbeemq.Hub.Registry.{refresh_table}
use zigbeemq.Hub.Registry.Table.{KeepsIeee}
use zigbeemq.Hub.Registry.Canonical.{IsCompact}
use zigbeemq.Concurrent.{ends, change, ask, ◌>>=◌}
use zigbeemq.Concurrent.Methods.{
  is_archived, marks_recovering, looks_up, tells, announces, saves, starts_recovery,
  notes_unavailable, settles,
}
use zigbeemq.Concurrent.Methods.Registry.{enters, leaves}
use zigbeemq.Concurrent.Keeps.{Keeps, Keeps-bind, if-Keeps}

abbrev file_of : Hub → CacheFile
file_of h = record { devices = h.devices; forgotten = h.forgotten }

-- The property `I` of the hub is kept by each kind of critical section, which changes the hub only as
-- `R` allows; devices may join under the addresses in `Joins`.
pub record IsClosed (z : Goznp) (Joins : Str → Type 0) (I : Hub → Type 0) (R : Hub → Hub → Type 0)
    : Type 0 where
  pub unchanged : (h : Hub) → I h → I h × R h h
  pub same :
      (h h' : Hub)
      → h'.devices ≡ h.devices
      → h'.forgotten ≡ h.forgotten
      → h'.disk ≡ h.disk
      → I h
      → I h' × R h h'
  pub stored :
      (h h' : Hub)
      → I h
      → I h'
      → let h'' = record h' { disk = some (file_of h) } in I h'' × R h' h''
  pub cut : (h : Hub) → I h → I (record h { disk = none }) × R h (record h { disk = none })
  pub modified :
      (ieee : Str) (g : Device → Device) (h : Hub)
      → KeepsIeee g
      → I h
      → I (modify ieee g h) × R h (modify ieee g h)
  pub entered :
      (key : Str) (nwk now : ℕ) (h : Hub)
      → Joins key
      → I h
      → I (enters key nwk now h) × R h (enters key nwk now h)
  pub left : (key : Str) (h : Hub) → IsCompact key → I h → I (leaves key h) × R h (leaves key h)
  pub known :
      (ieee : Str) (h : Hub) (d : Device)
      → find h ieee ≡ some d
      → I h
      → IsCompact (compact_ieee ieee)
  pub listed :
      (raws : List RawDevice) (h : Hub)
      → I h
      → I (refresh_table z raws h) × R h (refresh_table z raws h)

module _ (World : Type 0) (z : Goznp) (Joins : Str → Type 0) (I : Hub → Type 0)
    (R : Hub → Hub → Type 0) (closed : IsClosed z Joins I R) where
  looks_up-Keeps : (ieee : Str) → Keeps {World = World} I R (looks_up ieee)
  unfolding Keeps
  looks_up-Keeps ieee = λ h v. (closed.unchanged h v, tt)

  pub change-Keeps :
      (g : Hub → Hub)
      → ((h : Hub) → I h → I (g h) × R h (g h))
      → Keeps {World = World} I R (change g)
  unfolding Keeps
  change-Keeps g keep = λ h v. (keep h v, tt)

  ask-Keeps : {B : Type 0} (call : World → World × B) → Keeps I R (ask call)
  unfolding Keeps
  ask-Keeps call = λ w. tt

  pub tells-Keeps : (ev : Event) → Keeps {World = World} I R (tells ev)
  tells-Keeps ev = change-Keeps (broadcast ev) (λ h v.
      closed.same h (broadcast ev h) (unfold broadcast in refl) (unfold broadcast in refl)
        (unfold broadcast in refl) v)

  pub announces-Keeps : (ieee : Str) → Keeps {World = World} I R (announces ieee)
  unfolding Keeps broadcast ◌>>=◌
  announces-Keeps ieee =
      λ h v. (closed.unchanged h v, λ h' v'. (closed.same h' _ refl refl refl v', tt))

  pub saves-Keeps : Keeps {World = World} I R saves
  unfolding Keeps ◌>>=◌
  saves-Keeps = λ h v. (
    closed.unchanged h v,
    elim (Bool-cases (str_eq h.data_dir [])) [
      | inl memory ↦ rw memory tt
      | inr file ↦ rw file (λ h' v'. (closed.cut h' v', λ h'' v''. (closed.stored h h'' v v'', tt)))
    ],
  )

  pub modify-Keeps :
      (ieee : Str) (g : Device → Device)
      → KeepsIeee g
      → Keeps {World = World} I R (change (modify ieee g))
  modify-Keeps ieee g keep = change-Keeps (modify ieee g) (λ h. closed.modified ieee g h keep)

  starts_recovery-Keeps : (ieee : Str) → Keeps {World = World} I R (starts_recovery ieee)
  unfolding Keeps starts_recovery ◌>>=◌
  starts_recovery-Keeps ieee = λ h v. (
    closed.unchanged h v,
    elim (Bool-cases (is_archived (find h (compact_ieee ieee)))) [
      | inl archived ↦ rw archived tt
      | inr active ↦ rw active (λ h' v'. (
        closed.same h' (marks_recovering (compact_ieee ieee) h') (ground arith) (ground arith)
            (ground arith) v',
        tt,
      ))
    ],
  )

  pub notes_unavailable-Keeps :
      (ieee : Str) (e : Error) → Keeps {World = World} I R (notes_unavailable ieee e)
  unfolding notes_unavailable Keeps
  notes_unavailable-Keeps ieee e =
      Keeps-bind I R (change (modify ieee (set_unavailable e))) _
        (modify-Keeps ieee (set_unavailable e) (λ d. refl))
        λ _. Keeps-bind I R (announces ieee) _ (announces-Keeps ieee) λ _.
          Keeps-bind I R (if is_unreachable e then starts_recovery ieee else ends tt) _
            (if-Keeps I R (is_unreachable e) (starts_recovery ieee) (ends tt)
              (starts_recovery-Keeps ieee) tt)
            λ _. tt

  pub settles-Keeps :
      (ieee : Str) (g : Device → Device) (error : Option Error)
      → KeepsIeee g
      → Keeps {World = World} I R (settles ieee g error)
  unfolding settles Keeps
  settles-Keeps ieee g (some e) keep = notes_unavailable-Keeps ieee e
  settles-Keeps ieee g none keep =
      Keeps-bind I R (change (modify ieee g)) _ (modify-Keeps ieee g keep)
        λ _. Keeps-bind I R (announces ieee) _ (announces-Keeps ieee) λ _. tt
