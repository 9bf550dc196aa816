-- ===== src/Concurrent/Keeps/Reading.antt =====
-- Commands, the reading of a state and the recovery keep what each section keeps
-- (internal/hub/hub.go).
use zigbeemq.Zigbee.{Goznp}
use zigbeemq.Radio.{Radio}
use zigbeemq.Errors.{Error, not_found, Reply, ok, err}
use zigbeemq.Device.{Device, seen, is_light_like, is_light, is_motion}
use zigbeemq.Prelude.{Str, delete, ℕ, refl, Bool, false, ◌||◌, Option, none, some, List, [], ◌∷◌}
use zigbeemq.Hub.{Hub, find, modify}
use zigbeemq.Hub.Control.{read_occupancy}
use zigbeemq.Hub.Registry.Table.{KeepsIeee}
use zigbeemq.Concurrent.{Routine, ends, locked, change, ◌>>=◌}
use zigbeemq.Concurrent.Methods.{announces, with_device, turns, brightens}
use zigbeemq.Concurrent.Methods.Reading.{
  notes_on_off, notes, asks_on_off, asks_level, asks_motion, reads_on_off, reads_level,
  reads_motion, reads_parts, reads_state, toggled, toggles, tries, recovery_round, recovers_loop,
  recovers,
}
use zigbeemq.Concurrent.Keeps.{Keeps, Keeps-bind, if-Keeps}
use zigbeemq.Concurrent.Keeps.Closed.{
  IsClosed, change-Keeps, announces-Keeps, modify-Keeps, notes_unavailable-Keeps, settles-Keeps,
}

module _ (World : Type 0) (z : Goznp) (r : Radio World) (Joins : Str → Type 0) (I : Hub → Type 0)
    (R : Hub → Hub → Type 0) (closed : IsClosed z Joins I R) where
  notes-Keeps :
      {A : Type 0} (ieee : Str) (g : A → Device → Device) (reply : Reply A)
      → ((a : A) → KeepsIeee (g a))
      → Keeps {World = World} I R (notes ieee g reply)
  unfolding Keeps
  notes-Keeps ieee g (err e) keep = tt
  notes-Keeps ieee g (ok a) keep =
      Keeps-bind I R (change (modify ieee (g a))) _
        (modify-Keeps World z Joins I R closed ieee (g a) (keep a)) λ _. tt

  notes_on_off-Keeps :
      (ieee : Str) (now : ℕ) (reply : Reply Bool)
      → Keeps {World = World} I R (locked (notes_on_off ieee now reply) ends)
  unfolding Keeps
  notes_on_off-Keeps ieee now (err e) =
      λ h v. (closed.modified ieee (λ dev. record dev { reachable = false }) h (λ d. refl) v, tt)
  notes_on_off-Keeps ieee now (ok b) = λ h v.
      (closed.modified ieee (λ dev. record (seen now dev) { on = some b }) h (λ d. refl) v, tt)

  reads_parts-Keeps : (d : Device) (ieee : Str) (now : ℕ) → Keeps I R (reads_parts z r d ieee now)
  unfolding Keeps reads_parts ◌>>=◌
  reads_parts-Keeps d ieee now =
      Keeps-bind I R (reads_on_off z r d ieee now) _
        (if-Keeps I R (d.has_on_off || is_light_like d.kind) (asks_on_off z r d ieee now)
          (ends false)
          (λ w. notes_on_off-Keeps ieee now (r.get_on_off_state w d.nwk_addr d.endpoint).1) tt)
        λ a.
          Keeps-bind I R (reads_level z r d ieee now) _
            (if-Keeps I R (d.has_level || is_light d.kind) (asks_level z r d ieee now) (ends false)
              (λ w.
                notes-Keeps ieee _ (r.get_brightness w d.nwk_addr d.endpoint).1 (λ level d. refl))
              tt)
            λ b.
              Keeps-bind I R (reads_motion z r d ieee now) _
                (if-Keeps I R (d.has_occupancy || is_motion d.kind) (asks_motion z r d ieee now)
                  (ends false) (λ w. notes-Keeps ieee _ (read_occupancy z r d w).1 (λ occ d. refl))
                  tt)
                λ c. tt

  pub reads_state-Keeps : (ieee : Str) (now : ℕ) → Keeps I R (reads_state z r ieee now)
  unfolding Keeps reads_state ◌>>=◌
  reads_state-Keeps ieee now = λ h v. (closed.unchanged h v, found (find h ieee))
    where
      found :
          (o : Option Device)
          → Keeps I R (elim o [ none ↦ ends false | some d ↦ reads_parts z r d ieee now ])
      found none = tt
      found (some d) = reads_parts-Keeps d ieee now

  -- A method that begins with `Device`.
  pub with_device-Keeps :
      (ieee : Str) (rest : Device → Routine World (Option Error))
      → ((d : Device) → Keeps I R (rest d))
      → Keeps I R (with_device ieee rest)
  unfolding Keeps ◌>>=◌
  with_device-Keeps ieee rest kept = λ h v. (closed.unchanged h v, found (find h ieee))
    where
      found :
          (o : Option Device)
          → Keeps I R (elim o [ none ↦ ends (some not_found) | some d ↦ rest d ])
      found none = tt
      found (some d) = kept d

  pub turns-Keeps : (ieee : Str) (on : Bool) (now : ℕ) → Keeps I R (turns z r ieee on now)
  unfolding Keeps turns ◌>>=◌
  turns-Keeps ieee on now =
      with_device-Keeps ieee _ λ d w. settles-Keeps World z Joins I R closed ieee _ _ (λ dev. refl)

  pub brightens-Keeps : (ieee : Str) (percent now : ℕ) → Keeps I R (brightens z r ieee percent now)
  unfolding Keeps brightens ◌>>=◌
  brightens-Keeps ieee percent now =
      with_device-Keeps ieee _ λ d w. settles-Keeps World z Joins I R closed ieee _ _ (λ dev. refl)

  toggled-Keeps :
      (ieee : Str) (now : ℕ) (error : Option Error) → Keeps I R (toggled z r ieee now error)
  unfolding Keeps toggled
  toggled-Keeps ieee now (some e) = notes_unavailable-Keeps World z Joins I R closed ieee e
  toggled-Keeps ieee now none =
      Keeps-bind I R (reads_state z r ieee now) _ (reads_state-Keeps ieee now) λ reached.
        Keeps-bind I R (announces ieee) _ (announces-Keeps World z Joins I R closed ieee) λ _. tt

  pub toggles-Keeps : (ieee : Str) (now : ℕ) → Keeps I R (toggles z r ieee now)
  unfolding Keeps toggles ◌>>=◌
  toggles-Keeps ieee now = with_device-Keeps ieee _ λ d w. toggled-Keeps ieee now _

  recovery_round-Keeps :
      (key : Str) (now : ℕ) (later : Routine World (Unit {0})) (found : Option Device)
      → Keeps I R later
      → Keeps I R (recovery_round z r key now later found)
  unfolding Keeps
  recovery_round-Keeps key now later none kept = tt
  recovery_round-Keeps key now later (some d) kept =
      if-Keeps I R d.archived (ends tt) (tries z r key now later) tt (
        Keeps-bind I R (reads_state z r key now) _ (reads_state-Keeps key now) λ reached.
          if-Keeps I R reached (announces key) later (announces-Keeps World z Joins I R closed key)
            kept)

  recovers_loop-Keeps :
      (wake : ℕ → ℕ) (delays : List ℕ) (key : Str) → Keeps I R (recovers_loop z r wake delays key)
  unfolding Keeps recovers_loop ◌>>=◌
  recovers_loop-Keeps wake [] key = tt
  recovers_loop-Keeps wake (delay ∷ delays) key = λ h v. (
    closed.unchanged h v,
    recovery_round-Keeps key (wake delay) (recovers_loop z r wake delays key) (find h key)
        (recovers_loop-Keeps wake delays key),
  )

  pub recovers-Keeps : (wake : ℕ → ℕ) (key : Str) → Keeps I R (recovers z r wake key)
  unfolding recovers Keeps
  recovers-Keeps wake key =
      Keeps-bind I R (recovers_loop z r wake (3 ∷ 10 ∷ 30 ∷ 60 ∷ 120 ∷ []) key) _
        (recovers_loop-Keeps wake (3 ∷ 10 ∷ 30 ∷ 60 ∷ 120 ∷ []) key)
        λ _.
          change-Keeps World z Joins I R closed
            (λ h. record h { recovering = delete key h.recovering })
            (λ h v. closed.same h _ refl refl refl v)
