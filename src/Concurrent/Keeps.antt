-- ===== src/Concurrent/Keeps.antt =====
-- What every interleaving keeps: a property of the hub that each critical section keeps, and a relation
-- between the hub before and after.
pub mod Closed
pub mod Reading
pub mod Interview
pub mod Registry
pub mod Table
pub mod Removed
use zigbeemq.Prelude.{if◌then◌else◌, ℕ, zero, suc, Bool, true, false, Option, List, [], ◌∷◌}
use zigbeemq.Hub.{Hub}
use zigbeemq.Errors.{Error}
use zigbeemq.Concurrent.{Routine, ends, locked, asks, ◌>>=◌}
use zigbeemq.Concurrent.Pool.{Pool, advance, advance_at, run_pool}

module _ {World : Type 0} (I : Hub → Type 0) (R : Hub → Hub → Type 0) where
  -- Each section keeps the property and changes the hub only in the way allowed, and so does what is
  -- left, with the results that a section may have where the property holds, and any answer of the
  -- radio.
  unfoldable pub Keeps : {A : Type 0} → Routine World A → Type 0
  Keeps (ends a) = Unit
  Keeps (locked section rest) =
      (h : Hub) → I h → (I (section h).0 × R h (section h).0) × Keeps (rest (section h).1)
  Keeps (asks call rest) = (w : World) → Keeps (rest (call w).1)

  pub Keeps-bind :
      {A B : Type 0} (p : Routine World A) (f : A → Routine World B)
      → Keeps p
      → ((a : A) → Keeps (f a))
      → Keeps (p >>= f)
  unfolding Keeps ◌>>=◌
  Keeps-bind (ends a) f kept later = later a
  Keeps-bind (locked section rest) f kept later =
      λ h v. ((kept h v).0, Keeps-bind (rest (section h).1) f (kept h v).1 later)
  Keeps-bind (asks call rest) f kept later = λ w. Keeps-bind (rest (call w).1) f (kept w) later

  pub if-Keeps :
      {A : Type 0} (b : Bool) (p q : Routine World A)
      → Keeps p
      → Keeps q
      → Keeps (if b then p else q)
  if-Keeps true p q kept apart = kept
  if-Keeps false p q kept apart = apart

  abbrev pub AllKeep : Pool World → Type 0
  AllKeep [] = Unit
  AllKeep (p ∷ ps) = Keeps p × AllKeep ps

module _ {World : Type 0} (I : Hub → Type 0) (R : Hub → Hub → Type 0) (still : (h : Hub) → R h h)
    (chained : (h h' h'' : Hub) → R h h' → R h' h'' → R h h'') where
  advance-Keeps :
      (p : Routine World (Option Error)) (h : Hub) (w : World)
      → Keeps I R p
      → I h
      → (I (advance p h w).0 × R h (advance p h w).0) × Keeps I R (advance p h w).2
  unfolding Keeps advance
  advance-Keeps (ends a) h w kept v = ((v, still h), tt)
  advance-Keeps (locked section rest) h w kept v = kept h v
  advance-Keeps (asks call rest) h w kept v = ((v, still h), kept w)

  advance_at-Keeps :
      (i : ℕ) (ps : Pool World) (h : Hub) (w : World)
      → AllKeep I R ps
      → I h
      → (I (advance_at i ps h w).0 × R h (advance_at i ps h w).0)
        × AllKeep I R (advance_at i ps h w).2
  unfolding advance_at
  advance_at-Keeps i [] h w kept v = ((v, still h), tt)
  advance_at-Keeps zero (p ∷ ps) h w (kept, others) v =
      let (v', kept') = advance-Keeps p h w kept v in (v', (kept', others))
  advance_at-Keeps (suc i) (p ∷ ps) h w (kept, others) v =
      let (v', others') = advance_at-Keeps i ps h w others v in (v', (kept, others'))

  -- Whatever the schedule, the property holds all the time, and from one moment to a later one the hub
  -- changes only in the way allowed.
  pub run_pool-Keeps :
      (schedule : List ℕ) (ps : Pool World) (h : Hub) (w : World)
      → AllKeep I R ps
      → I h
      → (I (run_pool schedule ps h w).0 × R h (run_pool schedule ps h w).0)
        × AllKeep I R (run_pool schedule ps h w).2
  unfolding run_pool
  run_pool-Keeps [] ps h w kept v = ((v, still h), kept)
  run_pool-Keeps (i ∷ schedule) ps h w kept v =
      let ((v', changed), kept') = advance_at-Keeps i ps h w kept v in
      let ((v'', later), kept'') =
        run_pool-Keeps schedule (advance_at i ps h w).2 (advance_at i ps h w).0
          (advance_at i ps h w).1 kept' v' in
      ((v'', chained h _ _ changed later), kept'')
