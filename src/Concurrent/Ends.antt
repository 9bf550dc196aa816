-- ===== src/Concurrent/Ends.antt =====
-- How many sections and calls a goroutine still has before it ends.
pub mod Methods
pub mod Interview
pub mod Bound
use zigbeemq.Prelude.{
  ◌==◌, if◌then◌else◌, Bool-cases, ℕ, zero, suc, ◌+◌, ◌-◌, ◌≤◌, ◌<◌, ◌≡◌, refl, inl, inr, Bool,
  true, false, Option, List, [], ◌∷◌, arith,
}
use zigbeemq.Hub.{Hub}
use zigbeemq.Errors.{Error}
use zigbeemq.Concurrent.{Routine, ends, locked, asks, ◌>>=◌}
use zigbeemq.Concurrent.Pool.{Pool, advance, advance_at, run_pool}

abbrev has_ended : {World A : Type 0} → Routine World A → Bool
has_ended (ends a) = true
has_ended (locked section rest) = false
has_ended (asks call rest) = false

-- How often a schedule names the goroutine `i`.
unfoldable pub times : ℕ → List ℕ → ℕ
times i [] = 0
times i (j ∷ schedule) = let rest = times i schedule in if j == i then rest + 1 else rest

module _ {World : Type 0} where
  -- The routine ends after at most `n` sections and calls, whatever they give.
  pub Within : {A : Type 0} → Routine World A → ℕ → Type 0
  Within (ends a) n = Unit
  Within (locked {B} section rest) n = (0 < n) × ((b : B) → Within (rest b) (n - 1))
  Within (asks {B} call rest) n = (0 < n) × ((b : B) → Within (rest b) (n - 1))

  pub Within-le : {A : Type 0} (p : Routine World A) (m n : ℕ) → m ≤ n → Within p m → Within p n
  unfolding Within
  Within-le (ends a) m n le bound = tt
  Within-le (locked section rest) m n le (some_left, bound) =
      (omega arith, λ b. Within-le (rest b) (m - 1) (n - 1) (omega arith) (bound b))
  Within-le (asks call rest) m n le (some_left, bound) =
      (omega arith, λ b. Within-le (rest b) (m - 1) (n - 1) (omega arith) (bound b))

  pub Within-bind :
      {A B : Type 0} (p : Routine World A) (f : A → Routine World B) (m n : ℕ)
      → Within p m
      → ((a : A) → Within (f a) n)
      → Within (p >>= f) (m + n)
  unfolding Within ◌>>=◌
  Within-bind (ends a) f m n bound later = Within-le (f a) n (m + n) (omega arith) (later a)
  Within-bind (locked section rest) f m n (some_left, bound) later = (
    omega arith,
    λ b.
        Within-le (rest b >>= f) (m - 1 + n) (m + n - 1) (omega arith)
          (Within-bind (rest b) f (m - 1) n (bound b) later),
  )
  Within-bind (asks call rest) f m n (some_left, bound) later = (
    omega arith,
    λ b.
        Within-le (rest b >>= f) (m - 1 + n) (m + n - 1) (omega arith)
          (Within-bind (rest b) f (m - 1) n (bound b) later),
  )

  -- The goroutine `i` of a pool.
  pub WithinAt : ℕ → ℕ → Pool World → Type 0
  WithinAt i n [] = Unit
  WithinAt zero n (p ∷ ps) = Within p n
  WithinAt (suc i) n (p ∷ ps) = WithinAt i n ps

  pub EndedAt : ℕ → Pool World → Type 0
  EndedAt i [] = Unit
  EndedAt zero (p ∷ ps) = has_ended p ≡ true
  EndedAt (suc i) (p ∷ ps) = EndedAt i ps

  advance-Within :
      (p : Routine World (Option Error)) (n : ℕ) (h : Hub) (w : World)
      → Within p n
      → Within (advance p h w).2 (n - 1)
  unfolding advance Within
  advance-Within (ends a) n h w bound = tt
  advance-Within (locked section rest) n h w (some_left, bound) = bound (section h).1
  advance-Within (asks call rest) n h w (some_left, bound) = bound (call w).1

  advance_at-own :
      (i n : ℕ) (ps : Pool World) (h : Hub) (w : World)
      → WithinAt i n ps
      → WithinAt i (n - 1) (advance_at i ps h w).2
  unfolding advance_at WithinAt
  advance_at-own i n [] h w bound = tt
  advance_at-own zero n (p ∷ ps) h w bound = advance-Within p n h w bound
  advance_at-own (suc i) n (p ∷ ps) h w bound = advance_at-own i n ps h w bound

  advance_at-other :
      (i j n : ℕ) (ps : Pool World) (h : Hub) (w : World)
      → (j == i) ≡ false
      → WithinAt i n ps
      → WithinAt i n (advance_at j ps h w).2
  unfolding advance_at WithinAt
  advance_at-other i j n [] h w apart bound = tt
  advance_at-other zero zero n (p ∷ ps) h w apart bound = absurd (ground arith)
  advance_at-other zero (suc j) n (p ∷ ps) h w apart bound = bound
  advance_at-other (suc i) zero n (p ∷ ps) h w apart bound = bound
  advance_at-other (suc i) (suc j) n (p ∷ ps) h w apart bound =
      advance_at-other i j n ps h w (ground arith) bound

  WithinAt-0 : (i : ℕ) (ps : Pool World) → WithinAt i 0 ps → EndedAt i ps
  unfolding WithinAt EndedAt Within
  WithinAt-0 i [] bound = tt
  WithinAt-0 zero (ends a ∷ ps) bound = refl
  WithinAt-0 zero (locked section rest ∷ ps) (some_left, bound) = absurd (omega arith)
  WithinAt-0 zero (asks call rest ∷ ps) (some_left, bound) = absurd (omega arith)
  WithinAt-0 (suc i) (p ∷ ps) bound = WithinAt-0 i ps bound

  WithinAt-of : (i m n : ℕ) (ps : Pool World) → m ≡ n → WithinAt i m ps → WithinAt i n ps
  WithinAt-of i m n ps e bound = rw e at bound

  run_pool-WithinAt :
      (i n : ℕ) (schedule : List ℕ) (ps : Pool World) (h : Hub) (w : World)
      → WithinAt i n ps
      → WithinAt i (n - times i schedule) (run_pool schedule ps h w).2
  unfolding run_pool times
  run_pool-WithinAt i n [] ps h w bound = WithinAt-of i n (n - 0) ps (omega arith) bound
  run_pool-WithinAt i n (j ∷ schedule) ps h w bound =
      let (h', w', ps') = advance_at j ps h w in
      let last = (run_pool schedule ps' h' w').2 in
      elim (Bool-cases (j == i)) [
        | inl own ↦
            let same : j ≡ i = ground arith in
            let one : WithinAt i (n - 1) ps' = rw same (advance_at-own i n ps h w bound) in
            WithinAt-of i (n - 1 - times i schedule) _ last (ground arith)
              (run_pool-WithinAt i (n - 1) schedule ps' h' w' one)
        | inr apart ↦
            WithinAt-of i (n - times i schedule) _ last (ground arith)
              (run_pool-WithinAt i n schedule ps' h' w' (advance_at-other i j n ps h w apart bound))
      ]

  -- A goroutine that is within `n` sections of its end has ended once it had `n` turns.
  pub EndedAt-times :
      (i n : ℕ) (schedule : List ℕ) (ps : Pool World) (h : Hub) (w : World)
      → n ≤ times i schedule
      → WithinAt i n ps
      → EndedAt i (run_pool schedule ps h w).2
  EndedAt-times i n schedule ps h w enough bound =
      let last = (run_pool schedule ps h w).2 in
      WithinAt-0 i last (
        WithinAt-of i (n - times i schedule) 0 last (omega arith)
          (run_pool-WithinAt i n schedule ps h w bound))
