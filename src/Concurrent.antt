-- ===== src/Concurrent.antt =====
-- Goroutines that use the hub at the same time (internal/hub/hub.go): each is a sequence of critical
-- sections of the hub's locks and of calls of the radio under its own lock, and between two of them
-- any other goroutine may run.
pub mod Methods
pub mod Alone
pub mod Pool
pub mod Keeps
pub mod Ends
use zigbeemq.Prelude.{◌≡◌, refl}
use zigbeemq.Hub.{Hub}

-- The rest of a goroutine, up to its result.
pub data Routine (World A : Type 0) : Type 1 where
  ends : A → Routine World A
  locked : {B : Type 0} → (Hub → Hub × B) → (B → Routine World A) → Routine World A
  asks : {B : Type 0} → (World → World × B) → (B → Routine World A) → Routine World A

module _ {World : Type 0} where
  infixl 5 ◌>>=◌ ◌>>◌
  unfoldable pub ◌>>=◌ : {A B : Type 0} → Routine World A → (A → Routine World B) → Routine World B
  ◌>>=◌ (ends a) f = f a
  ◌>>=◌ (locked section rest) f = locked section (λ b. rest b >>= f)
  ◌>>=◌ (asks call rest) f = asks call (λ b. rest b >>= f)

  abbrev pub ◌>>◌ : {B : Type 0} → Routine World (Unit {0}) → Routine World B → Routine World B
  m >> k = m >>= λ _. k

  -- A critical section that only reads, one that only writes, and a call under the radio's lock.
  abbrev pub look : {B : Type 0} → (Hub → B) → Routine World B
  look f = locked (λ h. (h, f h)) ends

  abbrev pub change : (Hub → Hub) → Routine World (Unit {0})
  change f = locked (λ h. (f h, tt)) ends

  abbrev pub ask : {B : Type 0} → (World → World × B) → Routine World B
  ask call = asks call ends

  -- The goroutine with no other beside it.
  pub run_alone : {A : Type 0} → Routine World A → Hub → World → Hub × World × A
  run_alone (ends a) h w = (h, w, a)
  run_alone (locked section rest) h w = let (h', b) = section h in run_alone (rest b) h' w
  run_alone (asks call rest) h w = let (w', b) = call w in run_alone (rest b) h w'

  pub run_alone-bind :
      {A B : Type 0} (p : Routine World A) (f : A → Routine World B) (h : Hub) (w : World)
      → run_alone (p >>= f) h w ≡ (let (h', w', a) = run_alone p h w in run_alone (f a) h' w')
  unfolding run_alone ◌>>=◌
  run_alone-bind (ends a) f h w = refl
  run_alone-bind (locked section rest) f h w = run_alone-bind (rest (section h).1) f (section h).0 w
  run_alone-bind (asks call rest) f h w = run_alone-bind (rest (call w).1) f h (call w).0
