-- ===== src/Incoming/Press/Laws.antt =====
-- Every gesture that the press detector notes is backed by a movement of the button, whatever the
-- order of timers and frames.
use zigbeemq.Prelude.{
  ◌==◌, ==_iff, Bool-cases, All, Str, str_eq_iff, Assoc, lookup, insert, delete, lookup-insert,
  lookup-delete, ℕ, ◌+◌, ◌<◌, ◌≡◌, refl, ◌≢◌, inl, inr, true, false, ◌&&◌, not, Option, none, some,
  List, [], ◌∷◌, arith,
}
use zigbeemq.Incoming.Press.{
  Watch, Timer, Presses, stop, stop_of, start_press, finish_watch, cancel_press, find_timer,
  start_callback, drop_timer, callback, fire_timer, Input, pressed, released, cancelled, expires,
  fires, step,
}

-- A timer whose watch is the current one finds it as its callback expects.
abbrev pub Fits : Option Watch → Timer → Type 0
Fits none t = Unit
Fits (some w) t = w.id ≡ t.id → (w.held ≡ false) × (w.up ≡ not t.for_hold)

abbrev pub OkTimer : Assoc Watch → ℕ → Timer → Type 0
OkTimer watches next t = (t.id < next) × Fits (lookup t.ieee watches) t

abbrev pub IsSound : Presses → Type 0
IsSound p = All (OkTimer p.watches p.next) p.timers

stop-All {ℓ} : (P : Timer → Type ℓ) (id : ℕ) (ts : List Timer) → All P ts → All P (stop id ts)
unfolding stop
stop-All P id [] h = tt
stop-All P id (t ∷ ts) (q, h) = elim (Bool-cases (t.id == id && not t.running)) [
  | inl e ↦ rw e (stop-All P id ts h)
  | inr e ↦ rw e (q, stop-All P id ts h)
]

stop_of-All {ℓ} :
    (P : Timer → Type ℓ) (w : Option Watch) (ts : List Timer) → All P ts → All P (stop_of w ts)
stop_of-All P none ts h = h
stop_of-All P (some w) ts h = stop-All P w.id ts h

All-map {ℓ κ} :
    {A : Type ℓ} (P Q : A → Type κ) (xs : List A) → ((x : A) → P x → Q x) → All P xs → All Q xs
All-map P Q [] f h = tt
All-map P Q (x ∷ xs) f (p, h) = (f x p, All-map P Q xs f h)

-- A new watch takes a number that no timer has.
OkTimer-insert :
    (ieee : Str) (w : Watch) (m : Assoc Watch) (n : ℕ) (t : Timer)
    → w.id ≡ n
    → OkTimer m n t
    → OkTimer (insert ieee w m) (n + 1) t
OkTimer-insert ieee w m n t e (lt, f) =
    (omega arith, rw (lookup-insert ieee t.ieee w m) (ground arith))

OkTimer-delete :
    (ieee : Str) (m : Assoc Watch) (n : ℕ) (t : Timer) → OkTimer m n t → OkTimer (delete ieee m) n t
OkTimer-delete ieee m n t (lt, f) = (lt, rw (lookup-delete ieee t.ieee m) (ground arith))

OkTimer-held :
    (ieee : Str) (w : Watch) (m : Assoc Watch) (n : ℕ) (t : Timer)
    → w.id ≢ t.id
    → OkTimer m n t
    → OkTimer (insert ieee w m) n t
OkTimer-held ieee w m n t e (lt, f) = (lt, rw (lookup-insert ieee t.ieee w m) (ground arith))

OkTimer-next : (m : Assoc Watch) (n : ℕ) (t : Timer) → OkTimer m n t → OkTimer m (n + 1) t
OkTimer-next m n t (lt, f) = (omega arith, f)

start_press-IsSound : (ieee : Str) (p : Presses) → IsSound p → IsSound (start_press ieee p).0
unfolding start_press
start_press-IsSound ieee p h = (
  (
    omega arith,
    rw (lookup-insert ieee ieee _ p.watches, (str_eq_iff ieee ieee).1 refl) (λ _. (refl, refl)),
  ),
  All-map _ _ (stop_of (lookup ieee p.watches) p.timers)
      (λ t. OkTimer-insert ieee _ p.watches p.next t refl)
      (stop_of-All _ (lookup ieee p.watches) p.timers h),
)

finish_watch-IsSound :
    (ieee : Str) (p : Presses) (w : Option Watch) → IsSound p → IsSound (finish_watch ieee p w).0
unfolding finish_watch
finish_watch-IsSound ieee p none h = h
finish_watch-IsSound ieee p (some w) h = elim (Bool-cases w.held) [
  | inl held ↦ rw held (
      All-map _ _ (stop w.id p.timers) (OkTimer-delete ieee p.watches p.next)
        (stop-All _ w.id p.timers h))
  | inr free ↦ rw free (
    (
      omega arith,
      rw (lookup-insert ieee ieee _ p.watches, (str_eq_iff ieee ieee).1 refl) (λ _. (refl, refl)),
    ),
    All-map _ _ (stop w.id p.timers) (λ t. OkTimer-insert ieee _ p.watches p.next t refl)
        (stop-All _ w.id p.timers h),
  )
]

cancel_press-IsSound : (ieee : Str) (p : Presses) → IsSound p → IsSound (cancel_press ieee p)
unfolding cancel_press
cancel_press-IsSound ieee p h =
    All-map _ _ (stop_of (lookup ieee p.watches) p.timers) (OkTimer-delete ieee p.watches p.next)
      (stop_of-All _ (lookup ieee p.watches) p.timers h)

Fits-running : (w : Option Watch) (t : Timer) → Fits w t → Fits w (record t { running = true })
Fits-running none t f = tt
Fits-running (some w) t f = f

OkTimer-running :
    (m : Assoc Watch) (n : ℕ) (t : Timer)
    → OkTimer m n t
    → Fits (lookup t.ieee m) (record t { running = true })
OkTimer-running m n t q = Fits-running (lookup t.ieee m) t q.1

start_callback-All :
    (m : Assoc Watch) (n id : ℕ) (ts : List Timer)
    → All (OkTimer m n) ts
    → All (OkTimer m n) (start_callback id ts)
unfolding start_callback
start_callback-All m n id [] h = tt
start_callback-All m n id (t ∷ ts) (q, h) = elim (Bool-cases (t.id == id)) [
  | inl e ↦ rw e ((q.0, OkTimer-running m n t q), start_callback-All m n id ts h)
  | inr e ↦ rw e (q, start_callback-All m n id ts h)
]

-- What is left after `drop_timer` has another number.
drop_timer-All {ℓ} :
    (P : Timer → Type ℓ) (id : ℕ) (ts : List Timer)
    → All P ts
    → All (λ t. (t.id ≢ id) × P t) (drop_timer id ts)
unfolding drop_timer
drop_timer-All P id [] h = tt
drop_timer-All P id (t ∷ ts) (q, h) = elim (Bool-cases (t.id == id)) [
  | inl e ↦ rw e (drop_timer-All P id ts h)
  | inr e ↦ rw e (((ground arith), q), drop_timer-All P id ts h)
]

-- The timer that `find_timer` finds is one of the list.
pub find_timer-All {ℓ} :
    (P : Timer → Type ℓ) (id : ℕ) (ts : List Timer) {t : Timer}
    → find_timer id ts ≡ some t
    → All P ts
    → (t.id ≡ id) × P t
unfolding find_timer
find_timer-All P id [] e h = cc
find_timer-All P id (s ∷ ts) {t} e (q, h) = elim (Bool-cases (s.id == id)) [
  | inl same ↦ let k : s ≡ t = ground arith in rw (← k) ((==_iff s.id id).0 same, q)
  | inr other ↦ find_timer-All P id ts (ground arith) h
]

-- After the callback of `t` no timer of that number is left, so the other timers do not mind what it
-- does to the watch.
callback-IsSound :
    (t : Timer) (p : Presses) (w : Option Watch)
    → lookup t.ieee p.watches ≡ w
    → All (λ s. (s.id ≢ t.id) × OkTimer p.watches p.next s) p.timers
    → IsSound (callback t p w).0
unfolding callback
callback-IsSound t p none e h = All-map _ _ p.timers (λ s q. q.1) h
callback-IsSound t p (some cur) e h = elim (Bool-cases (cur.id == t.id)) [
  | inr stale ↦ rw stale (All-map _ _ p.timers (λ s q. q.1) h)
  | inl same ↦ elim (Bool-cases t.for_hold) [
    | inl hold ↦
        rw (same, hold)
          (All-map _ _ p.timers
            (λ s q.
              OkTimer-held t.ieee (record cur { held = true }) p.watches p.next s (ground arith)
                q.1)
            h)
    | inr click ↦
        rw (same, click)
          (All-map _ _ p.timers (λ s q. OkTimer-delete t.ieee p.watches p.next s q.1) h)
  ]
]

fire_timer-IsSound :
    (id : ℕ) (p : Presses) (t : Option Timer)
    → find_timer id p.timers ≡ t
    → IsSound p
    → IsSound (fire_timer id p t).0
unfolding fire_timer
fire_timer-IsSound id p none e h = h
fire_timer-IsSound id p (some t) e h = elim (Bool-cases t.running) [
  | inr armed ↦ rw armed h
  | inl running ↦
      let same =
        (find_timer-All (λ _. Unit {0}) id p.timers e (All-map _ _ p.timers (λ _ _. tt) h)).0 in
      rw running (
        callback-IsSound t (record p { timers = drop_timer id p.timers }) (lookup t.ieee p.watches)
          refl (rw same (drop_timer-All _ id p.timers h)))
]

-- Every input keeps the invariant.
pub step-IsSound : (i : Input) (p : Presses) → IsSound p → IsSound (step i p).0
unfolding step
step-IsSound (pressed ieee) p h = start_press-IsSound ieee p h
step-IsSound (released ieee) p h = finish_watch-IsSound ieee p (lookup ieee p.watches) h
step-IsSound (cancelled ieee) p h = cancel_press-IsSound ieee p h
step-IsSound (expires id) p h = start_callback-All p.watches p.next id p.timers h
step-IsSound (fires id) p h = fire_timer-IsSound id p (find_timer id p.timers) refl h
