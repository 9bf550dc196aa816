-- ===== src/Incoming/Press/Gestures.antt =====
-- The gestures that the press detector notes, counted against the movements of the button, whatever
-- the order of frames and timers.
use zigbeemq.Prelude.{
  if◌then◌else◌, Bool-cases, Str, str_eq, str_eq_iff, lookup, lookup-insert, lookup-delete, ℕ, zero,
  suc, ◌+◌, ◌≤◌, ◌≡◌, refl, inl, inr, Bool, true, false, ◌&&◌, ◌||◌, Option, none, some, List, [],
  ◌∷◌, arith,
}
use zigbeemq.Incoming.Press.Laws.{Fits, OkTimer, IsSound, find_timer-All, step-IsSound}
use zigbeemq.Incoming.Action.{Action, single, hold, release}
use zigbeemq.Incoming.Press.{
  Watch, Timer, Presses, no_presses, start_press, finish_watch, cancel_press, find_timer,
  drop_timer, callback, fire_timer, Input, pressed, released, cancelled, expires, fires, step, note,
  Detector, Move, locks, notes, take_call, run, inputs_of,
}

abbrev pub is_click : Action → Bool
is_click single = true
is_click release = true
is_click _ = false

abbrev pub is_hold : Action → Bool
is_hold hold = true
is_hold _ = false

abbrev pub is_release : Action → Bool
is_release release = true
is_release _ = false

-- How many of the actions noted for the button `k` pass the test.
abbrev pub tally : Str → (Action → Bool) → List (Str × Action) → ℕ
tally k test [] = 0
tally k test ((ieee, a) ∷ noted) = (if str_eq ieee k && test a then 1 else 0) + tally k test noted

abbrev pub presses_of : Str → List Input → ℕ
presses_of k [] = 0
presses_of k (pressed ieee ∷ inputs) = (if str_eq ieee k then 1 else 0) + presses_of k inputs
presses_of k (_ ∷ inputs) = presses_of k inputs

abbrev pub releases_of : Str → List Input → ℕ
releases_of k [] = 0
releases_of k (released ieee ∷ inputs) = (if str_eq ieee k then 1 else 0) + releases_of k inputs
releases_of k (_ ∷ inputs) = releases_of k inputs

-- What the watch of a button can still give rise to: a click, a hold, a release.
abbrev click_credit : Option Watch → ℕ
click_credit none = 0
click_credit (some w) = if w.up then 1 else 0

abbrev hold_credit : Option Watch → ℕ
hold_credit none = 0
hold_credit (some w) = if w.up || w.held then 0 else 1

abbrev release_credit : Option Watch → ℕ
release_credit none = 0
release_credit (some w) = if w.held then 1 else 0

-- The account of the button `k` over some inputs that lead from `p` to `q` and note `noted`.
record Balance (k : Str) (p q : Presses) (presses releases : ℕ) (noted : List (Str × Action))
    : Type 0 where
  clicks :
      tally k is_click noted + click_credit (lookup k q.watches)
      ≤ releases + click_credit (lookup k p.watches)
  holds :
      tally k is_hold noted + hold_credit (lookup k q.watches)
      ≤ presses + hold_credit (lookup k p.watches)
  ends :
      tally k is_release noted + release_credit (lookup k q.watches)
      ≤ tally k is_hold noted + release_credit (lookup k p.watches)

abbrev pub one {ℓ} : {A : Type ℓ} → Option A → List A
one none = []
one (some a) = a ∷ []

start_press-Balance :
    (k ieee : Str) (p : Presses)
    → Balance k p
        (start_press ieee p).0
        (if str_eq ieee k then 1 else 0)
        0
        (one (start_press ieee p).1)
unfolding start_press
start_press-Balance k ieee p = ground (
  arith,
  str_eq_iff ieee k,
  lookup-insert ieee k (record { id = p.next; held = false; up = false }) p.watches,
)

finish_watch-Balance :
    (k ieee : Str) (p : Presses) (w : Option Watch)
    → lookup ieee p.watches ≡ w
    → Balance k p
        (finish_watch ieee p w).0
        0
        (if str_eq ieee k then 1 else 0)
        (one (finish_watch ieee p w).1)
unfolding finish_watch
finish_watch-Balance k ieee p none e = ground arith
finish_watch-Balance k ieee p (some w) e = ground (
  arith,
  str_eq_iff ieee k,
  lookup-delete ieee k p.watches,
  lookup-insert ieee k (record { id = p.next; held = false; up = true }) p.watches,
)

cancel_press-Balance : (k ieee : Str) (p : Presses) → Balance k p (cancel_press ieee p) 0 0 []
unfolding cancel_press
cancel_press-Balance k ieee p = ground (arith, str_eq_iff ieee k, lookup-delete ieee k p.watches)

callback-Balance :
    (k : Str) (t : Timer) (p q : Presses) (w : Option Watch)
    → q.watches ≡ p.watches
    → lookup t.ieee p.watches ≡ w
    → Fits w t
    → Balance k p (callback t q w).0 0 0 (one (callback t q w).1)
unfolding callback
callback-Balance k t p q none s e f = rw s (omega arith)
callback-Balance k t p q (some w) s e f = ground (
  arith,
  str_eq_iff t.ieee k,
  lookup-delete t.ieee k p.watches,
  f,
  lookup-insert t.ieee k (record w { held = true }) p.watches,
)

fire_timer-Balance :
    (k : Str) (id : ℕ) (p : Presses) (t : Option Timer)
    → find_timer id p.timers ≡ t
    → IsSound p
    → Balance k p (fire_timer id p t).0 0 0 (one (fire_timer id p t).1)
unfolding fire_timer
fire_timer-Balance k id p none e h = omega arith
fire_timer-Balance k id p (some t) e h = elim (Bool-cases t.running) [
  | inr armed ↦ rw armed (omega arith)
  | inl running ↦ rw running (
      callback-Balance k t p (record p { timers = drop_timer id p.timers })
        (lookup t.ieee p.watches) refl refl
        (find_timer-All (OkTimer p.watches p.next) id p.timers e h).1.1)
]

step-Balance :
    (k : Str) (i : Input) (p : Presses)
    → IsSound p
    → Balance k p (step i p).0 (presses_of k (i ∷ [])) (releases_of k (i ∷ [])) (one (step i p).1)
unfolding step
step-Balance k (pressed ieee) p h = omega (arith, start_press-Balance k ieee p)
step-Balance k (released ieee) p h =
    omega (arith, finish_watch-Balance k ieee p (lookup ieee p.watches) refl)
step-Balance k (cancelled ieee) p h = cancel_press-Balance k ieee p
step-Balance k (expires id) p h = omega arith
step-Balance k (fires id) p h = fire_timer-Balance k id p (find_timer id p.timers) refl h

pub tally-note :
    (k : Str) (test : Action → Bool) (out : Option (Str × Action)) (noted : List (Str × Action))
    → tally k test (note out noted) ≡ tally k test (one out) + tally k test noted
tally-note k test none noted = omega arith
tally-note k test (some (ieee, a)) noted = omega arith

pub presses_of-cons :
    (k : Str) (i : Input) (inputs : List Input)
    → presses_of k (i ∷ inputs) ≡ presses_of k (i ∷ []) + presses_of k inputs
presses_of-cons k (pressed ieee) inputs = omega arith
presses_of-cons k _ inputs = omega arith

releases_of-cons :
    (k : Str) (i : Input) (inputs : List Input)
    → releases_of k (i ∷ inputs) ≡ releases_of k (i ∷ []) + releases_of k inputs
releases_of-cons k (released ieee) inputs = omega arith
releases_of-cons k _ inputs = omega arith

pub tally-take_call :
    (k : Str) (test : Action → Bool) (n : ℕ) (calls : List (Str × Action))
    → tally k test calls
      ≡ tally k test (one (take_call n calls).0) + tally k test (take_call n calls).1
unfolding take_call
tally-take_call k test n [] = refl
tally-take_call k test zero ((ieee, a) ∷ calls) = omega arith
tally-take_call k test (suc n) ((ieee, a) ∷ calls) = omega (arith, tally-take_call k test n calls)

-- The account of the button `k` over some moves that lead from `s` to `s'` and note `noted`; a call
-- that is pending counts with those that are noted.
record Account (k : Str) (s s' : Detector) (presses releases : ℕ) (noted : List (Str × Action))
    : Type 0 where
  clicks :
      tally k is_click noted
        + tally k is_click s'.pending
        + click_credit (lookup k s'.presses.watches)
      ≤ releases + tally k is_click s.pending + click_credit (lookup k s.presses.watches)
  holds :
      tally k is_hold noted + tally k is_hold s'.pending + hold_credit (lookup k s'.presses.watches)
      ≤ presses + tally k is_hold s.pending + hold_credit (lookup k s.presses.watches)
  ends :
      tally k is_release noted
        + tally k is_release s'.pending
        + tally k is_hold s.pending
        + release_credit (lookup k s'.presses.watches)
      ≤ tally k is_hold noted
        + tally k is_hold s'.pending
        + tally k is_release s.pending
        + release_credit (lookup k s.presses.watches)

run-Account :
    (k : Str) (moves : List Move) (s : Detector)
    → IsSound s.presses
    → Account k s
        (run moves s).0
        (presses_of k (inputs_of moves))
        (releases_of k (inputs_of moves))
        (run moves s).1
unfolding run inputs_of
run-Account k [] s h = omega arith
run-Account k (locks i ∷ moves) s h =
    let (p, out) = step i s.presses in
    omega (
      arith,
      step-Balance k i s.presses h,
      run-Account k moves (record { presses = p; pending = note out s.pending })
          (step-IsSound i s.presses h),
      presses_of-cons k i (inputs_of moves),
      releases_of-cons k i (inputs_of moves),
      tally-note k is_click out s.pending,
      tally-note k is_hold out s.pending,
      tally-note k is_release out s.pending,
    )
run-Account k (notes n ∷ moves) s h =
    let (call, rest) = take_call n s.pending in
    let s1 = record s { pending = rest } in
    omega (
      arith,
      run-Account k moves s1 h,
      tally-take_call k is_click n s.pending,
      tally-take_call k is_hold n s.pending,
      tally-take_call k is_release n s.pending,
      tally-note k is_click call (run moves s1).1,
      tally-note k is_hold call (run moves s1).1,
      tally-note k is_release call (run moves s1).1,
    )

abbrev pub at_rest : Detector
at_rest = record { presses = no_presses; pending = [] }

-- From the empty detector, whatever the order of the critical sections of frames, cancellations and
-- timers and of the calls of `noteAction` after them: a button has at most as many single clicks and
-- releases together, noted or still to be noted, as it moved up, at most as many holds as it moved
-- down, and at most as many releases as holds; as the call that notes a hold may come after the one
-- that notes its release, at most as many releases are noted as holds are noted or still to be noted.
pub run_backed :
    (k : Str) (moves : List Move)
    → let (s, noted) = run moves at_rest in
      (tally k is_click noted + tally k is_click s.pending ≤ releases_of k (inputs_of moves))
      × (tally k is_hold noted + tally k is_hold s.pending ≤ presses_of k (inputs_of moves))
      × (tally k is_release noted + tally k is_release s.pending
          ≤ tally k is_hold noted + tally k is_hold s.pending)
unfolding no_presses lookup
run_backed k moves = omega (arith, run-Account k moves at_rest tt)
