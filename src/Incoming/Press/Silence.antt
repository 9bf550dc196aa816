-- ===== src/Incoming/Press/Silence.antt =====
-- A button without a watch: what the timers that are left over do, and the two plain gestures.
use zigbeemq.Prelude.{
  if◌then◌else◌, Str, str_eq, str_eq_iff, lookup, insert, lookup-insert, lookup-delete, ℕ, ◌+◌, ◌≡◌,
  refl, Bool, true, false, Option, none, some, List, [], ◌∷◌, arith,
}
use zigbeemq.Incoming.Action.{Action, single, hold, release}
use zigbeemq.Incoming.Press.{
  Watch, Timer, Presses, start_press, finish_watch, cancel_press, find_timer, drop_timer, callback,
  fire_timer, Input, pressed, released, cancelled, expires, fires, step, note, Detector, Move,
  locks, notes, take_call, run, inputs_of,
}
use zigbeemq.Incoming.Press.Gestures.{
  one, tally, tally-note, tally-take_call, presses_of, presses_of-cons,
}

abbrev pub always : Action → Bool
always a = true

abbrev told : Str → Option (Str × Action) → ℕ
told k none = 0
told k (some (ieee, a)) = if str_eq ieee k then 1 else 0

-- The watch of `k` after some step, and the actions that it notes for `k`.
abbrev IsQuiet : Str → Presses × Option (Str × Action) → Type 0
IsQuiet k r = (lookup k r.0.watches ≡ none) × (told k r.1 ≡ 0)

start_press-IsQuiet :
    (k ieee : Str) (p : Presses)
    → lookup k p.watches ≡ none
    → str_eq ieee k ≡ false
    → IsQuiet k (start_press ieee p)
unfolding start_press
start_press-IsQuiet k ieee p e n =
    ground
      (arith, lookup-insert ieee k (record { id = p.next; held = false; up = false }) p.watches)

finish_watch-IsQuiet :
    (k ieee : Str) (p : Presses) (w : Option Watch)
    → lookup ieee p.watches ≡ w
    → lookup k p.watches ≡ none
    → IsQuiet k (finish_watch ieee p w)
unfolding finish_watch
finish_watch-IsQuiet k ieee p none e n = (n, refl)
finish_watch-IsQuiet k ieee p (some w) e n = ground (
  arith,
  str_eq_iff ieee k,
  lookup-delete ieee k p.watches,
  lookup-insert ieee k (record { id = p.next; held = false; up = true }) p.watches,
)

callback-IsQuiet :
    (k : Str) (t : Timer) (p : Presses) (w : Option Watch)
    → lookup t.ieee p.watches ≡ w
    → lookup k p.watches ≡ none
    → IsQuiet k (callback t p w)
unfolding callback
callback-IsQuiet k t p none e n = (n, refl)
callback-IsQuiet k t p (some w) e n = ground (
  arith,
  str_eq_iff t.ieee k,
  lookup-delete t.ieee k p.watches,
  lookup-insert t.ieee k (record w { held = true }) p.watches,
)

fire_timer-IsQuiet :
    (k : Str) (id : ℕ) (p : Presses) (t : Option Timer)
    → lookup k p.watches ≡ none
    → IsQuiet k (fire_timer id p t)
unfolding fire_timer
fire_timer-IsQuiet k id p none n = (n, refl)
fire_timer-IsQuiet k id p (some t) n = ground (
  arith,
  callback-IsQuiet k t (record p { timers = drop_timer id p.timers }) (lookup t.ieee p.watches),
)

step-IsQuiet :
    (k : Str) (i : Input) (p : Presses)
    → lookup k p.watches ≡ none
    → presses_of k (i ∷ []) ≡ 0
    → IsQuiet k (step i p)
unfolding step
step-IsQuiet k (pressed ieee) p n h = start_press-IsQuiet k ieee p n (ground arith)
step-IsQuiet k (released ieee) p n h = finish_watch-IsQuiet k ieee p (lookup ieee p.watches) refl n
step-IsQuiet k (cancelled ieee) p n h =
    ground (arith, str_eq_iff ieee k, lookup-delete ieee k p.watches)
step-IsQuiet k (expires id) p n h = (n, refl)
step-IsQuiet k (fires id) p n h = fire_timer-IsQuiet k id p (find_timer id p.timers) n

told-tally : (k : Str) (out : Option (Str × Action)) → told k out ≡ tally k always (one out)
told-tally k none = refl
told-tally k (some (ieee, a)) = ground arith

run-IsQuiet :
    (k : Str) (moves : List Move) (s : Detector)
    → lookup k s.presses.watches ≡ none
    → presses_of k (inputs_of moves) ≡ 0
    → tally k always (run moves s).1 + tally k always (run moves s).0.pending
      ≡ tally k always s.pending
unfolding run inputs_of
run-IsQuiet k [] s n h = omega arith
run-IsQuiet k (locks i ∷ moves) s n h =
    let (p, out) = step i s.presses in
    let (n', quiet) =
      step-IsQuiet k i s.presses n (omega (arith, presses_of-cons k i (inputs_of moves))) in
    omega (
      arith,
      quiet,
      told-tally k out,
      tally-note k always out s.pending,
      run-IsQuiet k moves (record { presses = p; pending = note out s.pending }) n'
          (omega (arith, presses_of-cons k i (inputs_of moves))),
    )
run-IsQuiet k (notes m ∷ moves) s n h =
    let (call, rest) = take_call m s.pending in
    omega (
      arith,
      tally-take_call k always m s.pending,
      tally-note k always call (run moves (record s { pending = rest })).1,
      run-IsQuiet k moves (record s { pending = rest }) n h,
    )

pub cancel_press_silences :
    (k : Str) (s : Detector) (moves : List Move)
    → presses_of k (inputs_of moves) ≡ 0
    → let (s', noted) = run moves (record s { presses = cancel_press k s.presses }) in
      tally k always noted + tally k always s'.pending ≡ tally k always s.pending
cancel_press_silences k s moves h =
    run-IsQuiet k moves (record s { presses = cancel_press k s.presses })
      (unfold cancel_press in
        rw (lookup-delete k k s.presses.watches, (str_eq_iff k k).1 refl) refl)
      h

abbrev fresh : Presses → Detector
fresh p = record { presses = p; pending = [] }

module _ (k : Str) (p : Presses) (n : lookup k p.watches ≡ none) where
  abbrev down_watch : Watch
  down_watch = record { id = p.next; held = false; up = false }

  abbrev up_watch : Watch
  up_watch = record { id = p.next + 1; held = false; up = true }

  click_noted :
      (run
        (locks (pressed k)
          ∷ locks (released k)
          ∷ locks (expires (p.next + 1))
          ∷ locks (fires (p.next + 1))
          ∷ notes 0
          ∷ [])
        (fresh p)).1
      ≡ (k, single) ∷ []
  unfolding run step take_call
  click_noted = ground (
    arith,
    str_eq_iff k k,
    lookup-insert k k down_watch p.watches,
    lookup-insert k k up_watch (insert k down_watch p.watches),
  )

  hold_noted :
      (run
        (locks (pressed k)
          ∷ locks (expires p.next)
          ∷ locks (fires p.next)
          ∷ notes 0
          ∷ locks (released k)
          ∷ notes 0
          ∷ [])
        (fresh p)).1
      ≡ (k, hold) ∷ (k, release) ∷ []
  unfolding run step take_call
  hold_noted = ground (
    arith,
    str_eq_iff k k,
    lookup-insert k k down_watch p.watches,
    lookup-insert k k (record down_watch { held = true }) (insert k down_watch p.watches),
  )

  flush_noted :
      (run (locks (pressed k) ∷ locks (released k) ∷ locks (pressed k) ∷ notes 0 ∷ []) (fresh p)).1
      ≡ (k, single) ∷ []
  unfolding run step take_call
  flush_noted = ground (
    arith,
    str_eq_iff k k,
    lookup-insert k k down_watch p.watches,
    lookup-insert k k up_watch (insert k down_watch p.watches),
  )

-- For a button without a watch: down, up and the end of the wait give one "single"; down, the end of
-- the hold delay and up give "hold" and then "release"; a second down before the end of the wait
-- gives the "single" of the first click.
plain_gestures :
    (k : Str) (p : Presses)
    → lookup k p.watches ≡ none
    → let down = p.next in
      let lifted = p.next + 1 in
      ((run
          (locks (pressed k)
            ∷ locks (released k)
            ∷ locks (expires lifted)
            ∷ locks (fires lifted)
            ∷ notes 0
            ∷ [])
          (fresh p)).1
        ≡ (k, single) ∷ [])
      × ((run
            (locks (pressed k)
              ∷ locks (expires down)
              ∷ locks (fires down)
              ∷ notes 0
              ∷ locks (released k)
              ∷ notes 0
              ∷ [])
            (fresh p)).1
          ≡ (k, hold) ∷ (k, release) ∷ [])
      × ((run
            (locks (pressed k) ∷ locks (released k) ∷ locks (pressed k) ∷ notes 0 ∷ [])
            (fresh p)).1
          ≡ (k, single) ∷ [])
plain_gestures k p n = (click_noted k p n, hold_noted k p n, flush_noted k p n)
