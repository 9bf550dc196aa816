-- ===== src/Incoming/Press.antt =====
-- The press detector of buttons that report only "down" and "up" (`startPress`, `finishPress`,
-- `cancelPress` and the callbacks of their timers, internal/hub/incoming.go).
--
-- A `*pressWatch` is known by the number `id`, so `cur != n` compares numbers. A timer runs its
-- callback in a goroutine: `expire` starts that goroutine, and from then on `Timer.Stop` is too late;
-- `fire` is the moment at which the callback gets the lock. Each of these is one critical section of
-- `pressMu`; the call of `noteAction` that follows it is made after the lock was given back, and waits
-- among the pending calls until then. A list of moves is thus any interleaving of the sections and
-- calls of the radio's events and of the timers.
pub mod Laws
pub mod Gestures
pub mod Silence
use zigbeemq.Prelude.{
  ◌==◌, if◌then◌else◌, Str, Assoc, lookup, insert, delete, ℕ, zero, suc, ◌+◌, Bool, true, false,
  ◌&&◌, not, Option, none, some, List, [], ◌∷◌,
}
use zigbeemq.Incoming.Action.{Action, single, hold, release}

pub record Watch : Type 0 where
  pub id : ℕ
  pub held : Bool
  pub up : Bool

-- The timer of the watch `id`. A timer of `startPress` waits for "hold", one of `finishPress` for
-- "single". `running` says that its callback was started.
pub record Timer : Type 0 where
  pub id : ℕ
  pub ieee : Str
  pub for_hold : Bool
  pub running : Bool

pub record Presses : Type 0 where
  pub watches : Assoc Watch
  pub timers : List Timer
  pub next : ℕ

unfoldable pub no_presses : Presses
no_presses = record { watches = []; timers = []; next = 0 }

-- `w.timer.Stop()`.
pub stop : ℕ → List Timer → List Timer
stop id [] = []
stop id (t ∷ ts) = let rest = stop id ts in if t.id == id && not t.running then rest else t ∷ rest

abbrev stop_of : Option Watch → List Timer → List Timer
stop_of none ts = ts
stop_of (some w) ts = stop w.id ts

abbrev must_flush : Option Watch → Bool
must_flush none = false
must_flush (some w) = w.up && not w.held

-- `startPress`; the result is the call of `noteAction` that it has yet to make after its unlock.
pub start_press : Str → Presses → Presses × Option (Str × Action)
start_press ieee p =
    let w = lookup ieee p.watches in
    (
      record {
        watches = insert ieee (record { id = p.next; held = false; up = false }) p.watches;
        timers =
            record { id = p.next; ieee = ieee; for_hold = true; running = false }
            ∷ stop_of w p.timers;
        next = p.next + 1;
      },
      if must_flush w then some (ieee, single) else none,
    )

finish_watch : Str → Presses → Option Watch → Presses × Option (Str × Action)
finish_watch ieee p none = (p, none)
finish_watch ieee p (some w) =
    let timers = stop w.id p.timers in
    if w.held
    then (record p { watches = delete ieee p.watches; timers = timers }, some (ieee, release))
    else (
      record {
        watches = insert ieee (record { id = p.next; held = false; up = true }) p.watches;
        timers = record { id = p.next; ieee = ieee; for_hold = false; running = false } ∷ timers;
        next = p.next + 1;
      },
      none,
    )

-- `finishPress`.
pub finish_press : Str → Presses → Presses × Option (Str × Action)
unfolding finish_watch
finish_press ieee p = finish_watch ieee p (lookup ieee p.watches)

-- `cancelPress`.
pub cancel_press : Str → Presses → Presses
cancel_press ieee p = record p {
  watches = delete ieee p.watches;
  timers = stop_of (lookup ieee p.watches) p.timers;
}

pub find_timer : ℕ → List Timer → Option Timer
find_timer id [] = none
find_timer id (t ∷ ts) = if t.id == id then some t else find_timer id ts

pub start_callback : ℕ → List Timer → List Timer
start_callback id [] = []
start_callback id (t ∷ ts) =
    (if t.id == id then record t { running = true } else t) ∷ start_callback id ts

-- The run time starts the callback of the timer `id`, if it is still armed.
pub expire : ℕ → Presses → Presses
unfolding start_callback
expire id p = record p { timers = start_callback id p.timers }

pub drop_timer : ℕ → List Timer → List Timer
drop_timer id [] = []
drop_timer id (t ∷ ts) = let rest = drop_timer id ts in if t.id == id then rest else t ∷ rest

-- The critical sections of the two callbacks: nothing happens where the watch is no longer the current
-- one. The call of `noteAction` is left to be made after the unlock.
callback : Timer → Presses → Option Watch → Presses × Option (Str × Action)
callback t p none = (p, none)
callback t p (some cur) =
    if not (cur.id == t.id)
    then (p, none)
    else if t.for_hold
    then (
      record p { watches = insert t.ieee (record cur { held = true }) p.watches },
      some (t.ieee, hold),
    )
    else (record p { watches = delete t.ieee p.watches }, some (t.ieee, single))

fire_timer : ℕ → Presses → Option Timer → Presses × Option (Str × Action)
unfolding callback
fire_timer id p none = (p, none)
fire_timer id p (some t) =
    if t.running
    then callback t (record p { timers = drop_timer id p.timers }) (lookup t.ieee p.watches)
    else (p, none)

-- The callback of the timer `id` gets the lock, if it was started.
fire : ℕ → Presses → Presses × Option (Str × Action)
unfolding find_timer drop_timer fire_timer
fire id p = fire_timer id p (find_timer id p.timers)

-- The critical sections.
pub data Input : Type 0 where
  pressed released cancelled : Str → Input
  expires fires : ℕ → Input

unfoldable pub step : Input → Presses → Presses × Option (Str × Action)
unfolding start_press finish_press cancel_press expire fire
step (pressed ieee) p = start_press ieee p
step (released ieee) p = finish_press ieee p
step (cancelled ieee) p = (cancel_press ieee p, none)
step (expires id) p = (expire id p, none)
step (fires id) p = fire id p

abbrev note : Option (Str × Action) → List (Str × Action) → List (Str × Action)
note none noted = noted
note (some a) noted = a ∷ noted

-- The detector, and the calls of `noteAction` whose goroutines have given back the lock.
pub record Detector : Type 0 where
  pub presses : Presses
  pub pending : List (Str × Action)

pub data Move : Type 0 where
  locks : Input → Move
  notes : ℕ → Move

unfoldable pub take_call : ℕ → List (Str × Action) → Option (Str × Action) × List (Str × Action)
take_call n [] = (none, [])
take_call zero (a ∷ calls) = (some a, calls)
take_call (suc n) (a ∷ calls) = let (found, rest) = take_call n calls in (found, a ∷ rest)

-- The detector and the actions noted after a list of moves.
unfoldable pub run : List Move → Detector → Detector × List (Str × Action)
unfolding take_call
run [] s = (s, [])
run (locks i ∷ moves) s =
    let (p, out) = step i s.presses in
    run moves (record { presses = p; pending = note out s.pending })
run (notes n ∷ moves) s =
    let (call, rest) = take_call n s.pending in
    let (last, noted) = run moves (record s { pending = rest }) in (last, note call noted)

-- The critical sections among the moves.
unfoldable pub inputs_of : List Move → List Input
inputs_of [] = []
inputs_of (locks i ∷ moves) = i ∷ inputs_of moves
inputs_of (notes n ∷ moves) = inputs_of moves
