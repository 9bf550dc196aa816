-- ===== src/Examples/Presses.antt =====
-- The press detector at work.
use zigbeemq.Incoming.Action.{hold, release}
use zigbeemq.Prelude.{str_eq, lookup, insert, delete, ◌+◌, ◌≤◌, ◌≡◌, refl, List, [], ◌∷◌}
use zigbeemq.Incoming.Press.{
  no_presses, pressed, released, expires, fires, step, Detector, Move, locks, notes, take_call, run,
  inputs_of,
}
use zigbeemq.Incoming.Press.Gestures.{
  is_click, is_hold, is_release, tally, presses_of, releases_of, at_rest, run_backed,
}
use zigbeemq.Examples.{key}

-- Down, the end of the hold delay, and up before the callback notes the hold.
abbrev overtaken_hold : List Move
overtaken_hold =
    locks (pressed key)
    ∷ locks (expires 0)
    ∷ locks (fires 0)
    ∷ locks (released key)
    ∷ notes 0
    ∷ notes 0
    ∷ []

run_backed_example :
    let (s, noted) = run overtaken_hold at_rest in
    (tally key is_click noted + tally key is_click s.pending
      ≤ releases_of key (inputs_of overtaken_hold))
    × (tally key is_hold noted + tally key is_hold s.pending
        ≤ presses_of key (inputs_of overtaken_hold))
    × (tally key is_release noted + tally key is_release s.pending
        ≤ tally key is_hold noted + tally key is_hold s.pending)
run_backed_example = run_backed key overtaken_hold

-- The release is noted before the hold.
hold_overtaken : (run overtaken_hold at_rest).1 ≡ (key, release) ∷ (key, hold) ∷ []
unfolding no_presses run step take_call lookup insert delete str_eq
hold_overtaken = refl

-- The button is cancelled when the callback of its timer has given back the lock.
abbrev held : Detector
held = (run (locks (pressed key) ∷ locks (expires 0) ∷ locks (fires 0) ∷ []) at_rest).0

abbrev late : List Move
late = locks (released key) ∷ notes 0 ∷ []
