-- ===== src/Examples/Interleaved.antt =====
-- Methods that run side by side.
use zigbeemq.Prelude.{
  codes, str_eq, to_lower, trim_prefix, remove_all, lookup, insert, member, adjust, ℕ, zero, suc,
  ◌≡◌, refl, true, false, none, some, List, [], ◌∷◌, ◌++◌, arith,
}
use zigbeemq.Ieee.{compact_ieee, parse_ieee}
use zigbeemq.Known.{empty}
use zigbeemq.Hub.{Hub, new_hub, find, modify, broadcast, load_cache}
use zigbeemq.Hub.Registry.{relabel}
use zigbeemq.Concurrent.{◌>>=◌, run_alone}
use zigbeemq.Concurrent.Pool.{
  advance, advance_at, run_pool, Method, turn_method, toggle_method, recovery_method, update_method,
  remove_method, refresh_method, routine, routines,
}
use zigbeemq.Concurrent.Methods.Registry.{updates, drops, removes}
use zigbeemq.Concurrent.Methods.{turns}
use zigbeemq.Concurrent.Alone.Sequential.{sequential, routine_alone}
use zigbeemq.Hub.Registry.Table.{IsValid}
use zigbeemq.Concurrent.Keeps.Table.{IsSound}
use zigbeemq.Concurrent.Keeps.Removed.{interleaved-IsSound, crash-IsValid, removed_in_flight}
use zigbeemq.Concurrent.Ends.{times, EndedAt}
use zigbeemq.Concurrent.Ends.Bound.{methods_end}
use zigbeemq.Examples.{
  goznp, goznp_prints, find_endpoint, key, answer, radio, lamp, one_device, one_device-IsValid,
}

toggle_alone :
    run_alone (routine goznp find_endpoint (radio false) (toggle_method key 5)) (one_device lamp) 0
    ≡ sequential goznp find_endpoint (radio false) (toggle_method key 5) (one_device lamp) 0
toggle_alone =
    routine_alone goznp find_endpoint (radio false) (toggle_method key 5) (one_device lamp) 0

lamp-IsSound : IsSound (one_device lamp)
unfolding new_hub lookup compact_ieee to_lower trim_prefix remove_all
lamp-IsSound = ((one_device-IsValid, (((refl, tt), (refl, tt)), (tt, tt))), tt)

-- A command, a removal and a refresh: the command has asked the radio when the device is removed.
abbrev crossing : List Method
crossing = turn_method key true 5 ∷ remove_method key ∷ refresh_method ∷ []

abbrev before_removal : List ℕ
before_removal = 0 ∷ 0 ∷ 1 ∷ 1 ∷ 1 ∷ []

abbrev after_removal : List ℕ
after_removal = 0 ∷ 2 ∷ 0 ∷ 2 ∷ 0 ∷ 1 ∷ 2 ∷ 1 ∷ 2 ∷ 1 ∷ 2 ∷ []

interleaved-IsSound_example :
    IsSound
      (run_pool after_removal
        (routines goznp find_endpoint (radio true) crossing)
        (one_device lamp)
        0).0
interleaved-IsSound_example =
    interleaved-IsSound goznp find_endpoint (radio true) goznp_prints crossing after_removal
      (one_device lamp) 0 lamp-IsSound

forgotten_then :
    member key
      (run_pool before_removal
        (routines goznp find_endpoint (radio false) crossing)
        (one_device lamp)
        0).0.forgotten
    ≡ true
unfolding run_pool advance_at advance routines routine ◌>>=◌ turns removes drops find lookup insert
    parse_ieee compact_ieee to_lower trim_prefix remove_all str_eq goznp radio answer new_hub
    broadcast
forgotten_then = refl

removed_in_flight_example :
    lookup key
      (run_pool
        (before_removal ++ after_removal)
        (routines goznp find_endpoint (radio false) crossing)
        (one_device lamp)
        0).0.devices
    ≡ none
removed_in_flight_example =
    removed_in_flight goznp find_endpoint (radio false) goznp_prints key crossing before_removal
      after_removal (one_device lamp) 0 (tt, (tt, (tt, tt))) lamp-IsSound forgotten_then

crash-IsValid_example : IsValid (
    load_cache (
      new_hub
        (codes "/data")
        (run_pool after_removal
          (routines goznp find_endpoint (radio true) crossing)
          (one_device lamp)
          0).0.disk))
crash-IsValid_example =
    crash-IsValid goznp find_endpoint (radio true) goznp_prints crossing after_removal
      (one_device lamp) 0 (codes "/data") lamp-IsSound

-- A command and a recovery take turns.
abbrev taking_turns : ℕ → List ℕ
taking_turns zero = []
taking_turns (suc n) = 0 ∷ 1 ∷ taking_turns n

methods_end_example :
    EndedAt 1
      (run_pool
        (taking_turns 43)
        (routines goznp find_endpoint
          (radio true)
          (turn_method key true 5 ∷ recovery_method (λ seconds. seconds) key ∷ []))
        (one_device lamp)
        0).2
methods_end_example =
    methods_end (ℕ) goznp find_endpoint (radio true)
      (turn_method key true 5 ∷ recovery_method (λ seconds. seconds) key ∷ []) 1 (taking_turns 43)
      (one_device lamp) 0 (unfold times in omega arith)

-- An edit has read the table for its cache file when a removal runs; its older table is written last,
-- and the file still lists the device that the hub has forgotten.
abbrev overtaken : Hub
overtaken =
    (run_pool (0 ∷ 0 ∷ 1 ∷ 1 ∷ 1 ∷ 1 ∷ 1 ∷ 1 ∷ 0 ∷ 0 ∷ 0 ∷ [])
      (routines goznp find_endpoint (radio false)
        (update_method key [] empty (some true) ∷ remove_method key ∷ []))
      (one_device lamp) 0).0

removal_overtaken :
    (member key overtaken.forgotten ≡ true)
    × (overtaken.disk
        ≡ some (record { devices = (key, record lamp { archived = true }) ∷ []; forgotten = [] }))
unfolding run_pool advance_at advance routines routine ◌>>=◌ updates removes drops relabel modify
    find lookup adjust insert parse_ieee compact_ieee to_lower trim_prefix remove_all str_eq goznp
    radio answer new_hub broadcast
removal_overtaken = (refl, refl)
