-- ===== src/Concurrent/Ends/Interview.antt =====
-- `Interview` ends (internal/hub/hub.go).
use zigbeemq.Zigbee.{InterviewResult, Goznp}
use zigbeemq.Radio.{Radio}
use zigbeemq.Errors.{Error, Reply, ok, err}
use zigbeemq.Ieee.{parse_ieee}
use zigbeemq.Device.{Device, is_sonoff_mini, is_motion}
use zigbeemq.Prelude.{
  if◌then◌else◌, Str, ℕ, Bool, true, false, ◌||◌, Option, none, some, List, arith,
}
use zigbeemq.Hub.Registry.{Finder}
use zigbeemq.Concurrent.{ends, change, ◌>>=◌}
use zigbeemq.Concurrent.Methods.{announces, saves}
use zigbeemq.Concurrent.Methods.Reading.{reads_state}
use zigbeemq.Concurrent.Methods.Interview.{
  starts_setup, failed, sets_up_sensor, starts_relay, concludes, sets_up, applied, interviewed,
  asks_interview, interviews,
}
use zigbeemq.Concurrent.Ends.{Within, Within-le, Within-bind}
use zigbeemq.Concurrent.Ends.Methods.{
  announces-Within, saves-Within, if-Within, with_device-Within, reads_state-Within,
}

module _ (World : Type 0) where
  failed-Within :
      (ieee : Str) (e : Error) (there : Bool) → Within {World = World} (failed ieee e there) 5
  unfolding Within
  failed-Within ieee e false = tt
  failed-Within ieee e true =
      Within-bind saves _ 3 2 (saves-Within World)
        λ _. Within-bind (announces ieee) _ 2 0 (announces-Within World ieee) λ _. tt

  starts_relay-Within : (ieee : Str) → Within {World = World} (starts_relay ieee) 2
  unfolding Within ◌>>=◌
  starts_relay-Within ieee = (
    omega arith,
    λ d.
        Within-bind (if is_sonoff_mini d then change (starts_setup ieee) else ends tt) _ 1 0
          (if-Within World (is_sonoff_mini d) (change (starts_setup ieee)) (ends tt) 1
            (omega arith, λ u. tt) tt)
          λ _. tt,
  )

  concludes-Within : (ieee : Str) → Within {World = World} (concludes ieee) 7
  concludes-Within ieee = Within-bind saves _ 3 4 (saves-Within World) λ _.
      Within-bind (announces ieee) _ 2 2 (announces-Within World ieee) λ _. starts_relay-Within ieee

  sets_up-Within : (ieee own : Str) (d : Device) → Within {World = World} (sets_up ieee own d) 9
  unfolding Within ◌>>=◌
  sets_up-Within ieee own d =
      Within-bind (if is_motion d.kind || d.has_occupancy then sets_up_sensor ieee else ends tt) _ 2
        7
        (if-Within World (is_motion d.kind || d.has_occupancy) (sets_up_sensor ieee) (ends tt) 2
          (omega arith, λ e. (omega arith, λ u. tt)) tt)
        λ _. concludes-Within own

module _ (World : Type 0) (z : Goznp) (f : Finder) (r : Radio World) where
  applied-Within :
      (ieee : Str) (now : ℕ) (found : Option Device) → Within (applied z f r ieee now found) 17
  unfolding Within applied ◌>>=◌
  applied-Within ieee now none = tt
  applied-Within ieee now (some dev) =
      Within-bind (reads_state z r dev.ieee now) _ 7 10
        (reads_state-Within World z f r dev.ieee now)
        λ reached. (omega arith, λ d. sets_up-Within World ieee dev.ieee d)

  interviewed-Within :
      (ieee : Str) (now : ℕ) (reply : Reply InterviewResult)
      → Within (interviewed z f r ieee now reply) 18
  unfolding Within interviewed ◌>>=◌
  interviewed-Within ieee now (err e) = (
    omega arith,
    λ there. Within-le (failed ieee e there) 5 17 (omega arith) (failed-Within World ieee e there),
  )
  interviewed-Within ieee now (ok result) = (omega arith, λ found. applied-Within ieee now found)

  pub interviews-Within : (ieee : Str) (now : ℕ) → Within (interviews z f r ieee now) 20
  unfolding Within interviews ◌>>=◌
  interviews-Within ieee now = with_device-Within World ieee _ 19 λ d. asked d (parse_ieee z ieee)
    where
      asked : (d : Device) (o : Option (List ℕ)) → Within (asks_interview z f r ieee now d o) 19
      asked d none = tt
      asked d (some addr) = (omega arith, λ reply. interviewed-Within ieee now reply)
