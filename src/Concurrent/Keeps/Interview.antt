-- ===== src/Concurrent/Keeps/Interview.antt =====
-- `Interview` keeps what each section keeps (internal/hub/hub.go).
use zigbeemq.Zigbee.{InterviewResult, Goznp}
use zigbeemq.Radio.{Radio}
use zigbeemq.Errors.{Error, Reply, ok, err}
use zigbeemq.Ieee.{parse_ieee}
use zigbeemq.Device.{Device, is_sonoff_mini, is_motion}
use zigbeemq.Prelude.{
  if◌then◌else◌, Str, ℕ, refl, Bool, true, false, ◌||◌, Option, none, some, List, arith,
}
use zigbeemq.Hub.{Hub, find, must_device}
use zigbeemq.Hub.Control.{set_unavailable}
use zigbeemq.Hub.Registry.{or_else, maybe_setup_motion, Finder}
use zigbeemq.Concurrent.{ends, change, ◌>>=◌}
use zigbeemq.Concurrent.Methods.{announces, saves}
use zigbeemq.Concurrent.Methods.Reading.{reads_state}
use zigbeemq.Hub.Registry.Interview.{apply_interview}
use zigbeemq.Concurrent.Methods.Interview.{
  starts_setup, failed, sets_up_sensor, starts_relay, concludes, sets_up, applied, interviewed,
  asks_interview, interviews,
}
use zigbeemq.Concurrent.Keeps.{Keeps, Keeps-bind, if-Keeps}
use zigbeemq.Concurrent.Keeps.Closed.{IsClosed, announces-Keeps, saves-Keeps}
use zigbeemq.Concurrent.Keeps.Reading.{reads_state-Keeps, with_device-Keeps}

module _ (World : Type 0) (z : Goznp) (f : Finder) (r : Radio World) (Joins : Str → Type 0)
    (I : Hub → Type 0) (R : Hub → Hub → Type 0) (closed : IsClosed z Joins I R) where
  failed-Keeps :
      (ieee : Str) (e : Error) (there : Bool) → Keeps {World = World} I R (failed ieee e there)
  unfolding Keeps
  failed-Keeps ieee e false = tt
  failed-Keeps ieee e true =
      Keeps-bind I R saves _ (saves-Keeps World z Joins I R closed) λ _.
        Keeps-bind I R (announces ieee) _ (announces-Keeps World z Joins I R closed ieee) λ _. tt

  sets_up_sensor-Keeps : (ieee : Str) → Keeps {World = World} I R (sets_up_sensor ieee)
  unfolding Keeps maybe_setup_motion ◌>>=◌
  sets_up_sensor-Keeps ieee = λ h v. (
    closed.unchanged h v,
    λ h' v'. (closed.same h' _ (ground arith) (ground arith) (ground arith) v', tt),
  )

  starts_relay-Keeps : (ieee : Str) → Keeps {World = World} I R (starts_relay ieee)
  unfolding Keeps ◌>>=◌
  starts_relay-Keeps ieee = λ h v. (
    closed.unchanged h v,
    Keeps-bind I R
        (if is_sonoff_mini (must_device h ieee) then change (starts_setup ieee) else ends tt) _
        (if-Keeps I R (is_sonoff_mini (must_device h ieee)) (change (starts_setup ieee)) (ends tt)
          (λ h' v'. (closed.same h' _ refl refl refl v', tt)) tt)
        λ _. tt,
  )

  concludes-Keeps : (ieee : Str) → Keeps {World = World} I R (concludes ieee)
  concludes-Keeps ieee = Keeps-bind I R saves _ (saves-Keeps World z Joins I R closed) λ _.
      Keeps-bind I R (announces ieee) _ (announces-Keeps World z Joins I R closed ieee)
        λ _. starts_relay-Keeps ieee

  sets_up-Keeps : (ieee own : Str) (d : Device) → Keeps {World = World} I R (sets_up ieee own d)
  unfolding Keeps
  sets_up-Keeps ieee own d =
      Keeps-bind I R (if is_motion d.kind || d.has_occupancy then sets_up_sensor ieee else ends tt)
        _
        (if-Keeps I R (is_motion d.kind || d.has_occupancy) (sets_up_sensor ieee) (ends tt)
          (sets_up_sensor-Keeps ieee) tt)
        λ _. concludes-Keeps own

  applied-Keeps :
      (ieee : Str) (now : ℕ) (found : Option Device) → Keeps I R (applied z f r ieee now found)
  unfolding Keeps applied ◌>>=◌
  applied-Keeps ieee now none = tt
  applied-Keeps ieee now (some dev) =
      Keeps-bind I R (reads_state z r dev.ieee now) _
        (reads_state-Keeps World z r Joins I R closed dev.ieee now)
        λ reached h v.
          (closed.unchanged h v, sets_up-Keeps ieee dev.ieee (or_else (find h ieee) dev))

  interviewed-Keeps :
      (ieee : Str) (now : ℕ) (reply : Reply InterviewResult)
      → Keeps I R (interviewed z f r ieee now reply)
  unfolding Keeps interviewed ◌>>=◌ apply_interview
  interviewed-Keeps ieee now (err e) =
      λ h v. (closed.modified ieee (set_unavailable e) h (λ d. refl) v, failed-Keeps ieee e _)
  interviewed-Keeps ieee now (ok result) = λ h v.
      (closed.modified ieee (apply_interview z f result) h (λ d. refl) v, applied-Keeps ieee now _)

  pub interviews-Keeps : (ieee : Str) (now : ℕ) → Keeps I R (interviews z f r ieee now)
  unfolding Keeps interviews ◌>>=◌
  interviews-Keeps ieee now =
      with_device-Keeps World z r Joins I R closed ieee _ λ d. asked d (parse_ieee z ieee)
    where
      asked : (d : Device) (o : Option (List ℕ)) → Keeps I R (asks_interview z f r ieee now d o)
      asked d none = tt
      asked d (some addr) = λ w. interviewed-Keeps ieee now _
