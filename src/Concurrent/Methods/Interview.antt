-- ===== src/Concurrent/Methods/Interview.antt =====
-- `Interview` (internal/hub/hub.go) as a goroutine.
use zigbeemq.Zigbee.{InterviewResult, Goznp}
use zigbeemq.Radio.{Radio}
use zigbeemq.Errors.{Error, message, Reply, ok, err, map_radio_error}
use zigbeemq.Ieee.{compact_ieee, parse_ieee}
use zigbeemq.Device.{Device, is_sonoff_mini, is_motion}
use zigbeemq.Prelude.{
  if◌then◌else◌, is_some, Str, ℕ, Bool, true, false, ◌||◌, Option, none, some, List, ◌∷◌,
}
use zigbeemq.Hub.{setup_relay, Hub, find, must_device, modify}
use zigbeemq.Hub.Control.{set_unavailable}
use zigbeemq.Hub.Registry.{or_else, maybe_setup_motion, Finder}
use zigbeemq.Hub.Registry.Interview.{apply_interview}
use zigbeemq.Concurrent.{Routine, ends, locked, look, change, ask, ◌>>=◌, ◌>>◌}
use zigbeemq.Concurrent.Methods.{announces, saves, with_device}
use zigbeemq.Concurrent.Methods.Reading.{reads_state}

-- What `Interview` does under the lock after an error, and whether the device was there.
abbrev notes_failure : Str → Error → Hub → Hub × Bool
notes_failure ieee e h = (modify ieee (set_unavailable e) h, is_some (find h ieee))

-- A relay is set up by a goroutine of its own.
abbrev pub starts_setup : Str → Hub → Hub
starts_setup ieee h = record h { tasks = setup_relay ieee ∷ h.tasks }

module _ {World : Type 0} where
  abbrev pub failed : Str → Error → Bool → Routine World (Option Error)
  failed ieee e false = ends (some e)
  failed ieee e true = do saves; announces ieee; ends (some (map_radio_error e))

  abbrev pub sets_up_sensor : Str → Routine World (Unit {0})
  sets_up_sensor ieee = do d ← look (λ h. must_device h ieee); change (maybe_setup_motion d)

  -- `go h.setupRelay`, for a relay.
  abbrev pub starts_relay : Str → Routine World (Option Error)
  starts_relay ieee = do
    d ← look (λ h. must_device h ieee)
    if is_sonoff_mini d then change (starts_setup ieee) else ends tt
    ends none

  abbrev pub concludes : Str → Routine World (Option Error)
  concludes ieee = do saves; announces ieee; starts_relay ieee

  -- The rest after the state was read, for the device `d` as it is then.
  abbrev pub sets_up : Str → Str → Device → Routine World (Option Error)
  sets_up ieee own d = do
    if is_motion d.kind || d.has_occupancy then sets_up_sensor ieee else ends tt
    concludes own

module _ {World : Type 0} (z : Goznp) (f : Finder) (r : Radio World) where
  -- What it does under the lock with an answer, and the device as it is then.
  abbrev applies : Str → InterviewResult → Hub → Hub × Option Device
  applies ieee result h = let h' = modify ieee (apply_interview z f result) h in (h', find h' ieee)

  -- The rest after an answer. The kind is read through the pointer and without the lock: it is that of
  -- the device in the table, or what `applyInterview` has made of one that has left it.
  unfoldable pub applied : Str → ℕ → Option Device → Routine World (Option Error)
  applied ieee now none = ends none
  applied ieee now (some dev) = do
    reached ← reads_state z r dev.ieee now
    d ← look (λ h. or_else (find h ieee) dev)
    sets_up ieee dev.ieee d

  unfoldable pub interviewed : Str → ℕ → Reply InterviewResult → Routine World (Option Error)
  unfolding applied
  interviewed ieee now (err e) = do there ← locked (notes_failure ieee e) ends; failed ieee e there
  interviewed ieee now (ok result) = do
    found ← locked (applies ieee result) ends
    applied ieee now found

  abbrev pub asks_interview : Str → ℕ → Device → Option (List ℕ) → Routine World (Option Error)
  asks_interview ieee now d none = ends (some (message (z.parse_ieee_error (compact_ieee ieee))))
  asks_interview ieee now d (some addr) = do
    reply ← ask (λ w. r.interview_device w d.nwk_addr addr)
    interviewed ieee now reply

  -- `Interview`.
  unfoldable pub interviews : Str → ℕ → Routine World (Option Error)
  unfolding interviewed
  interviews ieee now = with_device ieee λ d. asks_interview ieee now d (parse_ieee z ieee)
