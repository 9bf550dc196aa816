-- ===== src/Concurrent/Alone/Sequential.antt =====
-- A method that has the hub for itself, against the sequential definitions (internal/hub/hub.go).
use zigbeemq.Zigbee.{Goznp}
use zigbeemq.Radio.{Radio}
use zigbeemq.Prelude.{◌≡◌, refl, none}
use zigbeemq.Hub.{Hub}
use zigbeemq.Hub.Control.{Done, turn, set_brightness, toggle, permit_join_for, run_recovery}
use zigbeemq.Hub.Registry.{update, note_joined, Finder, remove, refresh, event_ieee}
use zigbeemq.Hub.Registry.Join.{event_nwk}
use zigbeemq.Concurrent.{run_alone, run_alone-bind}
use zigbeemq.Concurrent.Pool.{
  Method, turn_method, brightness_method, toggle_method, recovery_method, update_method,
  remove_method, join_method, refresh_method, permit_method, interview_method, routine,
}
use zigbeemq.Concurrent.Methods.Reading.{recovers}
use zigbeemq.Concurrent.Methods.Registry.{notes_joined}
use zigbeemq.Concurrent.Alone.{turns_alone, brightens_alone}
use zigbeemq.Hub.Registry.Interview.{interview}
use zigbeemq.Concurrent.Alone.Interview.{interviews_alone}
use zigbeemq.Concurrent.Alone.Reading.{toggles_alone, recovers_alone}
use zigbeemq.Concurrent.Alone.Registry.{
  updates_alone, notes_joined_alone, removes_alone, refreshes_alone, permits_alone,
}

module _ {World : Type 0} (z : Goznp) (f : Finder) (r : Radio World) where
  -- The sequential definition of a method; the errors of a join and of a recovery go nowhere.
  pub sequential : Method → Hub → World → Done World
  sequential (turn_method ieee on now) h w = turn z r ieee on now h w
  sequential (brightness_method ieee percent now) h w = set_brightness z r ieee percent now h w
  sequential (toggle_method ieee now) h w = toggle z r ieee now h w
  sequential (recovery_method wake key) h w =
      let (h', w') = run_recovery z r wake key h w in (h', w', none)
  sequential (update_method ieee name kind archived) h w =
      let (h', error) = update ieee name kind archived h in (h', w, error)
  sequential (remove_method ieee) h w = remove z f r ieee h w
  sequential (join_method ev now) h w =
      ((note_joined (event_ieee z ev) (event_nwk ev) now h).0, w, none)
  sequential refresh_method h w = refresh z r h w
  sequential (permit_method seconds now) h w = permit_join_for z r seconds now h w
  sequential (interview_method ieee now) h w = interview z f r ieee now h w

  -- A method of the hub that no other one interrupts does what its sequential definition says, to the
  -- hub and to the world, and returns the same error: commands, recoveries, edits, removals, joins,
  -- refreshes, interviews and the opening of the network.
  pub routine_alone :
      (m : Method) (h : Hub) (w : World) → run_alone (routine z f r m) h w ≡ sequential m h w
  unfolding routine sequential
  routine_alone (turn_method ieee on now) h w = turns_alone z r ieee on now h w
  routine_alone (brightness_method ieee percent now) h w = brightens_alone z r ieee percent now h w
  routine_alone (toggle_method ieee now) h w = toggles_alone z r ieee now h w
  routine_alone (recovery_method wake key) h w =
      rw (run_alone-bind (recovers z r wake key) _ h w, recovers_alone z r wake key h w)
        (unfold run_alone in refl)
  routine_alone (update_method ieee name kind archived) h w =
      updates_alone ieee name kind archived h w
  routine_alone (remove_method ieee) h w = removes_alone z f r ieee h w
  routine_alone (join_method ev now) h w =
      rw
        (
          run_alone-bind (notes_joined (event_ieee z ev) (event_nwk ev) now) _ h w,
          notes_joined_alone (event_ieee z ev) (event_nwk ev) now h w,
        )
        (unfold run_alone in refl)
  routine_alone refresh_method h w = refreshes_alone z f r h w
  routine_alone (permit_method seconds now) h w = permits_alone z f r seconds now h w
  routine_alone (interview_method ieee now) h w = interviews_alone z f r ieee now h w
