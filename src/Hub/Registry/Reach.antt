-- ===== src/Hub/Registry/Reach.antt =====
-- Every hub that operations can lead to has a well-formed table.
use zigbeemq.Prelude.{Str, lookup, ℕ, Bool, Option, arith}
use zigbeemq.Zigbee.{Message, Goznp, DeviceEvent}
use zigbeemq.Incoming.Action.{Action}
use zigbeemq.Incoming.Press.{Presses}
use zigbeemq.Incoming.Reports.{note_action}
use zigbeemq.Incoming.Reports.Laws.{note_action-IsValid}
use zigbeemq.Incoming.Handle.{handle_incoming}
use zigbeemq.Incoming.Handle.Laws.Valid.{handle_incoming-IsValid}
use zigbeemq.Radio.{Radio, Link}
use zigbeemq.Relay.Patch.{RelayPatch}
use zigbeemq.Relay.Settings.{read_relay, apply_relay}
use zigbeemq.Relay.Settings.Setup.{setup_relay_now}
use zigbeemq.Relay.Settings.Valid.{read_relay-IsValid, apply_relay-IsValid, setup_relay_now-IsValid}
use zigbeemq.Errors.{Error}
use zigbeemq.Known.{Kind}
use zigbeemq.Hub.{CacheFile, Hub, new_hub, subscribe, unsubscribe}
use zigbeemq.Hub.Control.{
  note_unavailable, turn, set_brightness, read_state, toggle, permit_join_for, run_recovery,
}
use zigbeemq.Device.{Device}
use zigbeemq.Hub.Start.{network}
use zigbeemq.Hub.Motion.{run_motion_setup}
use zigbeemq.Hub.Registry.Join.{run_join}
use zigbeemq.Hub.Registry.Kept.{
  interview_missing-IsValid, interview-IsValid, run_recovery-IsValid, on_device_event-IsValid,
  refresh-IsValid, permit_join_for-IsValid, run_join-IsValid, run_motion_setup-IsValid,
  network-IsValid,
}
use zigbeemq.Hub.Registry.{update, Finder, remove, refresh, on_device_event}
use zigbeemq.Hub.Registry.Interview.{interview, interview_missing}
use zigbeemq.Hub.Registry.Table.{IsValid}
use zigbeemq.Hub.Registry.Refresh.{PrintsAddresses}
use zigbeemq.Hub.Registry.Steps.{update-IsValid, note_unavailable-IsValid, remove-IsValid}
use zigbeemq.Hub.Registry.Commands.{
  turn-IsValid, set_brightness-IsValid, read_state-IsValid, toggle-IsValid,
}

-- One operation of the hub, at any time and with any answers of the radio.
pub data Step {World : Type 0} (z : Goznp) (f : Finder) (r : Radio World) (h : Hub)
    : Hub → Type 0 where
  updates :
      (ieee name : Str) (kind : Kind) (archived : Option Bool)
      → Step z f r h (update ieee name kind archived h).0
  removes : (ieee : Str) (w : World) → Step z f r h (remove z f r ieee h w).0
  hears : (ev : DeviceEvent) (now : ℕ) → Step z f r h (on_device_event z ev now h)
  refreshes : (w : World) → Step z f r h (refresh z r h w).0
  interviews : (ieee : Str) (now : ℕ) (w : World) → Step z f r h (interview z f r ieee now h w).0
  interviews_missing : (at : ℕ → ℕ) (w : World) → Step z f r h (interview_missing z f r at h w).0
  turns : (ieee : Str) (on : Bool) (now : ℕ) (w : World) → Step z f r h (turn z r ieee on now h w).0
  toggles : (ieee : Str) (now : ℕ) (w : World) → Step z f r h (toggle z r ieee now h w).0
  brightens :
      (ieee : Str) (percent now : ℕ) (w : World)
      → Step z f r h (set_brightness z r ieee percent now h w).0
  reads : (ieee : Str) (now : ℕ) (w : World) → Step z f r h (read_state z r ieee now h w).0
  loses : (ieee : Str) (e : Error) → Step z f r h (note_unavailable ieee e h)
  recovers : (wake : ℕ → ℕ) (key : Str) (w : World) → Step z f r h (run_recovery z r wake key h w).0
  runs_join : (ev : DeviceEvent) (now : ℕ) (w : World) → Step z f r h (run_join z f r ev now h w).0
  sets_up_motion :
      (key : Str) (d : Device) (w : World) → Step z f r h (run_motion_setup z r key d h w).0
  asks_network : (now later : ℕ) (w : World) → Step z f r h (network r now later h w).0
  permits : (seconds now : ℕ) (w : World) → Step z f r h (permit_join_for z r seconds now h w).0
  subscribes : Step z f r h (subscribe h).0
  unsubscribes : (id : ℕ) → Step z f r h (unsubscribe id h)
  receives :
      (msg : Message) (now : ℕ) (p : Presses)
      → Step z f r h (handle_incoming z msg now (record { hub = h; presses = p })).hub
  reads_relay :
      (link : Link World) (ieee : Str) (now : ℕ) (w : World)
      → Step z f r h (read_relay z link ieee now h w).0
  applies_relay :
      (link : Link World) (ieee : Str) (p : RelayPatch) (now : ℕ) (w : World)
      → Step z f r h (apply_relay z link ieee p now h w).0
  sets_up_relay :
      (link : Link World) (ieee : Str) (now : ℕ) (w : World)
      → Step z f r h (setup_relay_now z r link ieee now h w).0
  clicks : (ieee : Str) (action : Action) (now : ℕ) → Step z f r h (note_action ieee action now h)

pub data Reach {World : Type 0} (z : Goznp) (f : Finder) (r : Radio World) (h : Hub)
    : Hub → Type 0 where
  here : Reach z f r h h
  next : {h' h'' : Hub} → Reach z f r h h' → Step z f r h' h'' → Reach z f r h h''

module _ {World : Type 0} (z : Goznp) (f : Finder) (r : Radio World)
    (prints : PrintsAddresses z) where
  Step-IsValid : {h h' : Hub} → Step z f r h h' → IsValid h → IsValid h'
  Step-IsValid {h} (updates ieee name kind archived) t = update-IsValid ieee name kind archived h t
  Step-IsValid {h} (removes ieee w) t = remove-IsValid z f r ieee h w t
  Step-IsValid {h} (hears ev now) t = on_device_event-IsValid z f r prints ev now h t
  Step-IsValid {h} (refreshes w) t = refresh-IsValid z f r prints h w t
  Step-IsValid {h} (interviews ieee now w) t = interview-IsValid z f r ieee now h w t
  Step-IsValid {h} (interviews_missing at w) t = interview_missing-IsValid z f r at h w t
  Step-IsValid {h} (turns ieee on now w) t = turn-IsValid z r ieee now on h w t
  Step-IsValid {h} (toggles ieee now w) t = toggle-IsValid z r ieee now h w t
  Step-IsValid {h} (brightens ieee percent now w) t =
      set_brightness-IsValid z r ieee now percent h w t
  Step-IsValid {h} (reads ieee now w) t = read_state-IsValid z r ieee now h w t
  Step-IsValid {h} (loses ieee e) t = note_unavailable-IsValid ieee e h t
  Step-IsValid {h} (recovers wake key w) t = run_recovery-IsValid z r wake key h w t
  Step-IsValid {h} (permits seconds now w) t =
      permit_join_for-IsValid z f r prints seconds now h w t
  Step-IsValid {h} (runs_join ev now w) t = run_join-IsValid z f r prints ev now h w t
  Step-IsValid {h} (sets_up_motion key d w) t = run_motion_setup-IsValid z r key d h w t
  Step-IsValid {h} (asks_network now later w) t = network-IsValid r now later h w t
  Step-IsValid {h} subscribes t = unfold subscribe in t
  Step-IsValid {h} (unsubscribes id) t = unfold unsubscribe in t
  Step-IsValid {h} (receives msg now p) t =
      handle_incoming-IsValid z now msg (record { hub = h; presses = p }) t
  Step-IsValid {h} (reads_relay link ieee now w) t = read_relay-IsValid z r link ieee now h w t
  Step-IsValid {h} (applies_relay link ieee p now w) t =
      apply_relay-IsValid z r link ieee p now h w t
  Step-IsValid {h} (sets_up_relay link ieee now w) t =
      setup_relay_now-IsValid z r link ieee now h w t
  Step-IsValid {h} (clicks ieee action now) t = note_action-IsValid ieee action now h t

  -- Where the library prints addresses as hexadecimal digits and colons: whatever listed
  -- operations are done from a well-formed hub, in any order, at any time and with any answers of
  -- the radio and any frames, each device then stands in the table under its own address in
  -- compact form, and no address is both in the table and forgotten.
  pub Reach-IsValid : {h h' : Hub} → IsValid h → Reach z f r h h' → IsValid h'
  Reach-IsValid t here = t
  Reach-IsValid t (next steps step) = Step-IsValid step (Reach-IsValid t steps)

-- A new hub is well formed.
new_hub-IsValid : (dir : Str) (file : Option CacheFile) → IsValid (new_hub dir file)
unfolding new_hub lookup
new_hub-IsValid dir file = record { keyed = λ k. tt; apart = λ k. ground arith }
