-- ===== src/Examples/Frames.antt =====
-- Frames of a switch and of the lamp.
use mathlib.Core.Option
use zigbeemq.Prelude.{◌+◌, ◌≡◌, refl, false, [], ◌∷◌, arith}
use zigbeemq.Zigbee.{Frame}
use zigbeemq.Known.{switch}
use zigbeemq.Device.{Device}
use zigbeemq.Hub.{find}
use zigbeemq.Incoming.Action.{xiaomi_click_count}
use zigbeemq.Incoming.Press.{no_presses, start_press, expire, fires, locks, run, inputs_of}
use zigbeemq.Incoming.Press.Gestures.{tally}
use zigbeemq.Incoming.Press.Silence.{always}
use zigbeemq.Incoming.Handle.{Receiver, handle_frame}
use zigbeemq.Incoming.Handle.Laws.{clicks_of, clicked_by, multi_click_noted}
use zigbeemq.Examples.{goznp, key, lamp, one_device, report}

abbrev button : Device
button = record lamp { kind = switch; has_on_off = false }

abbrev two_clicks : Frame
two_clicks = record { frame_type = 0; command_id = 10; payload = 0 ∷ 128 ∷ 32 ∷ 2 ∷ [] }

-- The button is down, and its timer runs.
abbrev busy : Receiver
busy = record { hub = one_device button; presses = expire 0 (start_press key no_presses).0 }

multi_click_noted_example :
    let s' = handle_frame goznp button two_clicks report 5 busy in
    let (after, noted) =
      run (locks (fires 0) ∷ []) (record { presses = s'.presses; pending = [] }) in
    (Option.map clicks_of (find s'.hub key) ≡ Option.map (clicked_by 2 5) (find busy.hub key))
    × (tally key always noted + tally key always after.pending ≡ tally key always [])
multi_click_noted_example =
    multi_click_noted goznp button two_clicks report 5 2 busy [] (locks (fires 0) ∷ []) refl
      (unfold goznp in refl) (unfold goznp in refl) (unfold xiaomi_click_count goznp in refl)
      (omega arith) (unfold inputs_of in refl)
