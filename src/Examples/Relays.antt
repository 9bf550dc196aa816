-- ===== src/Examples/Relays.antt =====
-- A relay, a client of the ZNP protocol, and what starts with the hub.
use zigbeemq.Prelude.{
  take, any, codes, str_eq, lookup, member, ℕ, ◌+◌, ◌≡◌, refl, ◌⊎◌, true, false, none, some, [],
  ◌∷◌, ◌++◌, arith,
}
use zigbeemq.Zigbee.{uint8, Frame, Message, report_request}
use zigbeemq.Errors.{Error, ok, err}
use zigbeemq.Ieee.{compact_ieee}
use zigbeemq.Device.{Device}
use zigbeemq.Radio.{Radio, hears, takes, Link}
use zigbeemq.Hub.{setup_motion, Hub, new_hub, snapshot, broadcast, save_cache, load_cache}
use zigbeemq.Hub.Registry.{maybe_setup_motion, mark_missing, refresh_all, refresh_table, refresh}
use zigbeemq.Hub.Motion.{run_motion_setup}
use zigbeemq.Hub.Motion.Laws.{motion_set_up_again}
use zigbeemq.Hub.Start.{finish_open, open_hub}
use zigbeemq.Incoming.Listener.{WireFrame, Wire, Listener, on_frames}
use zigbeemq.Incoming.Listener.Laws.{all_heard, on_frames-queue}
use zigbeemq.Incoming.Parse.Laws.{encode_af}
use zigbeemq.Relay.Patch.{RelayPatch}
use zigbeemq.Relay.Call.{◌>>=◌}
use zigbeemq.Hub.Start.Laws.{starts_setup, is_active_relay, open_hub-setups}
use zigbeemq.Relay.Exchange.{open_slot, note_af, next_seq, answer_in, wait_answer, relay_exchange}
use zigbeemq.Relay.Exchange.Laws.{Heard, IsAnswer, relay_exchange-IsAnswer}
use zigbeemq.Relay.Exchange.Order.{
  first_answer, answered, heard_then, take_times, wait_answer-first_answer,
}
use zigbeemq.Relay.Settings.{apply_relay}
use zigbeemq.Relay.Settings.Refused.{IsRefusal, IsAccepted, apply_relay_checked}
use zigbeemq.Relay.Settings.Setup.{setup_relay_now, schedule_relay_setup}
use zigbeemq.Relay.Settings.Valid.{setup_relay_now-relay_busy}
use zigbeemq.Examples.{goznp, key, answer, radio, lamp, one_device, report}

-- A client for which each call succeeds, and during each exchange the report of the lamp comes in.
pub link : Link ℕ
link = record {
  present = true;
  builds = λ out. none;
  data_request = λ w nwk ep cluster seq out. (w + 1, ok 0);
  data_confirm = λ w seq. (w + 1, ok 0);
  moments = λ w. (w + 1, hears report ∷ takes ∷ []);
  parse_read_response = λ bytes. ok (record { id = 1; status = 0; value = uint8 1 } ∷ []);
  parse_write_response = λ bytes. ok (record { id = 1; status = 0 } ∷ []);
  af_delete = λ w ep. w + 1;
  af_register = λ w. (w + 1, ok 0);
}

abbrev pub mini : Device
mini = record lamp { model = codes "ZBMINIR2" }

abbrev pub relay_home : Hub
relay_home = record (one_device mini) { open_adapter = true }

abbrev report_frame : Frame
report_frame = record { frame_type = 0; command_id = 10; payload = 0 ∷ 0 ∷ 24 ∷ 1 ∷ [] }

exchanged : (relay_exchange goznp link 4660 1 6 report_request 10 relay_home 0).2 ≡ ok report_frame
unfolding relay_exchange ◌>>=◌ link goznp wait_answer note_af answer_in
exchanged = refl

relay_exchange-IsAnswer_example :
    ((relay_exchange goznp link 4660 1 6 report_request 10 relay_home 0).0
      ≡ record relay_home { zcl_seq = next_seq relay_home.zcl_seq })
    × (let seq = next_seq relay_home.zcl_seq in
        let sent = link.data_request 0 4660 1 6 seq report_request in
        let during = link.moments (link.data_confirm sent.0 seq).0 in
        (m : Message) × Heard m during.1 × IsAnswer goznp 4660 6 10 report_frame m)
relay_exchange-IsAnswer_example =
    relay_exchange-IsAnswer goznp link 4660 1 6 10 report_request relay_home 0 report_frame
      exchanged

wait_answer-first_answer_example :
    answered (wait_answer goznp 10 (heard_then (report ∷ []) (take_times 3)) (open_slot 4660 6) [])
    ≡ first_answer goznp 4660 6 10 (report ∷ [])
wait_answer-first_answer_example =
    wait_answer-first_answer goznp 4660 6 10 3 (report ∷ []) (omega arith) (omega arith)

abbrev pub no_patch : RelayPatch
no_patch = record {
  power_on_behavior = none;
  network_indicator = none;
  turbo_mode = none;
  delayed_power_on_state = none;
  delayed_power_on_time = none;
  detach_relay_mode = none;
  external_trigger_mode = none;
  inching = none;
}

apply_relay_checked_example :
    ((e : Error) × IsRefusal relay_home key no_patch e
      × (apply_relay goznp link key no_patch 7 relay_home 0 ≡ (relay_home, 0, err e)))
    ⊎ IsAccepted relay_home key no_patch
apply_relay_checked_example = apply_relay_checked goznp link key no_patch 7 relay_home 0

setup_relay_now-relay_busy_example :
    member key (setup_relay_now goznp (radio true) link key 7 relay_home 0).0.relay_busy
    ≡ member key relay_home.relay_busy
setup_relay_now-relay_busy_example =
    setup_relay_now-relay_busy goznp (radio true) link key key 7 relay_home 0

abbrev wire : Wire
wire = record { areq = 2; af = 4; af_incoming_msg = 129; af_incoming_msg_ext = 130 }

abbrev wire_frame : WireFrame
wire_frame = record { kind = 2; subsystem = 4; command_id = 129; bytes = encode_af report }

abbrev idle : Listener
idle = record { queue = []; slot = some (open_slot 4660 6) }

on_frames-queue_example :
    (on_frames wire (wire_frame ∷ wire_frame ∷ []) idle).queue
    ≡ take 128 ([] ++ all_heard wire (wire_frame ∷ wire_frame ∷ []))
on_frames-queue_example = on_frames-queue wire (wire_frame ∷ wire_frame ∷ []) idle (omega arith)

motion_set_up_again_example :
    let h = (run_motion_setup goznp (radio true) (compact_ieee key) lamp (one_device lamp) 0).0 in
    (maybe_setup_motion lamp h).tasks ≡ setup_motion (compact_ieee key) lamp ∷ h.tasks
motion_set_up_again_example =
    motion_set_up_again goznp (radio true) lamp (one_device lamp) 0
      (λ w a nwk ep cluster coord. unfold radio answer in refl)

-- A coordinator that lists no devices.
abbrev quiet : Radio ℕ
quiet = record (radio false) { get_devices = λ w. (w + 1, ok []) }

opened : (open_hub goznp quiet link none relay_home 0).2 ≡ none
unfolding open_hub finish_open refresh radio
opened = refl

listed : any (is_active_relay key) (snapshot (open_hub goznp quiet link none relay_home 0).0) ≡ true
unfolding open_hub finish_open refresh radio snapshot schedule_relay_setup broadcast save_cache
    load_cache refresh_table refresh_all mark_missing str_eq new_hub lookup
listed = refl

open_hub-setups_example :
    starts_setup key (open_hub goznp quiet link none relay_home 0).0.tasks ≡ true
open_hub-setups_example = open_hub-setups goznp quiet link none relay_home 0 key opened listed
