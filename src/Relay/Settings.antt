-- ===== src/Relay/Settings.antt =====
-- Reading and changing the settings of a relay (internal/hub/relay.go).
pub mod Kept
pub mod Laws
pub mod Setup
pub mod Refused
pub mod Valid
use zigbeemq.Prelude.{
  ◌==◌, if◌then◌else◌, any, Str, codes, hex2, hex4, ℕ, Bool, false, ◌||◌, not, Option, none, some,
  List, [], ◌∷◌, ◌++◌,
}
use zigbeemq.Zigbee.{
  Value, uint8, ReadResult, WriteResult, read_request, write_request, ewelink_command, Goznp,
}
use zigbeemq.Errors.{
  Error, not_relay, relay_input, message, Reply, ok, err, is_unreachable, map_radio_error,
}
use zigbeemq.Device.{Relay, Device, zero_relay, is_sonoff_mini, seen}
use zigbeemq.Radio.{Link}
use zigbeemq.Hub.{Hub, modify, broadcast_device, save_cache}
use zigbeemq.Hub.Control.{note_unavailable}
use zigbeemq.Relay.Codec.{
  attr_network_led, attr_radio_power, attr_delayed_state, attr_delayed_time, attr_external_trigger,
  attr_detach_relay, apply_relay_read,
}
use zigbeemq.Relay.Patch.{RelayPatch, patch_is_empty, patch_values, ewelink_values}
use zigbeemq.Relay.Call.{
  Call, pure, raise, attempt, reply, require, gets, update_hub, device, ◌>>=◌, ◌>>◌,
}
use zigbeemq.Relay.Exchange.{relay_exchange}

abbrev pub cluster_ewelink : ℕ
cluster_ewelink = 0xFC11

abbrev coolkit_manuf : ℕ
coolkit_manuf = 0x1286

-- `relayEndpoint`.
unfoldable pub relay_endpoint : Device → ℕ
relay_endpoint d = if d.endpoint == 0 then 1 else d.endpoint

-- The assignments of `storeRelay`.
abbrev pub stored : Relay → ℕ → Device → Device
stored r now d = record (seen now d) { relay = some r }

-- `storeRelay`.
pub store_relay : Str → Relay → ℕ → Hub → Hub
store_relay ieee r now h = broadcast_device ieee (save_cache (modify ieee (stored r now) h))

module _ {World : Type 0} where
  -- A call fails with `noteUnavailable`.
  abbrev unavailable_call : {A : Type 0} → Str → Error → Call World A
  unavailable_call ieee e = do update_hub (note_unavailable ieee e); raise (map_radio_error e)

  -- `relayRadio`.
  pub relay_radio : {A : Type 0} → Str → Error → Call World A
  relay_radio ieee e = if is_unreachable e then unavailable_call ieee e else raise e

module _ {World : Type 0} (z : Goznp) (link : Link World) where
  -- `readAttrs`.
  pub read_attrs : ℕ → ℕ → ℕ → ℕ → List ℕ → Call World (List ReadResult)
  read_attrs nwk ep cluster manuf ids = do
    frame ←
        relay_exchange z link nwk ep cluster (read_request manuf ids) z.cmd_read_attributes_response
    reply (link.parse_read_response frame.payload)

  -- The results of `writeAttrs`: the first that is no success is the error.
  check_written : List WriteResult → Reply (Unit {0})
  check_written [] = ok tt
  check_written (r ∷ results) =
      let rest = check_written results in
      if r.status == z.status_success
      then rest
      else err (
          message
            (codes "write attribute 0x" ++ (hex4 r.id ++ (codes " status 0x" ++ hex2 r.status))))

  -- `writeAttrs`.
  pub write_attrs : ℕ → ℕ → ℕ → ℕ → List (ℕ × Value) → Call World (Unit {0})
  unfolding check_written
  write_attrs nwk ep cluster manuf values = do
    let out = write_request manuf values
    reply (elim (link.builds out) [ none ↦ ok tt | some e ↦ err e ])
    frame ← relay_exchange z link nwk ep cluster out z.cmd_write_attributes_response
    results ← reply (link.parse_write_response frame.payload)
    reply (check_written results)

  -- `sendEwelink`.
  pub send_ewelink : ℕ → ℕ → List ℕ → Call World (Unit {0})
  send_ewelink nwk ep payload = do
    answer ←
        relay_exchange z link nwk ep cluster_ewelink (ewelink_command payload)
          z.cmd_default_response
    pure tt

  -- `relayAttrsOK`.
  unfoldable relay_attrs_ok : List ReadResult → Bool
  relay_attrs_ok results = any (λ r. r.status == z.status_success) results

  abbrev is_good : Reply (List ReadResult) → Bool
  is_good (ok results) = relay_attrs_ok results
  is_good (err e) = false

  abbrev results_of : Reply (List ReadResult) → List ReadResult
  results_of (ok results) = results
  results_of (err e) = []

  abbrev first_error : {A : Type 0} → Option Error → Reply A → Option Error
  first_error (some e) r = some e
  first_error none (err e) = some e
  first_error none (ok a) = none

  -- What `ReadRelay` keeps of the answers without and with the code of the manufacturer.
  abbrev chosen_results : Reply (List ReadResult) → Reply (List ReadResult) → List ReadResult
  chosen_results res (err e) = []
  chosen_results res (ok again) = if relay_attrs_ok again then again else results_of res

  pub read_again :
      ℕ
      → ℕ
      → ℕ
      → Option Error
      → Reply (List ReadResult)
      → Call World (List ReadResult × Option Error)
  read_again nwk ep id first res = do
    again ← attempt (read_attrs nwk ep cluster_ewelink coolkit_manuf (id ∷ []))
    pure (chosen_results res again, first_error (first_error first res) again)

  -- One round of the loop of `ReadRelay`, with the first error so far.
  pub read_setting : ℕ → ℕ → ℕ → Option Error → Call World (List ReadResult × Option Error)
  unfolding read_again
  read_setting nwk ep id first = do
    res ← attempt (read_attrs nwk ep cluster_ewelink 0 (id ∷ []))
    if is_good res then pure (results_of res, first) else read_again nwk ep id first res

  pub read_settings : ℕ → ℕ → List ℕ → Option Error → Call World (List ReadResult × Option Error)
  unfolding read_setting
  read_settings nwk ep [] first = pure ([], first)
  read_settings nwk ep (id ∷ ids) first = do
    (results, error) ← read_setting nwk ep id first
    (more, last) ← read_settings nwk ep ids error
    pure (results ++ more, last)

  -- The attributes of the loop, in its order.
  abbrev setting_ids : List ℕ
  setting_ids =
      attr_network_led ∷ attr_radio_power ∷ attr_delayed_state ∷ attr_delayed_time
      ∷ attr_external_trigger ∷ attr_detach_relay ∷ []

  abbrev or_zero : Option Relay → Relay
  or_zero none = zero_relay
  or_zero (some r) = r

  abbrev or_unread : Option Error → Error
  or_unread none = message (codes "relay settings unread")
  or_unread (some e) = e

  -- The end of `ReadRelay`.
  pub finish_read : Device → ℕ → List ReadResult → List ReadResult → Option Error → Call World Relay
  finish_read d now startup ewelink first =
      let (next, got_startup) = apply_relay_read z startup (or_zero d.relay) in
      let (last, got_ewelink) = apply_relay_read z ewelink next in
      if got_startup || got_ewelink
      then (do update_hub (store_relay d.ieee last now); pure last)
      else relay_radio d.ieee (or_unread first)

  -- `ReadRelay`.
  unfoldable pub read_relay : Str → ℕ → Call World Relay
  unfolding finish_read
  read_relay ieee now = do
    d ← device ieee
    require (is_sonoff_mini d) not_relay
    opened ← gets (λ h. h.open_adapter)
    require opened (message (codes "adapter closed"))
    let ep = relay_endpoint d
    startup ← attempt (read_attrs d.nwk_addr ep z.cluster_on_off 0 (z.attr_start_up_on_off ∷ []))
    (ewelink, first) ← read_settings d.nwk_addr ep setting_ids (first_error none startup)
    finish_read d now (results_of startup) ewelink first

  -- The writes of `ApplyRelay`, one after the other; each stops the rest if it fails.
  pub write_startup : Device → Option ℕ → Call World (Unit {0})
  write_startup d none = pure tt
  write_startup d (some v) = do
    r ← attempt (
        write_attrs d.nwk_addr (relay_endpoint d) z.cluster_on_off 0
          ((z.attr_start_up_on_off, uint8 v) ∷ []))
    elim r [ ok u ↦ pure tt | err e ↦ relay_radio d.ieee e ]

  pub write_ewelink : Device → List (ℕ × Value) → Call World (Unit {0})
  write_ewelink d [] = pure tt
  write_ewelink d (v ∷ vs) = do
    let ep = relay_endpoint d
    r ← attempt (write_attrs d.nwk_addr ep cluster_ewelink 0 (v ∷ vs))
    again ← elim r [
      | ok u ↦ pure (ok tt)
      | err e ↦ attempt (write_attrs d.nwk_addr ep cluster_ewelink coolkit_manuf (v ∷ vs))
    ]
    elim again [ ok u ↦ pure tt | err e ↦ relay_radio d.ieee e ]

  pub write_inching : Device → Option (List ℕ) → Call World (Unit {0})
  write_inching d none = pure tt
  write_inching d (some payload) = do
    r ← attempt (send_ewelink d.nwk_addr (relay_endpoint d) payload)
    elim r [ ok u ↦ pure tt | err e ↦ relay_radio d.ieee e ]

  -- `ApplyRelay`.
  unfoldable pub apply_relay : Str → RelayPatch → ℕ → Call World Relay
  apply_relay ieee p now = do
    d ← device ieee
    require (is_sonoff_mini d) not_relay
    require (not (patch_is_empty p)) (relay_input (codes "empty"))
    values ← reply (patch_values p)
    opened ← gets (λ h. h.open_adapter)
    require opened (message (codes "adapter closed"))
    write_startup d values.startup
    write_ewelink d (ewelink_values p values)
    write_inching d values.inch
    read_relay d.ieee now
