-- ===== src/Relay/Settings/Setup.antt =====
-- Setting a relay up (`setupRelay`, `bindRelay`, `reportRelayOnOff` and `scheduleRelaySetup` of
-- internal/hub/relay.go).
use zigbeemq.Prelude.{
  ◌==◌, if◌then◌else◌, all, Str, insert, delete, member, ℕ, Bool, ◌&&◌, ◌||◌, not, none, some, List,
  [], ◌∷◌,
}
use zigbeemq.Zigbee.{report_request, Goznp}
use zigbeemq.Errors.{ok, err}
use zigbeemq.Ieee.{compact_ieee, parse_ieee}
use zigbeemq.Device.{Device, is_sonoff_mini}
use zigbeemq.Radio.{Radio, Link}
use zigbeemq.Hub.{setup_relay, Hub, find}
use zigbeemq.Relay.Call.{Call, pure, attempt, reply, ◌>>=◌, ◌>>◌}
use zigbeemq.Relay.Exchange.{relay_exchange}
use zigbeemq.Relay.Settings.{cluster_ewelink, relay_endpoint, read_relay}

-- `[8]byte{}`, or an address that was never read.
abbrev is_unset : List ℕ → Bool
is_unset coord = all (λ b. b == 0) coord

module _ {World : Type 0} (z : Goznp) (r : Radio World) (link : Link World) where
  -- The loop of `bindRelay`; errors are passed over.
  bind_clusters : List ℕ → Device → List ℕ → List ℕ → World → World
  bind_clusters addr d coord [] w = w
  bind_clusters addr d coord (cluster ∷ clusters) w =
      bind_clusters addr d coord clusters
        (r.bind w addr d.nwk_addr (relay_endpoint d) cluster coord).0

  -- `bindRelay`.
  unfoldable pub bind_relay : Device → Call World (Unit {0})
  unfolding bind_clusters
  bind_relay d h w = if is_unset h.coord_ieee then (h, w, ok tt) else elim (parse_ieee z d.ieee) [
    | none ↦ (h, w, ok tt)
    | some addr ↦
        (h, bind_clusters addr d h.coord_ieee (z.cluster_on_off ∷ cluster_ewelink ∷ []) w, ok tt)
  ]

  -- `reportRelayOnOff`.
  unfoldable pub report_relay_on_off : Device → Call World (Unit {0})
  report_relay_on_off d = do
    reply (elim (link.builds report_request) [ none ↦ ok tt | some e ↦ err e ])
    answer ←
        relay_exchange z link d.nwk_addr (relay_endpoint d) z.cluster_on_off report_request
          z.cmd_configure_reporting_resp
    pure tt

  -- What `setupRelay` does for a relay that is not archived.
  unfoldable pub set_up : Str → Device → ℕ → Call World (Unit {0})
  set_up key d now = do
    bind_relay d
    read ← attempt (read_relay z link key now)
    reported ← attempt (report_relay_on_off d)
    pure tt

  -- `setupRelay`.
  unfoldable pub setup_relay_now : Str → ℕ → Hub → World → Hub × World
  setup_relay_now ieee now h w =
      let key = compact_ieee ieee in
      let busy = record h { relay_busy = insert key tt h.relay_busy } in
      let leave = λ (h' : Hub). record h' { relay_busy = delete key h'.relay_busy } in
      if member key h.relay_busy then (h, w) else elim (find busy key) [
        | none ↦ (leave busy, w)
        | some d ↦
            if not (is_sonoff_mini d) || d.archived
            then (leave busy, w)
            else (let (h', w', done) = set_up key d now busy w in (leave h', w'))
      ]

-- `scheduleRelaySetup`, up to its goroutines.
unfoldable pub schedule_relay_setup : List Device → Hub → Hub
schedule_relay_setup [] h = h
schedule_relay_setup (d ∷ devices) h =
    let rest = schedule_relay_setup devices in
    if is_sonoff_mini d && not d.archived
    then rest (record h { tasks = setup_relay d.ieee ∷ h.tasks })
    else rest h
