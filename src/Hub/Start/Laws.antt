-- ===== src/Hub/Start/Laws.antt =====
-- What `Open` starts, and how long the answer of `Network` is kept (internal/hub/hub.go).
use zigbeemq.Prelude.{
  Bool-cases, Option-cases, any, Str, str_eq, after, ℕ, ◌+◌, ◌<◌, ◌≡◌, refl, inl, inr, Bool, true,
  false, ◌&&◌, ◌||◌, not, Option, none, some, List, [], ◌∷◌, arith,
}
use zigbeemq.Zigbee.{NetworkInfo, Goznp}
use zigbeemq.Errors.{Error, ok, Reply-cases}
use zigbeemq.Radio.{Radio, Link}
use zigbeemq.Hub.{Task, setup_relay, Hub, snapshot, load_cache}
use zigbeemq.Device.{Device, is_sonoff_mini}
use zigbeemq.Relay.Settings.Setup.{schedule_relay_setup}
use zigbeemq.Hub.Registry.{refresh}
use zigbeemq.Hub.Start.{
  expand_ha_endpoint, finish_open, open_hub, network_age, ask_network, network,
}

-- An answer of `Network` is given again, by later calls within 30 seconds of its arrival, without a
-- call of the radio; whatever the first call found in the hub.
network_kept :
    {World : Type 0} (r : Radio World) (now later again after : ℕ) (h : Hub) (w w' : World)
    (info : NetworkInfo)
    → h.net_info ≡ none
    → (network r now later h w).2 ≡ ok info
    → again < later + network_age
    → network r again after (network r now later h w).0 w'
      ≡ ((network r now later h w).0, w', ok info)
unfolding network ask_network
network_kept r now later again after h w w' info unknown answered soon =
    elim (Reply-cases (r.get_network_info w).1) [
      | inl (i, got) ↦ ground arith
      | inr (e, failed) ↦ ground arith
    ]

-- Whether a set-up of the relay at `ieee` is among the tasks.
pub starts_setup : Str → List Task → Bool
starts_setup ieee [] = false
starts_setup ieee (setup_relay i ∷ tasks) = str_eq i ieee || starts_setup ieee tasks
starts_setup ieee (_ ∷ tasks) = starts_setup ieee tasks

-- A relay of the list that is in use.
abbrev pub is_active_relay : Str → Device → Bool
is_active_relay ieee d = (is_sonoff_mini d && not d.archived) && str_eq d.ieee ieee

starts_setup-schedule :
    (ieee : Str) (ds : List Device) (h : Hub)
    → starts_setup ieee (schedule_relay_setup ds h).tasks
      ≡ (any (is_active_relay ieee) ds || starts_setup ieee h.tasks)
unfolding schedule_relay_setup starts_setup
starts_setup-schedule ieee [] h = refl
starts_setup-schedule ieee (d ∷ ds) h = elim (Bool-cases (is_sonoff_mini d && not d.archived)) [
  | inl active ↦
      ground
        (arith, starts_setup-schedule ieee ds (record h { tasks = setup_relay d.ieee ∷ h.tasks }))
  | inr passed ↦ ground (arith, starts_setup-schedule ieee ds h)
]

schedule-devices : (ds : List Device) (h : Hub) → (schedule_relay_setup ds h).devices ≡ h.devices
unfolding schedule_relay_setup
schedule-devices [] h = refl
schedule-devices (d ∷ ds) h = ground (
  arith,
  schedule-devices ds (record h { tasks = setup_relay d.ieee ∷ h.tasks }),
  schedule-devices ds h,
)

snapshot-schedule : (ds : List Device) (h : Hub) → snapshot (schedule_relay_setup ds h) ≡ snapshot h
unfolding snapshot
snapshot-schedule ds h = ground (arith, schedule-devices ds h)

finish_open-setups :
    {World : Type 0} (z : Goznp) (r : Radio World) (link : Link World) (h : Hub) (w : World)
    (ieee : Str)
    → (finish_open z r link h w).2 ≡ none
    → any (is_active_relay ieee) (snapshot (finish_open z r link h w).0) ≡ true
    → starts_setup ieee (finish_open z r link h w).0.tasks ≡ true
unfolding finish_open
finish_open-setups z r link h w ieee done listed =
    let h' = (refresh z r h w).0 in
    elim (Option-cases (refresh z r h w).2) [
      | inl fine ↦
          let same : (finish_open z r link h w).0 ≡ schedule_relay_setup (snapshot h') h' =
            ground arith in
          ground (
            arith,
            same,
            snapshot-schedule (snapshot h') h',
            starts_setup-schedule ieee (snapshot h') h',
          )
      | inr (e, failed) ↦ ground arith
    ]

-- Where `Open` succeeds, it has started the set-up of every ZBMINIR2 of the table that is not
-- archived.
pub open_hub-setups :
    {World : Type 0} (z : Goznp) (r : Radio World) (link : Link World) (opened : Option Error)
    (h : Hub) (w : World) (ieee : Str)
    → (open_hub z r link opened h w).2 ≡ none
    → any (is_active_relay ieee) (snapshot (open_hub z r link opened h w).0) ≡ true
    → starts_setup ieee (open_hub z r link opened h w).0.tasks ≡ true
unfolding open_hub
open_hub-setups z r link (some e) h w ieee done listed = ground arith
open_hub-setups z r link none h w ieee done listed =
    let loaded = load_cache (record h { open_adapter = true }) in
    let w1 = (expand_ha_endpoint link w).0 in
    let w2 = (r.get_coordinator_ieee w1).0 in
    elim (Reply-cases (r.get_coordinator_ieee w1).1) [
      | inl (addr, got) ↦
          let named = record loaded { coord_ieee = addr } in
          let same : open_hub z r link none h w ≡ finish_open z r link named w2 = ground arith in
          rw same (finish_open-setups z r link named w2 ieee (rw same at done) (rw same at listed))
      | inr (e, failed) ↦
          let same : open_hub z r link none h w ≡ finish_open z r link loaded w2 = ground arith in
          rw same (finish_open-setups z r link loaded w2 ieee (rw same at done) (rw same at listed))
    ]
