-- ===== src/Hub/Start.antt =====
-- How the hub starts and what it knows of the network (`Open`, `expandHAEndpoint`, `Network`,
-- internal/hub/hub.go and internal/hub/incoming.go).
pub mod Laws
use zigbeemq.Prelude.{
  ltb, ◌==◌, if◌then◌else◌, codes, ℕ, zero, suc, ◌-◌, true, Option, none, some, ◌++◌,
}
use zigbeemq.Zigbee.{NetworkInfo, Goznp}
use zigbeemq.Errors.{Error, message, Reply, ok, err, error_text}
use zigbeemq.Radio.{Radio, Link}
use zigbeemq.Hub.{Hub, snapshot, load_cache}
use zigbeemq.Hub.Registry.{refresh}
use zigbeemq.Relay.Settings.Setup.{schedule_relay_setup}

module _ {World : Type 0} (link : Link World) where
  -- The loop of `expandHAEndpoint`: endpoint 1 is deleted and registered anew until the status is 0.
  register_tries : ℕ → World → World × Option Error
  register_tries zero w = (w, some (message (codes "could not register OnOff on endpoint 1")))
  register_tries (suc tries) w =
      let (w', reply) = link.af_register (link.af_delete w 1) in
      let rest = register_tries tries w' in
      elim reply [ err e ↦ (w', some e) | ok status ↦ if status == 0 then (w', none) else rest ]

  -- `expandHAEndpoint`.
  unfoldable pub expand_ha_endpoint : World → World × Option Error
  unfolding register_tries
  expand_ha_endpoint w =
      if link.present then register_tries 4 w else (w, some (message (codes "no znp client")))

module _ {World : Type 0} (z : Goznp) (r : Radio World) (link : Link World) where
  -- What `Open` asks for after the coordinator's address.
  unfoldable pub finish_open : Hub → World → Hub × World × Option Error
  finish_open h w =
      let (h', w', error) = refresh z r h w in
      elim error [
        | some e ↦ (h', w', some e)
        | none ↦ (schedule_relay_setup (snapshot h') h', w', none)
      ]

  -- `Open`; `opened` is the error with which the adapter's own `Open` ends.
  unfoldable pub open_hub : Option Error → Hub → World → Hub × World × Option Error
  open_hub (some e) h w = (h, w, some (message (codes "open adapter: " ++ error_text e)))
  open_hub none h w =
      let loaded = load_cache (record h { open_adapter = true }) in
      let (w1, expanded) = expand_ha_endpoint link w in
      let (w2, reply) = r.get_coordinator_ieee w1 in
      elim reply [
        | err e ↦ finish_open loaded w2
        | ok ieee ↦ finish_open (record loaded { coord_ieee = ieee }) w2
      ]

-- 30 seconds.
abbrev pub network_age : ℕ
network_age = 30000000000

module _ {World : Type 0} (r : Radio World) where
  -- The part of `Network` that asks the radio; `later` is the time at which it has answered.
  unfoldable pub ask_network : ℕ → Hub → World → Hub × World × Reply NetworkInfo
  ask_network later h w =
      let (w', reply) = r.get_network_info w in
      elim reply [
        | err e ↦ (h, w', err e)
        | ok info ↦ (record h { net_info = some info; net_at = later }, w', ok info)
      ]

  -- `Network`.
  unfoldable pub network : ℕ → ℕ → Hub → World → Hub × World × Reply NetworkInfo
  unfolding ask_network
  network now later h w = elim h.net_info [
    | none ↦ ask_network later h w
    | some info ↦
        let asked = ask_network later h w in
        if ltb (now - h.net_at) network_age then (h, w, ok info) else asked
  ]
