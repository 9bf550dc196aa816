-- ===== src/Hub/Bind.antt =====
-- Binding a switch to the coordinator (`maybeBindSwitch` and `clearBound`, internal/hub/incoming.go). The
-- field `bound` of the hub, which nothing else uses, is passed by itself, and the goroutine is a value.
pub mod Laws
use zigbeemq.Prelude.{
  ◌==◌, if◌then◌else◌, is_some, Str, StrSet, insert, delete, member, ℕ, Option, none, some, List,
}
use zigbeemq.Zigbee.{Goznp}
use zigbeemq.Radio.{Radio}
use zigbeemq.Ieee.{compact_ieee, parse_ieee}
use zigbeemq.Device.{Device}

-- `clearBound`.
abbrev clear_bound : Str → StrSet → StrSet
clear_bound key bound = delete key bound

-- `maybeBindSwitch`, with the goroutine that it starts: the key and the device.
pub maybe_bind_switch : Device → StrSet → StrSet × Option (Str × Device)
maybe_bind_switch d bound =
    let key = compact_ieee d.ieee in
    if member key bound then (bound, none) else (insert key tt bound, some (key, d))

module _ {World : Type 0} (z : Goznp) (r : Radio World) where
  -- The goroutine, with the coordinator's address.
  pub run_bind : Str → Device → List ℕ → StrSet → World → StrSet × World
  run_bind key d coord bound w = elim (parse_ieee z d.ieee) [
    | none ↦ (clear_bound key bound, w)
    | some addr ↦
        let ep = if d.endpoint == 0 then 1 else d.endpoint in
        let (w', error) = r.bind w addr d.nwk_addr ep z.cluster_on_off coord in
        (if is_some error then clear_bound key bound else bound, w')
  ]
