-- ===== src/Hub/Bind/Laws.antt =====
-- When a switch is bound again (internal/hub/incoming.go).
use zigbeemq.Prelude.{
  ◌==◌, if◌then◌else◌, Option-cases, is_some, str_eq_iff, StrSet, insert, lookup-insert,
  lookup-delete, member, ℕ, ◌≡◌, inl, inr, false, not, none, some, List, arith,
}
use zigbeemq.Zigbee.{Goznp}
use zigbeemq.Radio.{Radio}
use zigbeemq.Ieee.{compact_ieee, parse_ieee}
use zigbeemq.Device.{Device}
use zigbeemq.Hub.Bind.{maybe_bind_switch, run_bind}

-- A switch that is not bound: once the goroutine that binds it has run, the next call starts no other
-- one exactly if its address could be parsed and the bind succeeded.
bind_kept_iff :
    {World : Type 0} (z : Goznp) (r : Radio World) (d : Device) (coord : List ℕ) (bound : StrSet)
    (w : World)
    → member (compact_ieee d.ieee) bound ≡ false
    → let later_bound =
        (run_bind z r (compact_ieee d.ieee) d coord (maybe_bind_switch d bound).0 w).0 in
      not (is_some (maybe_bind_switch d later_bound).1) ≡ elim (parse_ieee z d.ieee) [
        | none ↦ false
        | some addr ↦ not (
            is_some
              (r.bind w addr d.nwk_addr
                (if d.endpoint == 0 then 1 else d.endpoint)
                z.cluster_on_off
                coord).1)
      ]
unfolding maybe_bind_switch run_bind
bind_kept_iff z r d coord bound w fresh =
    let key = compact_ieee d.ieee in
    elim (Option-cases (parse_ieee z d.ieee)) [
      | inl bad ↦ ground (
        arith,
        lookup-delete key key (insert key tt bound),
        lookup-insert key key tt bound,
        str_eq_iff key key,
      )
      | inr (addr, good) ↦ ground (
        arith,
        lookup-delete key key (insert key tt bound),
        lookup-insert key key tt bound,
        str_eq_iff key key,
      )
    ]
