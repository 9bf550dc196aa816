-- ===== src/Relay/Settings/Valid.antt =====
-- Reading, changing and setting up relays: the table of devices stays well formed, and no set-up is
-- left marked as running.
use zigbeemq.Prelude.{
  Bool-cases, Option-cases, Str, str_eq_iff, StrSet, insert, delete, lookup-insert, lookup-delete,
  member, ℕ, ◌≡◌, refl, inl, inr, false, ◌||◌, not, arith,
}
use zigbeemq.Zigbee.{Goznp}
use zigbeemq.Errors.{Error}
use zigbeemq.Ieee.{compact_ieee}
use zigbeemq.Device.{Relay, Device, is_sonoff_mini}
use zigbeemq.Radio.{Radio, Link}
use zigbeemq.Hub.{Hub, find, modify, broadcast, broadcast_device, save_cache}
use zigbeemq.Hub.Control.{start_recovery, note_unavailable}
use zigbeemq.Hub.Registry.Table.{IsValid, IsValid-of_adjust, IsValid-of_same}
use zigbeemq.Hub.Registry.Steps.{note_unavailable-IsValid}
use zigbeemq.Relay.Patch.{RelayPatch}
use zigbeemq.Relay.Settings.{stored, store_relay, read_relay, apply_relay}
use zigbeemq.Relay.Settings.Setup.{bind_relay, report_relay_on_off, set_up, setup_relay_now}
use zigbeemq.Relay.Settings.Laws.{IsKept, Keeps, ◌▸◌, attempt-Keeps, idle-Keeps}
use zigbeemq.Relay.Settings.Kept.{relay_exchange-Keeps, read_relay-Keeps, apply_relay-Keeps}

store_relay-IsValid :
    (ieee : Str) (r : Relay) (now : ℕ) (h : Hub) → IsValid h → IsValid (store_relay ieee r now h)
unfolding store_relay broadcast_device save_cache modify
store_relay-IsValid ieee r now h t =
    IsValid-of_adjust ieee (stored r now) h (store_relay ieee r now h) (λ d. refl) (ground arith)
      (ground arith) t

IsValid-IsKept : IsKept IsValid
IsValid-IsKept = record {
  numbered = λ h n t. t;
  lost = note_unavailable-IsValid;
  settled = store_relay-IsValid;
}

-- The relays whose set-up runs are those of the set `busy`.
abbrev HasBusy : StrSet → Hub → Type 0
HasBusy busy h = h.relay_busy ≡ busy

note_unavailable-HasBusy :
    (busy : StrSet) (ieee : Str) (e : Error) (h : Hub)
    → HasBusy busy h
    → HasBusy busy (note_unavailable ieee e h)
unfolding note_unavailable start_recovery broadcast_device modify broadcast
note_unavailable-HasBusy busy ieee e h b = ground arith

store_relay-HasBusy :
    (busy : StrSet) (ieee : Str) (r : Relay) (now : ℕ) (h : Hub)
    → HasBusy busy h
    → HasBusy busy (store_relay ieee r now h)
unfolding store_relay broadcast_device save_cache modify broadcast
store_relay-HasBusy busy ieee r now h b = ground arith

HasBusy-IsKept : (busy : StrSet) → IsKept (HasBusy busy)
HasBusy-IsKept busy = record {
  numbered = λ h n b. b;
  lost = note_unavailable-HasBusy busy;
  settled = store_relay-HasBusy busy;
}

module _ {World : Type 0} (z : Goznp) (r : Radio World) (link : Link World) where
  pub read_relay-IsValid :
      (ieee : Str) (now : ℕ) (h : Hub) (w : World)
      → IsValid h
      → IsValid (read_relay z link ieee now h w).0
  read_relay-IsValid ieee now = (read_relay-Keeps z link IsValid IsValid-IsKept ieee now).holds

  pub apply_relay-IsValid :
      (ieee : Str) (p : RelayPatch) (now : ℕ) (h : Hub) (w : World)
      → IsValid h
      → IsValid (apply_relay z link ieee p now h w).0
  apply_relay-IsValid ieee p now =
      (apply_relay-Keeps z link IsValid IsValid-IsKept ieee p now).holds

  module _ (P : Hub → Type 0) (kept : IsKept P) where
    bind_relay-Keeps : (d : Device) → Keeps P (bind_relay z r link d)
    unfolding bind_relay
    bind_relay-Keeps d = idle-Keeps (λ h w. ground arith)

    report_relay_on_off-Keeps : (d : Device) → Keeps P (report_relay_on_off z r link d)
    unfolding report_relay_on_off
    report_relay_on_off-Keeps d = idle-Keeps (λ h w. refl) ▸ λ _.
        relay_exchange-Keeps z link P kept d.nwk_addr _ _ _ _ ▸ λ frame. idle-Keeps (λ h w. refl)

    set_up-Keeps : (key : Str) (d : Device) (now : ℕ) → Keeps P (set_up z r link key d now)
    unfolding set_up
    set_up-Keeps key d now = bind_relay-Keeps d ▸ λ _.
        attempt-Keeps (read_relay-Keeps z link P kept key now) ▸ λ read.
        attempt-Keeps (report_relay_on_off-Keeps d) ▸ λ reported. idle-Keeps (λ h w. refl)

  pub setup_relay_now-IsValid :
      (ieee : Str) (now : ℕ) (h : Hub) (w : World)
      → IsValid h
      → IsValid (setup_relay_now z r link ieee now h w).0
  unfolding setup_relay_now
  setup_relay_now-IsValid ieee now h w t =
      let key = compact_ieee ieee in
      let busy = record h { relay_busy = insert key tt h.relay_busy } in
      let h' = (setup_relay_now z r link ieee now h w).0 in
      elim (Bool-cases (member key h.relay_busy)) [
        | inl running ↦ IsValid-of_same h h' (ground arith) (ground arith) t
        | inr idle ↦ elim (Option-cases (find busy key)) [
          | inl missing ↦ IsValid-of_same h h' (ground arith) (ground arith) t
          | inr (d, found) ↦ elim (Bool-cases (not (is_sonoff_mini d) || d.archived)) [
            | inl passed ↦ IsValid-of_same h h' (ground arith) (ground arith) t
            | inr mini ↦
                IsValid-of_same (set_up z r link key d now busy w).0 h' (ground arith)
                  (ground arith) ((set_up-Keeps IsValid IsValid-IsKept key d now).holds busy w t)
          ]
        ]
      ]

  -- Whatever the radio answers, once `setupRelay` has ended, the relays whose set-up is marked as
  -- running are those that were marked before it; so no failure leaves a mark behind.
  pub setup_relay_now-relay_busy :
      (ieee k : Str) (now : ℕ) (h : Hub) (w : World)
      → member k (setup_relay_now z r link ieee now h w).0.relay_busy ≡ member k h.relay_busy
  unfolding setup_relay_now
  setup_relay_now-relay_busy ieee k now h w =
      let key = compact_ieee ieee in
      let marked = insert key tt h.relay_busy in
      let busy = record h { relay_busy = marked } in
      let back : member key h.relay_busy ≡ false
          → member k (delete key marked) ≡ member k h.relay_busy =
        λ e. ground (
          arith,
          lookup-delete key k marked,
          lookup-insert key k tt h.relay_busy,
          str_eq_iff key k,
        ) in
      elim (Bool-cases (member key h.relay_busy)) [
        | inl running ↦ ground arith
        | inr idle ↦ elim (Option-cases (find busy key)) [
          | inl missing ↦ ground (arith, back idle)
          | inr (d, found) ↦ elim (Bool-cases (not (is_sonoff_mini d) || d.archived)) [
            | inl passed ↦ ground (arith, back idle)
            | inr mini ↦ ground (
              arith,
              back idle,
              (set_up-Keeps (HasBusy marked) (HasBusy-IsKept marked) key d now).holds busy w refl,
            )
          ]
        ]
      ]
