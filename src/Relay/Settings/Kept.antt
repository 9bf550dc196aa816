-- ===== src/Relay/Settings/Kept.antt =====
-- Reading and changing the settings of a relay keeps whatever its steps keep.
use zigbeemq.Prelude.{Str, ℕ, refl, Option, none, some, List, [], ◌∷◌}
use zigbeemq.Zigbee.{Value, ReadResult, Outgoing, Goznp}
use zigbeemq.Errors.{Error, is_unreachable}
use zigbeemq.Device.{Device}
use zigbeemq.Relay.Patch.{RelayPatch}
use zigbeemq.Radio.{Link}
use zigbeemq.Hub.{Hub}
use zigbeemq.Relay.Exchange.{relay_exchange}
use zigbeemq.Relay.Settings.{
  relay_radio, read_attrs, write_attrs, send_ewelink, read_again, read_setting, read_settings,
  finish_read, read_relay, write_startup, write_ewelink, write_inching, apply_relay,
}
use zigbeemq.Relay.Settings.Laws.{
  IsKept, Keeps, ◌▸◌, attempt-Keeps, idle-Keeps, update_hub-Keeps, if-Keeps, Reply-Keeps,
}

module _ {World : Type 0} (z : Goznp) (link : Link World) (P : Hub → Type 0) (kept : IsKept P) where
  pub relay_exchange-Keeps :
      (nwk ep cluster : ℕ) (out : Outgoing) (want : ℕ)
      → Keeps P (relay_exchange z link nwk ep cluster out want)
  unfolding relay_exchange
  relay_exchange-Keeps nwk ep cluster out want = idle-Keeps (λ h w. refl) ▸ λ _.
      update_hub-Keeps (λ h p. kept.numbered h _ p) ▸ λ _. idle-Keeps (λ h w. refl) ▸ λ seq.
      idle-Keeps (λ h w. refl) ▸ λ _. idle-Keeps (λ h w. refl) ▸ λ _. idle-Keeps (λ h w. refl)

  relay_radio-Keeps :
      {A : Type 0} (ieee : Str) (e : Error) → Keeps P (relay_radio {World = World} {A = A} ieee e)
  unfolding relay_radio
  relay_radio-Keeps ieee e =
      if-Keeps (is_unreachable e)
        (update_hub-Keeps (kept.lost ieee e) ▸ λ _. idle-Keeps (λ h w. refl))
        (idle-Keeps (λ h w. refl))

  read_attrs-Keeps :
      (nwk ep cluster manuf : ℕ) (ids : List ℕ)
      → Keeps P (read_attrs z link nwk ep cluster manuf ids)
  unfolding read_attrs
  read_attrs-Keeps nwk ep cluster manuf ids =
      relay_exchange-Keeps nwk ep cluster _ _ ▸ λ frame. idle-Keeps (λ h w. refl)

  write_attrs-Keeps :
      (nwk ep cluster manuf : ℕ) (values : List (ℕ × Value))
      → Keeps P (write_attrs z link nwk ep cluster manuf values)
  unfolding write_attrs
  write_attrs-Keeps nwk ep cluster manuf values = idle-Keeps (λ h w. refl) ▸ λ _.
      relay_exchange-Keeps nwk ep cluster _ _ ▸ λ frame.
      idle-Keeps (λ h w. refl) ▸ λ results. idle-Keeps (λ h w. refl)

  send_ewelink-Keeps :
      (nwk ep : ℕ) (payload : List ℕ) → Keeps P (send_ewelink z link nwk ep payload)
  unfolding send_ewelink
  send_ewelink-Keeps nwk ep payload =
      relay_exchange-Keeps nwk ep _ _ _ ▸ λ frame. idle-Keeps (λ h w. refl)

  read_setting-Keeps :
      (nwk ep id : ℕ) (first : Option Error) → Keeps P (read_setting z link nwk ep id first)
  unfolding read_setting read_again
  read_setting-Keeps nwk ep id first = attempt-Keeps (read_attrs-Keeps nwk ep _ _ _) ▸ λ res.
      if-Keeps _ (idle-Keeps (λ h w. refl))
        (attempt-Keeps (read_attrs-Keeps nwk ep _ _ _) ▸ λ again. idle-Keeps (λ h w. refl))

  read_settings-Keeps :
      (nwk ep : ℕ) (ids : List ℕ) (first : Option Error)
      → Keeps P (read_settings z link nwk ep ids first)
  unfolding read_settings
  read_settings-Keeps nwk ep [] first = idle-Keeps (λ h w. refl)
  read_settings-Keeps nwk ep (id ∷ ids) first = read_setting-Keeps nwk ep id first ▸ λ one.
      read_settings-Keeps nwk ep ids one.1 ▸ λ more. idle-Keeps (λ h w. refl)

  finish_read-Keeps :
      (d : Device) (now : ℕ) (startup ewelink : List ReadResult) (first : Option Error)
      → Keeps P (finish_read {World = World} z link d now startup ewelink first)
  unfolding finish_read
  finish_read-Keeps d now startup ewelink first =
      if-Keeps _
        (update_hub-Keeps (λ h p. kept.settled d.ieee _ now h p) ▸ λ _. idle-Keeps (λ h w. refl))
        (relay_radio-Keeps d.ieee _)

  pub read_relay-Keeps : (ieee : Str) (now : ℕ) → Keeps P (read_relay z link ieee now)
  unfolding read_relay
  read_relay-Keeps ieee now = idle-Keeps (λ h w. refl) ▸ λ d. idle-Keeps (λ h w. refl) ▸ λ _.
      idle-Keeps (λ h w. refl) ▸ λ opened. idle-Keeps (λ h w. refl) ▸ λ _.
      attempt-Keeps (read_attrs-Keeps d.nwk_addr _ _ _ _) ▸ λ startup.
      read_settings-Keeps d.nwk_addr _ _ _ ▸ λ read. finish_read-Keeps d now _ _ read.1

  write_startup-Keeps : (d : Device) (v : Option ℕ) → Keeps P (write_startup z link d v)
  unfolding write_startup
  write_startup-Keeps d none = idle-Keeps (λ h w. refl)
  write_startup-Keeps d (some v) = attempt-Keeps (write_attrs-Keeps d.nwk_addr _ _ _ _) ▸ λ r.
      Reply-Keeps r (λ u. idle-Keeps (λ h w. refl)) (λ e. relay_radio-Keeps d.ieee e)

  write_ewelink-Keeps : (d : Device) (vs : List (ℕ × Value)) → Keeps P (write_ewelink z link d vs)
  unfolding write_ewelink
  write_ewelink-Keeps d [] = idle-Keeps (λ h w. refl)
  write_ewelink-Keeps d (v ∷ vs) = attempt-Keeps (write_attrs-Keeps d.nwk_addr _ _ _ _) ▸ λ r.
      Reply-Keeps r (λ u. idle-Keeps (λ h w. refl))
        (λ e. attempt-Keeps (write_attrs-Keeps d.nwk_addr _ _ _ _))
      ▸ λ again. Reply-Keeps again (λ u. idle-Keeps (λ h w. refl)) (λ e. relay_radio-Keeps d.ieee e)

  write_inching-Keeps :
      (d : Device) (payload : Option (List ℕ)) → Keeps P (write_inching z link d payload)
  unfolding write_inching
  write_inching-Keeps d none = idle-Keeps (λ h w. refl)
  write_inching-Keeps d (some payload) =
      attempt-Keeps (send_ewelink-Keeps d.nwk_addr _ payload) ▸ λ r.
      Reply-Keeps r (λ u. idle-Keeps (λ h w. refl)) (λ e. relay_radio-Keeps d.ieee e)

  pub apply_relay-Keeps :
      (ieee : Str) (p : RelayPatch) (now : ℕ) → Keeps P (apply_relay z link ieee p now)
  unfolding apply_relay
  apply_relay-Keeps ieee p now = idle-Keeps (λ h w. refl) ▸ λ d. idle-Keeps (λ h w. refl) ▸ λ _.
      idle-Keeps (λ h w. refl) ▸ λ _. idle-Keeps (λ h w. refl) ▸ λ values.
      idle-Keeps (λ h w. refl) ▸ λ opened. idle-Keeps (λ h w. refl) ▸ λ _.
      write_startup-Keeps d values.startup ▸ λ _. write_ewelink-Keeps d _ ▸ λ _.
      write_inching-Keeps d values.inch ▸ λ _. read_relay-Keeps d.ieee now
