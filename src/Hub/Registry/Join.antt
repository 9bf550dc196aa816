-- ===== src/Hub/Registry/Join.antt =====
-- The goroutine that the join callback of `Open` starts (internal/hub/hub.go): whatever `Refresh` finds,
-- a device that joined is recorded and asked what it is.
use zigbeemq.Prelude.{◌==◌, if◌then◌else◌, ℕ, ◌&&◌, ◌||◌, not, none, some}
use zigbeemq.Zigbee.{Goznp, DeviceEvent}
use zigbeemq.Ieee.{is_zero_ieee}
use zigbeemq.Radio.{Radio}
use zigbeemq.Hub.{Hub, find}
use zigbeemq.Hub.Registry.{note_joined, Finder, refresh, event_ieee}
use zigbeemq.Hub.Registry.Interview.{interview}

-- `nwk` of the callback.
abbrev pub event_nwk : DeviceEvent → ℕ
event_nwk ev = elim ev.device [ none ↦ 0 | some d ↦ d.nwk_addr ]

module _ {World : Type 0} (z : Goznp) (f : Finder) (r : Radio World) where
  unfoldable pub run_join : DeviceEvent → ℕ → Hub → World → Hub × World
  run_join ev now h w =
      let ieee = event_ieee z ev in
      let (h1, w1, error) = refresh z r h w in
      let (h2, noted) = note_joined ieee (event_nwk ev) now h1 in
      let (h3, w3, failed) = interview z f r ieee now h2 w1 in
      if ev.joined && not (is_zero_ieee ieee)
      then elim (find h2 ieee) [
        | none ↦ (h2, w1)
        | some d ↦ if d.archived || d.nwk_addr == 0 then (h2, w1) else (h3, w3)
      ]
      else (h1, w1)
