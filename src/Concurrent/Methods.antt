-- ===== src/Concurrent/Methods.antt =====
-- The methods of the hub as goroutines (internal/hub/hub.go): commands, the reading of a device's state
-- and the recovery of unavailable devices. A method stops at each lock and unlock of the source.
pub mod Reading
pub mod Registry
pub mod Interview
use zigbeemq.Zigbee.{Goznp}
use zigbeemq.Radio.{Radio}
use zigbeemq.Errors.{Error, not_found, is_unreachable, map_radio_error}
use zigbeemq.Ieee.{compact_ieee}
use zigbeemq.Device.{Device}
use zigbeemq.Prelude.{
  ltb, if◌then◌else◌, Str, str_eq, insert, member, ℕ, Bool, false, Option, none, some, [], ◌∷◌,
}
use zigbeemq.Hub.{
  Event, device_event, CacheFile, recover, Hub, find, must_device, modify, broadcast,
}
use zigbeemq.Hub.Control.{level_of_percent, clamp_percent, set_unavailable, touched, switch_command}
use zigbeemq.Concurrent.{Routine, ends, look, change, ask, ◌>>=◌, ◌>>◌}

-- What `saveCache` writes, under the lock.
abbrev cache_of : Hub → Option CacheFile
cache_of h =
    if str_eq h.data_dir []
    then none
    else some (record { devices = h.devices; forgotten = h.forgotten })

abbrev pub is_archived : Option Device → Bool
is_archived none = false
is_archived (some d) = d.archived

-- What `startRecovery` does under its lock.
abbrev pub marks_recovering : Str → Hub → Hub
marks_recovering key h =
    if member key h.recovering
    then h
    else record h { recovering = insert key tt h.recovering; tasks = recover key ∷ h.tasks }

module _ {World : Type 0} where
  -- `Device`.
  abbrev pub looks_up : Str → Routine World (Option Device)
  looks_up ieee = look (λ h. find h ieee)

  -- `broadcast`.
  abbrev pub tells : Event → Routine World (Unit {0})
  tells ev = change (broadcast ev)

  -- `h.broadcast(Event{Type: "device", Data: mustDevice(h, ieee)})`: two locks, one after the other.
  abbrev pub announces : Str → Routine World (Unit {0})
  announces ieee = do d ← look (λ h. must_device h ieee); tells (device_event d)

  -- `os.WriteFile`: the file is cut to nothing before the bytes are written, and nothing, or a part
  -- of the text, cannot be decoded.
  abbrev pub writes : Option CacheFile → Routine World (Unit {0})
  writes none = ends tt
  writes (some file) = do
    change (λ h. record h { disk = none })
    change (λ h. record h { disk = some file })

  -- `saveCache`: the file is written after the lock is given back.
  abbrev pub saves : Routine World (Unit {0})
  saves = do file ← look cache_of; writes file

  -- `startRecovery`, up to the goroutine.
  unfoldable pub starts_recovery : Str → Routine World (Unit {0})
  starts_recovery ieee = do
    found ← looks_up (compact_ieee ieee)
    if is_archived found then ends tt else change (marks_recovering (compact_ieee ieee))

  -- `noteUnavailable`.
  unfoldable pub notes_unavailable : Str → Error → Routine World (Option Error)
  unfolding starts_recovery
  notes_unavailable ieee e = do
    change (modify ieee (set_unavailable e))
    announces ieee
    if is_unreachable e then starts_recovery ieee else ends tt
    ends (some (map_radio_error e))

  -- What a command does once the radio has answered.
  unfoldable pub settles : Str → (Device → Device) → Option Error → Routine World (Option Error)
  settles ieee f (some e) = notes_unavailable ieee e
  settles ieee f none = do change (modify ieee f); announces ieee; ends none

  -- A method that begins with `Device` and fails if there is none.
  abbrev pub with_device :
      Str → (Device → Routine World (Option Error)) → Routine World (Option Error)
  with_device ieee rest = do
    found ← looks_up ieee
    elim found [ none ↦ ends (some not_found) | some d ↦ rest d ]

module _ {World : Type 0} (z : Goznp) (r : Radio World) where
  -- `Turn`.
  unfoldable pub turns : Str → Bool → ℕ → Routine World (Option Error)
  turns ieee on now = with_device ieee λ d. do
    error ← ask (λ w. switch_command z r on w d.nwk_addr d.endpoint)
    settles ieee (λ dev. record (touched now dev) { on = some on }) error

  -- `SetBrightness`.
  unfoldable pub brightens : Str → ℕ → ℕ → Routine World (Option Error)
  brightens ieee percent now = with_device ieee λ d. do
    let p = clamp_percent percent
    error ← ask (λ w. r.set_brightness w d.nwk_addr d.endpoint (level_of_percent p) 5)
    settles ieee (λ dev. record (touched now dev) { brightness = some p; on = some (ltb 0 p) })
        error
