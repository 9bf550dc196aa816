-- ===== src/Concurrent/Methods/Reading.antt =====
-- Reading the state of a device, and what comes of it (`readState`, `Toggle`, the goroutine of
-- `startRecovery`, internal/hub/hub.go), as goroutines.
use zigbeemq.Zigbee.{Goznp}
use zigbeemq.Radio.{Radio}
use zigbeemq.Errors.{Error, Reply, ok, err}
use zigbeemq.Device.{Device, seen, is_light_like, is_light, is_motion}
use zigbeemq.Prelude.{
  if◌then◌else◌, is_some, Str, delete, ℕ, Bool, true, false, ◌||◌, Option, none, some, List, [],
  ◌∷◌,
}
use zigbeemq.Hub.{Hub, find, modify}
use zigbeemq.Hub.Control.{percent_of_level, read_occupancy}
use zigbeemq.Concurrent.{Routine, ends, locked, change, ask, ◌>>=◌, ◌>>◌}
use zigbeemq.Concurrent.Methods.{looks_up, announces, notes_unavailable, with_device}

-- What the first part of `readState` does with an answer, under the lock.
abbrev pub notes_on_off : Str → ℕ → Reply Bool → Hub → Hub × Bool
notes_on_off ieee now (err e) h = (modify ieee (λ dev. record dev { reachable = false }) h, false)
notes_on_off ieee now (ok b) h =
    (modify ieee (λ dev. record (seen now dev) { on = some b }) h, is_some (find h ieee))

module _ {World : Type 0} where
  -- What the others do.
  abbrev pub notes : {A : Type 0} → Str → (A → Device → Device) → Reply A → Routine World Bool
  notes ieee f (err e) = ends false
  notes ieee f (ok a) = do change (modify ieee (f a)); ends true

module _ {World : Type 0} (z : Goznp) (r : Radio World) where
  abbrev pub asks_on_off : Device → Str → ℕ → Routine World Bool
  asks_on_off d ieee now = do
    reply ← ask (λ w. r.get_on_off_state w d.nwk_addr d.endpoint)
    locked (notes_on_off ieee now reply) ends

  abbrev pub asks_level : Device → Str → ℕ → Routine World Bool
  asks_level d ieee now = do
    reply ← ask (λ w. r.get_brightness w d.nwk_addr d.endpoint)
    notes ieee (λ level dev. record (seen now dev) { brightness = some (percent_of_level level) })
        reply

  abbrev pub asks_motion : Device → Str → ℕ → Routine World Bool
  asks_motion d ieee now = do
    reply ← ask (read_occupancy z r d)
    notes ieee (λ occ dev. record (seen now dev) { occupancy = some occ }) reply

  -- The three parts of `readState`: the conditions look at the snapshot taken at the start.
  abbrev pub reads_on_off : Device → Str → ℕ → Routine World Bool
  reads_on_off d ieee now =
      if d.has_on_off || is_light_like d.kind then asks_on_off d ieee now else ends false

  abbrev pub reads_level : Device → Str → ℕ → Routine World Bool
  reads_level d ieee now =
      if d.has_level || is_light d.kind then asks_level d ieee now else ends false

  abbrev pub reads_motion : Device → Str → ℕ → Routine World Bool
  reads_motion d ieee now =
      if d.has_occupancy || is_motion d.kind then asks_motion d ieee now else ends false

  unfoldable pub reads_parts : Device → Str → ℕ → Routine World Bool
  reads_parts d ieee now = do
    a ← reads_on_off d ieee now
    b ← reads_level d ieee now
    c ← reads_motion d ieee now
    ends (a || b || c)

  -- `readState`.
  unfoldable pub reads_state : Str → ℕ → Routine World Bool
  unfolding reads_parts
  reads_state ieee now = do
    found ← looks_up ieee
    elim found [ none ↦ ends false | some d ↦ reads_parts d ieee now ]

  unfoldable pub toggled : Str → ℕ → Option Error → Routine World (Option Error)
  toggled ieee now (some e) = notes_unavailable ieee e
  toggled ieee now none = do reached ← reads_state ieee now; announces ieee; ends none

  -- `Toggle`.
  unfoldable pub toggles : Str → ℕ → Routine World (Option Error)
  unfolding toggled
  toggles ieee now =
      with_device ieee
        λ d. do error ← ask (λ w. r.toggle w d.nwk_addr d.endpoint); toggled ieee now error

  -- One round of the goroutine of `startRecovery` after its sleep, with the rounds after it.
  abbrev pub tries : Str → ℕ → Routine World (Unit {0}) → Routine World (Unit {0})
  tries key now later = do reached ← reads_state key now; if reached then announces key else later

  abbrev pub recovery_round :
      Str → ℕ → Routine World (Unit {0}) → Option Device → Routine World (Unit {0})
  recovery_round key now later none = ends tt
  recovery_round key now later (some d) = if d.archived then ends tt else tries key now later

  unfoldable pub recovers_loop : (ℕ → ℕ) → List ℕ → Str → Routine World (Unit {0})
  recovers_loop wake [] key = ends tt
  recovers_loop wake (delay ∷ delays) key =
      looks_up key >>= recovery_round key (wake delay) (recovers_loop wake delays key)

  -- The goroutine, with its deferred function.
  unfoldable pub recovers : (ℕ → ℕ) → Str → Routine World (Unit {0})
  recovers wake key = do
    recovers_loop wake (3 ∷ 10 ∷ 30 ∷ 60 ∷ 120 ∷ []) key
    change (λ h. record h { recovering = delete key h.recovering })
