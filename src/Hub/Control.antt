-- ===== src/Hub/Control.antt =====
-- Commands to devices and the recovery of unavailable ones (internal/hub/hub.go).
pub mod Brightness
pub mod Recovery
pub mod Commands
use zigbeemq.Prelude.{
  ltb, ◌==◌, if◌then◌else◌, is_some, Str, codes, insert, delete, member, ℕ, ◌+◌, ◌*◌, ◌/◌, ◌%◌,
  Bool, true, false, ◌||◌, Option, none, some, List, [], ◌∷◌,
}
use zigbeemq.Zigbee.{Value, boolean, uint8, uint16, int, ReadResult, Goznp}
use zigbeemq.Radio.{Radio}
use zigbeemq.Errors.{
  Error, not_found, message, Reply, ok, err, is_unreachable, display_radio_error, map_radio_error,
}
use zigbeemq.Ieee.{compact_ieee}
use zigbeemq.Device.{Device, seen, endpoint_with, is_light_like, is_light, is_motion}
use zigbeemq.Hub.{permit_join_event, recover, Hub, find, modify, broadcast, broadcast_device}

-- `uint8(float64(percent) / 100 * 254)`: the conversion cuts the fraction off.
pub level_of_percent : ℕ → ℕ
level_of_percent percent = percent * 254 / 100

-- `uint8(float64(level) / 254 * 100)`.
pub percent_of_level : ℕ → ℕ
percent_of_level level = level * 100 / 254

-- The first test of `SetBrightness`.
abbrev pub clamp_percent : ℕ → ℕ
clamp_percent percent = if ltb 100 percent then 100 else percent

-- `startRecovery`, up to the goroutine.
unfoldable pub start_recovery : Str → Hub → Hub
start_recovery ieee h =
    let key = compact_ieee ieee in
    let archived : Bool = elim (find h key) [ none ↦ false | some d ↦ d.archived ] in
    if archived || member key h.recovering
    then h
    else record h { recovering = insert key tt h.recovering; tasks = recover key ∷ h.tasks }

abbrev pub set_unavailable : Error → Device → Device
set_unavailable e d = record d { reachable = false; error = display_radio_error e }

-- `noteUnavailable`; the error that it returns is `map_radio_error e`.
unfoldable pub note_unavailable : Str → Error → Hub → Hub
unfolding start_recovery
note_unavailable ieee e h =
    let h' = broadcast_device ieee (modify ieee (set_unavailable e) h) in
    if is_unreachable e then start_recovery ieee h' else h'

-- `occupancyFromValue`.
unfoldable pub occupancy_from_value : Value → Option Bool
occupancy_from_value (uint8 x) = some (x % 2 == 1)
occupancy_from_value (uint16 x) = some (x % 2 == 1)
occupancy_from_value (int x) = some (x % 2 == 1)
occupancy_from_value (boolean b) = some b
occupancy_from_value _ = none

-- The assignments of `Turn` and `SetBrightness`: unlike `seen`, they leave `LastSeenMs`.
abbrev pub touched : ℕ → Device → Device
touched now d = record d { reachable = true; error = []; last_seen = some now }

-- What a method leaves behind and returns.
abbrev pub Done : Type 0 → Type 0
Done World = Hub × World × Option Error

module _ {World : Type 0} (z : Goznp) (r : Radio World) where
  abbrev fail : Str → Error → Hub → World → Done World
  fail ieee e h w = (note_unavailable ieee e h, w, some (map_radio_error e))

  abbrev pub switch_command : Bool → World → ℕ → ℕ → World × Option Error
  switch_command true = r.turn_on
  switch_command false = r.turn_off

  -- `Turn`.
  unfoldable pub turn : Str → Bool → ℕ → Hub → World → Done World
  turn ieee on now h w = elim (find h ieee) [
    | none ↦ (h, w, some not_found)
    | some d ↦
        let (w', reply) = switch_command on w d.nwk_addr d.endpoint in
        elim reply [
          | some e ↦ fail ieee e h w'
          | none ↦ (
            broadcast_device ieee
                (modify ieee (λ dev. record (touched now dev) { on = some on }) h),
            w',
            none,
          )
        ]
  ]

  -- `SetBrightness`.
  unfoldable pub set_brightness : Str → ℕ → ℕ → Hub → World → Done World
  set_brightness ieee percent now h w =
      let p = clamp_percent percent in
      elim (find h ieee) [
        | none ↦ (h, w, some not_found)
        | some d ↦
            let (w', reply) = r.set_brightness w d.nwk_addr d.endpoint (level_of_percent p) 5 in
            elim reply [
              | some e ↦ fail ieee e h w'
              | none ↦ (
                broadcast_device ieee (
                    modify ieee
                      (λ dev. record (touched now dev) { brightness = some p; on = some (ltb 0 p) })
                      h),
                w',
                none,
              )
            ]
      ]

  -- The three parts of `readState`; the Boolean says that the device answered.
  unfoldable pub read_on_off : Device → Str → ℕ → Hub → World → Hub × World × Bool
  read_on_off d ieee now h w =
      let (w', reply) = r.get_on_off_state w d.nwk_addr d.endpoint in
      if d.has_on_off || is_light_like d.kind
      then elim reply [
        | err e ↦ (modify ieee (λ dev. record dev { reachable = false }) h, w', false)
        | ok b ↦ (
          modify ieee (λ dev. record (seen now dev) { on = some b }) h,
          w',
          is_some (find h ieee),
        )
      ]
      else (h, w, false)

  unfoldable pub read_level : Device → Str → ℕ → Hub → World → Hub × World × Bool
  read_level d ieee now h w =
      let (w', reply) = r.get_brightness w d.nwk_addr d.endpoint in
      if d.has_level || is_light d.kind
      then elim reply [
        | err e ↦ (h, w', false)
        | ok level ↦ (
          modify ieee (λ dev. record (seen now dev) { brightness = some (percent_of_level level) })
              h,
          w',
          true,
        )
      ]
      else (h, w, false)

  occupancy_attribute : Reply (List ReadResult) → Option Bool
  occupancy_attribute (ok (a ∷ _)) =
      if a.status == z.status_success then occupancy_from_value a.value else none
  occupancy_attribute _ = none

  ias_status : ℕ → ℕ → World → World × Reply Bool
  ias_status nwk ep w =
      let (w', reply) = r.get_ias_zone_status w nwk ep in
      if ep == 0
      then (w, err (message (codes "no occupancy cluster")))
      else elim reply [ err e ↦ (w', err e) | ok (a, b) ↦ (w', ok (a || b)) ]

  -- `readOccupancy`, which does not use its argument `ep`.
  unfoldable pub read_occupancy : Device → World → World × Reply Bool
  unfolding occupancy_attribute ias_status
  read_occupancy d w =
      let occ_ep = endpoint_with d.endpoints (codes "OccupancySensing") in
      let ias_ep = endpoint_with d.endpoints (codes "IASZone") in
      let (w', reply) =
        r.read_attributes w d.nwk_addr occ_ep z.cluster_occupancy_sensing z.attr_occupancy_value in
      if occ_ep == 0 then ias_status d.nwk_addr ias_ep w else elim (occupancy_attribute reply) [
        | some occ ↦ (w', ok occ)
        | none ↦ ias_status d.nwk_addr ias_ep w'
      ]

  unfoldable pub read_motion : Device → Str → ℕ → Hub → World → Hub × World × Bool
  read_motion d ieee now h w =
      let (w', reply) = read_occupancy d w in
      if d.has_occupancy || is_motion d.kind
      then elim reply [
        | err e ↦ (h, w', false)
        | ok occ ↦ (modify ieee (λ dev. record (seen now dev) { occupancy = some occ }) h, w', true)
      ]
      else (h, w, false)

  -- `readState`: the conditions look at the snapshot taken at the start.
  unfoldable pub read_state : Str → ℕ → Hub → World → Hub × World × Bool
  read_state ieee now h w = elim (find h ieee) [
    | none ↦ (h, w, false)
    | some d ↦
        let (h1, w1, a) = read_on_off d ieee now h w in
        let (h2, w2, b) = read_level d ieee now h1 w1 in
        let (h3, w3, c) = read_motion d ieee now h2 w2 in (h3, w3, a || b || c)
  ]

  -- `Toggle`.
  unfoldable pub toggle : Str → ℕ → Hub → World → Done World
  toggle ieee now h w = elim (find h ieee) [
    | none ↦ (h, w, some not_found)
    | some d ↦
        let (w', reply) = r.toggle w d.nwk_addr d.endpoint in
        elim reply [
          | some e ↦ fail ieee e h w'
          | none ↦
              let (h', w'', reached) = read_state ieee now h w' in
              (broadcast_device ieee h', w'', none)
        ]
  ]

  -- `PermitJoin`: the join window closes `seconds` after `now`.
  unfoldable pub permit_join_for : ℕ → ℕ → Hub → World → Done World
  permit_join_for seconds now h w =
      let (w', reply) = r.permit_join w seconds in
      elim reply [
        | some e ↦ (h, w', some e)
        | none ↦
            let until = if seconds == 0 then none else some (now + seconds * 1000000000) in
            (
              broadcast (permit_join_event seconds until) (record h { permit_until = until }),
              w',
              none,
            )
      ]

  -- The goroutine of `startRecovery`. `wake` gives the time after the sleep of a given length, in
  -- seconds.
  unfoldable pub recover_loop : (ℕ → ℕ) → List ℕ → Str → Hub → World → Hub × World
  recover_loop wake [] key h w = (h, w)
  recover_loop wake (delay ∷ delays) key h w =
      let (h', w', reached) = read_state key (wake delay) h w in
      let rest = recover_loop wake delays key h' w' in
      elim (find h key) [
        | none ↦ (h, w)
        | some d ↦
            if d.archived then (h, w) else if reached then (broadcast_device key h', w') else rest
      ]

  unfoldable pub run_recovery : (ℕ → ℕ) → Str → Hub → World → Hub × World
  unfolding recover_loop
  run_recovery wake key h w =
      let (h', w') = recover_loop wake (3 ∷ 10 ∷ 30 ∷ 60 ∷ 120 ∷ []) key h w in
      (record h' { recovering = delete key h'.recovering }, w')
