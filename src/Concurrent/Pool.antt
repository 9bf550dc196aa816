-- ===== src/Concurrent/Pool.antt =====
-- Goroutines side by side (internal/hub/hub.go): the scheduler lets one of them do its next section or
-- call, again and again.
use zigbeemq.Prelude.{Str, ℕ, zero, suc, Bool, Option, none, List, [], ◌∷◌}
use zigbeemq.Hub.{Hub}
use zigbeemq.Errors.{Error}
use zigbeemq.Zigbee.{Goznp, DeviceEvent}
use zigbeemq.Radio.{Radio}
use zigbeemq.Known.{Kind}
use zigbeemq.Concurrent.{Routine, ends, locked, asks, ◌>>=◌}
use zigbeemq.Concurrent.Methods.{turns, brightens}
use zigbeemq.Concurrent.Methods.Reading.{toggles, recovers}
use zigbeemq.Concurrent.Methods.Interview.{interviews}
use zigbeemq.Concurrent.Methods.Registry.{updates, notes_joined, removes, refreshes, permits}
use zigbeemq.Hub.Registry.{Finder, event_ieee}
use zigbeemq.Hub.Registry.Join.{event_nwk}

abbrev pub Pool : Type 0 → Type 1
Pool World = List (Routine World (Option Error))

module _ {World : Type 0} where
  -- One section or call.
  unfoldable pub advance :
      {A : Type 0} → Routine World A → Hub → World → Hub × World × Routine World A
  advance (ends a) h w = (h, w, ends a)
  advance (locked section rest) h w = let (h', b) = section h in (h', w, rest b)
  advance (asks call rest) h w = let (w', b) = call w in (h, w', rest b)

  unfoldable pub advance_at : ℕ → Pool World → Hub → World → Hub × World × Pool World
  advance_at i [] h w = (h, w, [])
  advance_at zero (p ∷ ps) h w = let (h', w', p') = advance p h w in (h', w', p' ∷ ps)
  advance_at (suc i) (p ∷ ps) h w = let (h', w', ps') = advance_at i ps h w in (h', w', p ∷ ps')

  -- A schedule names the goroutine whose turn it is.
  unfoldable pub run_pool : List ℕ → Pool World → Hub → World → Hub × World × Pool World
  run_pool [] ps h w = (h, w, ps)
  run_pool (i ∷ schedule) ps h w =
      let (h', w', ps') = advance_at i ps h w in run_pool schedule ps' h' w'

-- The calls of the hub's methods that may stand side by side.
pub data Method : Type 0 where
  turn_method : Str → Bool → ℕ → Method
  brightness_method : Str → ℕ → ℕ → Method
  toggle_method : Str → ℕ → Method
  recovery_method : (ℕ → ℕ) → Str → Method
  update_method : Str → Str → Kind → Option Bool → Method
  remove_method : Str → Method
  join_method : DeviceEvent → ℕ → Method
  refresh_method : Method
  permit_method : ℕ → ℕ → Method
  interview_method : Str → ℕ → Method

module _ {World : Type 0} (z : Goznp) (f : Finder) (r : Radio World) where
  abbrev pub ignoring : {A : Type 0} → Routine World A → Routine World (Option Error)
  ignoring p = p >>= λ _. ends none

  unfoldable pub routine : Method → Routine World (Option Error)
  routine (turn_method ieee on now) = turns z r ieee on now
  routine (brightness_method ieee percent now) = brightens z r ieee percent now
  routine (toggle_method ieee now) = toggles z r ieee now
  routine (recovery_method wake key) = ignoring (recovers z r wake key)
  routine (update_method ieee name kind archived) = updates ieee name kind archived
  routine (remove_method ieee) = removes z f r ieee
  routine (join_method ev now) = ignoring (notes_joined (event_ieee z ev) (event_nwk ev) now)
  routine refresh_method = refreshes z f r
  routine (permit_method seconds now) = permits z f r seconds now
  routine (interview_method ieee now) = interviews z f r ieee now

  unfoldable pub routines : List Method → Pool World
  routines [] = []
  routines (m ∷ ms) = routine m ∷ routines ms
