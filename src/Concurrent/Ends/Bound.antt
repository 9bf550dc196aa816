-- ===== src/Concurrent/Ends/Bound.antt =====
-- Every method of the hub ends in any company (internal/hub/hub.go).
use zigbeemq.Zigbee.{RawDevice, Goznp}
use zigbeemq.Radio.{Radio}
use zigbeemq.Errors.{Error, Reply, ok, err}
use zigbeemq.Ieee.{compact_ieee, is_zero_ieee, parse_ieee}
use zigbeemq.Device.{Device}
use zigbeemq.Known.{Kind, valid_kind}
use zigbeemq.Prelude.{
  Option-cases, Str, str_eq, ℕ, zero, suc, ◌+◌, ◌-◌, ◌≤◌, inl, inr, Bool, true, false, ◌&&◌, not,
  Option, none, some, List, [], ◌∷◌, arith,
}
use zigbeemq.Hub.{renamed_event, Hub}
use zigbeemq.Hub.Registry.{is_empty, Finder, event_ieee}
use zigbeemq.Hub.Registry.Join.{event_nwk}
use zigbeemq.Concurrent.{Routine, ends, locked, change, ◌>>=◌}
use zigbeemq.Concurrent.Pool.{
  run_pool, Method, turn_method, brightness_method, toggle_method, recovery_method, update_method,
  remove_method, join_method, refresh_method, permit_method, interview_method, ignoring, routine,
  routines,
}
use zigbeemq.Concurrent.Methods.{tells, announces, saves}
use zigbeemq.Concurrent.Methods.Reading.{recovers}
use zigbeemq.Concurrent.Methods.Registry.{
  relabels, enters, announces_name, relabelled, updates, notes_joined, forces, drops, removes,
  refreshed_by, refreshes, permitted, permits,
}
use zigbeemq.Concurrent.Ends.{
  times, Within, Within-le, Within-bind, WithinAt, EndedAt, EndedAt-times,
}
use zigbeemq.Concurrent.Ends.Interview.{interviews-Within}
use zigbeemq.Concurrent.Ends.Methods.{
  announces-Within, tells-Within, saves-Within, if-Within, with_device-Within, turns-Within,
  brightens-Within, toggles-Within, recovers-Within,
}

-- The most sections and calls that a method has: the five rounds of a recovery.
abbrev most_turns : ℕ
most_turns = 43

module _ (World : Type 0) where
  saves_then-Within :
      {A : Type 0} (rest : Routine World A) (n : ℕ)
      → Within rest n
      → Within (saves >>= λ _. rest) (3 + n)
  saves_then-Within rest n bound = Within-bind saves _ 3 n (saves-Within World) λ _. bound

  announces_then-Within :
      {A : Type 0} (ieee : Str) (a : A) → Within {World = World} (announces ieee >>= λ _. ends a) 2
  announces_then-Within ieee a =
      Within-bind (announces ieee) _ 2 0 (announces-Within World ieee) λ _. unfold Within in tt

  relabelled-Within :
      (ieee name : Str) (names : Option (Str × Str))
      → Within {World = World} (relabelled ieee name names) 6
  relabelled-Within ieee name none = unfold Within in tt
  relabelled-Within ieee name (some (old, new)) = saves_then-Within _ 3 (
      Within-bind (announces_name ieee name old new) _ 1 2
        (if-Within World (not (str_eq name []) && not (str_eq old []) && not (str_eq old new))
          (tells (renamed_event (compact_ieee ieee) old new)) (ends tt) 1 (tells-Within World _)
          (unfold Within in tt))
        λ _. announces_then-Within ieee none)

  updates-Within :
      (ieee name : Str) (kind : Kind) (archived : Option Bool)
      → Within {World = World} (updates ieee name kind archived) 7
  unfolding Within updates ◌>>=◌
  updates-Within ieee name kind archived =
      if-Within World (not (is_empty kind) && not (valid_kind kind)) _
        (locked (relabels ieee name kind archived) (relabelled ieee name)) 7 tt
        (omega arith, λ names. relabelled-Within ieee name names)

  notes_joined-Within :
      (ieee : Str) (nwk now : ℕ) → Within {World = World} (notes_joined ieee nwk now) 6
  unfolding Within notes_joined ◌>>=◌
  notes_joined-Within ieee nwk now =
      let key = compact_ieee ieee in
      if-Within World (is_zero_ieee key) (ends false)
        (change (enters key nwk now) >>= λ _. saves >>= λ _. announces key >>= λ _. ends true) 6 tt
        (omega arith, λ u. saves_then-Within _ 2 (announces_then-Within key true))

module _ (World : Type 0) (z : Goznp) (f : Finder) (r : Radio World) where
  drops-Within : (key : Str) (d : Device) (addr : List ℕ) → Within (drops z f r key d addr) 7
  unfolding Within drops ◌>>=◌
  drops-Within key d addr = (
    omega arith,
    λ left.
        Within-bind (forces z f r addr left) _ 1 5 (forced left)
          λ _. (omega arith, λ u. saves_then-Within World _ 1 (omega arith, λ u. tt)),
  )
    where
      forced : (error : Option Error) → Within (forces z f r addr error) 1
      forced none = tt
      forced (some e) = (omega arith, λ b. tt)

  removes-Within : (ieee : Str) → Within (removes z f r ieee) 8
  unfolding Within removes
  removes-Within ieee = with_device-Within World ieee _ 7 λ d.
      elim (Option-cases (parse_ieee z ieee)) [
        | inl bad ↦ rw bad tt
        | inr (addr, good) ↦ rw good (drops-Within (compact_ieee ieee) d addr)
      ]

  refreshes-Within : Within (refreshes z f r) 6
  unfolding Within refreshes refreshed_by ◌>>=◌
  refreshes-Within = (omega arith, answered)
    where
      answered : (reply : Reply (List RawDevice)) → Within (refreshed_by z f r reply) (6 - 1)
      answered (err e) = tt
      answered (ok raws) =
          (omega arith, λ devices. saves_then-Within World _ 1 (omega arith, λ u. tt))

  permits-Within : (seconds now : ℕ) → Within (permits z f r seconds now) 3
  unfolding Within permits permitted ◌>>=◌
  permits-Within seconds now = (omega arith, answered)
    where
      answered : (error : Option Error) → Within (permitted z f r seconds now error) (3 - 1)
      answered (some e) = tt
      answered none = (omega arith, λ u. (omega arith, λ u. tt))

  ignoring-Within :
      {A : Type 0} (p : Routine World A) (n : ℕ) → Within p n → Within (ignoring z f r p) n
  ignoring-Within p n bound =
      Within-le (ignoring z f r p) (n + 0) n (omega arith)
        (Within-bind p _ n 0 bound λ _. unfold Within in tt)

  routine-Within : (m : Method) → Within (routine z f r m) most_turns
  unfolding routine
  routine-Within (turn_method ieee on now) =
      Within-le _ 7 43 (omega arith) (turns-Within World z f r ieee on now)
  routine-Within (brightness_method ieee percent now) =
      Within-le _ 7 43 (omega arith) (brightens-Within World z f r ieee percent now)
  routine-Within (toggle_method ieee now) =
      Within-le _ 11 43 (omega arith) (toggles-Within World z f r ieee now)
  routine-Within (recovery_method wake key) =
      ignoring-Within (recovers z r wake key) 43 (recovers-Within World z f r wake key)
  routine-Within (update_method ieee name kind archived) =
      Within-le _ 7 43 (omega arith) (updates-Within World ieee name kind archived)
  routine-Within (remove_method ieee) = Within-le _ 8 43 (omega arith) (removes-Within ieee)
  routine-Within (join_method ev now) = Within-le _ 6 43 (omega arith) (
      ignoring-Within (notes_joined (event_ieee z ev) (event_nwk ev) now) 6
        (notes_joined-Within World (event_ieee z ev) (event_nwk ev) now))
  routine-Within refresh_method = Within-le _ 6 43 (omega arith) refreshes-Within
  routine-Within (permit_method seconds now) =
      Within-le _ 3 43 (omega arith) (permits-Within seconds now)
  routine-Within (interview_method ieee now) =
      Within-le _ 20 43 (omega arith) (interviews-Within World z f r ieee now)

  routines-WithinAt : (i : ℕ) (ms : List Method) → WithinAt i most_turns (routines z f r ms)
  unfolding WithinAt routines
  routines-WithinAt i [] = tt
  routines-WithinAt zero (m ∷ ms) = routine-Within m
  routines-WithinAt (suc i) (m ∷ ms) = routines-WithinAt i ms

  -- However many methods of the hub run side by side, and whatever the radio answers: a method that
  -- the scheduler has given 43 turns has ended, whatever turns the others had in between.
  pub methods_end :
      (ms : List Method) (i : ℕ) (schedule : List ℕ) (h : Hub) (w : World)
      → most_turns ≤ times i schedule
      → EndedAt i (run_pool schedule (routines z f r ms) h w).2
  methods_end ms i schedule h w enough =
      EndedAt-times i most_turns schedule (routines z f r ms) h w enough (routines-WithinAt i ms)
