-- ===== src/Concurrent/Ends/Methods.antt =====
-- The methods of the hub end (internal/hub/hub.go): the number of the sections and calls of each is
-- bounded, the waits of the recovery included.
use zigbeemq.Zigbee.{Goznp}
use zigbeemq.Radio.{Radio}
use zigbeemq.Errors.{Error, not_found, Reply, ok, err, is_unreachable}
use zigbeemq.Ieee.{compact_ieee}
use zigbeemq.Device.{Device, is_light_like, is_light, is_motion}
use zigbeemq.Prelude.{
  if◌then◌else◌, length, Str, ℕ, ◌+◌, ◌-◌, ◌*◌, ◌≤◌, Bool, true, false, ◌||◌, Option, none, some,
  List, [], ◌∷◌, arith,
}
use zigbeemq.Hub.{Event, CacheFile, modify}
use zigbeemq.Hub.Control.{level_of_percent, clamp_percent, set_unavailable, switch_command}
use zigbeemq.Hub.Registry.{Finder}
use zigbeemq.Concurrent.{Routine, ends, change, ask, ◌>>=◌}
use zigbeemq.Concurrent.Methods.{
  is_archived, marks_recovering, looks_up, tells, announces, writes, saves, starts_recovery,
  notes_unavailable, settles, with_device, turns, brightens,
}
use zigbeemq.Concurrent.Methods.Reading.{
  notes, asks_on_off, asks_level, asks_motion, reads_on_off, reads_level, reads_motion, reads_parts,
  reads_state, toggled, toggles, tries, recovery_round, recovers_loop, recovers,
}
use zigbeemq.Concurrent.Ends.{Within, Within-le, Within-bind}

module _ (World : Type 0) where
  pub announces-Within : (ieee : Str) → Within {World = World} (announces ieee) 2
  unfolding Within ◌>>=◌
  announces-Within ieee = (omega arith, λ d. (omega arith, λ u. tt))

  pub tells-Within : (ev : Event) → Within {World = World} (tells ev) 1
  unfolding Within
  tells-Within ev = (omega arith, λ u. tt)

  pub saves-Within : Within {World = World} saves 3
  unfolding Within ◌>>=◌
  saves-Within = (omega arith, written)
    where
      written : (file : Option CacheFile) → Within {World = World} (writes file) (3 - 1)
      written none = tt
      written (some file) = (omega arith, λ u. (omega arith, λ v. tt))

  pub if-Within :
      {A : Type 0} (b : Bool) (p q : Routine World A) (n : ℕ)
      → Within p n
      → Within q n
      → Within (if b then p else q) n
  if-Within true p q n bound other_bound = bound
  if-Within false p q n bound other_bound = other_bound

  starts_recovery-Within : (ieee : Str) → Within {World = World} (starts_recovery ieee) 2
  unfolding Within starts_recovery ◌>>=◌
  starts_recovery-Within ieee = (
    omega arith,
    λ found.
        if-Within (is_archived found) (ends tt) (change (marks_recovering (compact_ieee ieee)))
          (2 - 1) tt (omega arith, λ u. tt),
  )

  notes_unavailable-Within :
      (ieee : Str) (e : Error) → Within {World = World} (notes_unavailable ieee e) 5
  unfolding notes_unavailable Within
  notes_unavailable-Within ieee e =
      Within-bind (change (modify ieee (set_unavailable e))) _ 1 4 (omega arith, λ u. tt)
        λ _. Within-bind (announces ieee) _ 2 2 (announces-Within ieee) λ _.
          Within-bind (if is_unreachable e then starts_recovery ieee else ends tt) _ 2 0
            (if-Within (is_unreachable e) (starts_recovery ieee) (ends tt) 2
              (starts_recovery-Within ieee) tt)
            λ _. tt

  settles-Within :
      (ieee : Str) (g : Device → Device) (error : Option Error)
      → Within {World = World} (settles ieee g error) 5
  unfolding settles Within
  settles-Within ieee g (some e) = notes_unavailable-Within ieee e
  settles-Within ieee g none =
      Within-bind (change (modify ieee g)) _ 1 4 (omega arith, λ u. tt)
        λ _. Within-bind (announces ieee) _ 2 2 (announces-Within ieee) λ _. tt

  pub with_device-Within :
      (ieee : Str) (rest : Device → Routine World (Option Error)) (n : ℕ)
      → ((d : Device) → Within (rest d) n)
      → Within (with_device ieee rest) (1 + n)
  unfolding Within
  with_device-Within ieee rest n bound =
      Within-bind (looks_up ieee) _ 1 n (omega arith, λ found. tt) found_bound
    where
      found_bound :
          (o : Option Device) → Within (elim o [ none ↦ ends (some not_found) | some d ↦ rest d ]) n
      found_bound none = tt
      found_bound (some d) = bound d

module _ (World : Type 0) (z : Goznp) (f : Finder) (r : Radio World) where
  pub turns-Within : (ieee : Str) (on : Bool) (now : ℕ) → Within (turns z r ieee on now) 7
  unfolding turns Within
  turns-Within ieee on now = with_device-Within World ieee _ 6 λ d.
      Within-bind (ask (λ w. switch_command z r on w d.nwk_addr d.endpoint)) _ 1 5
        (omega arith, λ b. tt) λ error. settles-Within World ieee _ error

  pub brightens-Within : (ieee : Str) (percent now : ℕ) → Within (brightens z r ieee percent now) 7
  unfolding brightens Within
  brightens-Within ieee percent now = with_device-Within World ieee _ 6 λ d.
      Within-bind
        (ask (λ w.
          r.set_brightness w d.nwk_addr d.endpoint (level_of_percent (clamp_percent percent)) 5))
        _ 1 5 (omega arith, λ b. tt) λ error. settles-Within World ieee _ error

  notes-Within :
      {A : Type 0} (ieee : Str) (g : A → Device → Device) (reply : Reply A)
      → Within {World = World} (notes ieee g reply) 1
  unfolding Within ◌>>=◌
  notes-Within ieee g (err e) = tt
  notes-Within ieee g (ok a) = (omega arith, λ u. tt)

  reads_parts-Within : (d : Device) (ieee : Str) (now : ℕ) → Within (reads_parts z r d ieee now) 6
  unfolding reads_parts Within ◌>>=◌
  reads_parts-Within d ieee now =
      Within-bind (reads_on_off z r d ieee now) _ 2 4
        (if-Within World (d.has_on_off || is_light_like d.kind) (asks_on_off z r d ieee now)
          (ends false) 2 (omega arith, λ reply. (omega arith, λ reached. tt)) tt)
        λ a.
          Within-bind (reads_level z r d ieee now) _ 2 2
            (if-Within World (d.has_level || is_light d.kind) (asks_level z r d ieee now)
              (ends false) 2 (omega arith, λ reply. notes-Within ieee _ reply) tt)
            λ b.
              Within-bind (reads_motion z r d ieee now) _ 2 0
                (if-Within World (d.has_occupancy || is_motion d.kind) (asks_motion z r d ieee now)
                  (ends false) 2 (omega arith, λ reply. notes-Within ieee _ reply) tt)
                λ c. tt

  pub reads_state-Within : (ieee : Str) (now : ℕ) → Within (reads_state z r ieee now) 7
  unfolding reads_state Within ◌>>=◌
  reads_state-Within ieee now = (omega arith, found_bound)
    where
      found_bound :
          (o : Option Device)
          → Within (elim o [ none ↦ ends false | some d ↦ reads_parts z r d ieee now ]) (7 - 1)
      found_bound none = tt
      found_bound (some d) = reads_parts-Within d ieee now

  toggled-Within :
      (ieee : Str) (now : ℕ) (error : Option Error) → Within (toggled z r ieee now error) 9
  unfolding toggled Within
  toggled-Within ieee now (some e) =
      Within-le (notes_unavailable ieee e) 5 9 (omega arith) (notes_unavailable-Within World ieee e)
  toggled-Within ieee now none =
      Within-bind (reads_state z r ieee now) _ 7 2 (reads_state-Within ieee now)
        λ reached. Within-bind (announces ieee) _ 2 0 (announces-Within World ieee) λ _. tt

  pub toggles-Within : (ieee : Str) (now : ℕ) → Within (toggles z r ieee now) 11
  unfolding toggles Within
  toggles-Within ieee now = with_device-Within World ieee _ 10 λ d.
      Within-bind (ask (λ w. r.toggle w d.nwk_addr d.endpoint)) _ 1 9 (omega arith, λ b. tt)
        λ error. toggled-Within ieee now error

  recovery_round-Within :
      (key : Str) (now : ℕ) (later : Routine World (Unit {0})) (found : Option Device) (n : ℕ)
      → 2 ≤ n
      → Within later n
      → Within (recovery_round z r key now later found) (7 + n)
  unfolding Within
  recovery_round-Within key now later none n le bound = tt
  recovery_round-Within key now later (some d) n le bound =
      if-Within World d.archived (ends tt) (tries z r key now later) (7 + n) tt (
        Within-bind (reads_state z r key now) _ 7 n (reads_state-Within key now) λ reached.
          if-Within World reached (announces key) later n
            (Within-le (announces key) 2 n le (announces-Within World key)) bound)

  recovers_loop-Within :
      (wake : ℕ → ℕ) (delays : List ℕ) (key : Str)
      → Within (recovers_loop z r wake delays key) (8 * length delays + 2)
  unfolding recovers_loop Within
  recovers_loop-Within wake [] key = tt
  recovers_loop-Within wake (delay ∷ delays) key =
      let left = 8 * length delays + 2 in
      let later = recovers_loop z r wake delays key in
      let whole = looks_up key >>= recovery_round z r key (wake delay) later in
      Within-le whole (1 + (7 + left)) _ (omega arith) (
        Within-bind (looks_up key) _ 1 (7 + left) (omega arith, λ found. tt)
          λ found.
            recovery_round-Within key (wake delay) later found left (omega arith)
              (recovers_loop-Within wake delays key))

  pub recovers-Within : (wake : ℕ → ℕ) (key : Str) → Within (recovers z r wake key) 43
  unfolding recovers Within
  recovers-Within wake key =
      Within-bind (recovers_loop z r wake (3 ∷ 10 ∷ 30 ∷ 60 ∷ 120 ∷ []) key) _ 42 1
        (recovers_loop-Within wake (3 ∷ 10 ∷ 30 ∷ 60 ∷ 120 ∷ []) key) λ _. (omega arith, λ u. tt)
