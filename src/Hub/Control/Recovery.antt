-- ===== src/Hub/Control/Recovery.antt =====
-- The goroutines that wait for an unavailable device.
use zigbeemq.Prelude.{
  if◌then◌else◌, Bool-cases, Str, str_eq, str_eq_iff, delete, lookup-insert, member, ℕ, ◌+◌, ◌≤◌,
  ◌≡◌, inl, inr, Bool, true, false, some, List, [], ◌∷◌, arith,
}
use zigbeemq.Device.{Device}
use zigbeemq.Errors.{Error, is_unreachable}
use zigbeemq.Zigbee.{Goznp}
use zigbeemq.Radio.{Radio}
use zigbeemq.Ieee.{compact_ieee}
use zigbeemq.Hub.{Task, recover, Hub, find, modify, broadcast_device}
use zigbeemq.Hub.Control.{start_recovery, note_unavailable, run_recovery}

abbrev is_recovery : Str → Task → Bool
is_recovery key (recover k) = str_eq k key
is_recovery key _ = false

-- How many recovery goroutines of one device wait.
abbrev recoveries : Str → List Task → ℕ
recoveries key [] = 0
recoveries key (t ∷ tasks) = (if is_recovery key t then 1 else 0) + recoveries key tasks

-- At most one goroutine for each device, and only while it is in the set `recovering`.
abbrev pub HasOneRecovery : Hub → Type 0
HasOneRecovery h = (key : Str) → recoveries key h.tasks ≤ (if member key h.recovering then 1 else 0)

start_recovery-HasOneRecovery :
    (ieee : Str) (h : Hub) → HasOneRecovery h → HasOneRecovery (start_recovery ieee h)
unfolding start_recovery
start_recovery-HasOneRecovery ieee h inv key = ground (
  arith,
  inv key,
  str_eq_iff (compact_ieee ieee) key,
  lookup-insert (compact_ieee ieee) key tt h.recovering,
)

-- `noteUnavailable` keeps at most one recovery goroutine for each device.
pub note_unavailable-HasOneRecovery :
    (ieee : Str) (e : Error) (h : Hub)
    → HasOneRecovery h
    → HasOneRecovery (note_unavailable ieee e h)
unfolding note_unavailable broadcast_device modify
note_unavailable-HasOneRecovery ieee e h inv = elim (Bool-cases (is_unreachable e)) [
  | inl out ↦ rw out (start_recovery-HasOneRecovery ieee _ inv)
  | inr in_reach ↦ rw in_reach inv
]

-- A device that is archived, under its compact address, gets no recovery goroutine, and where it
-- is archived when its goroutine wakes, there is no call of the radio: the goroutine only leaves
-- the set `recovering`.
archived_left_alone :
    {World : Type 0} (z : Goznp) (r : Radio World) (wake : ℕ → ℕ) (key : Str) (h : Hub) (w : World)
    (d : Device)
    → compact_ieee key ≡ key
    → find h key ≡ some d
    → d.archived ≡ true
    → (start_recovery key h ≡ h)
      × (run_recovery z r wake key h w ≡ (record h { recovering = delete key h.recovering }, w))
unfolding start_recovery run_recovery
archived_left_alone z r wake key h w d c f a = (ground arith, ground arith)
