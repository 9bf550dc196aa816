-- ===== src/Hub/Registry/Table.antt =====
-- The invariant of the hub's table of devices and its set of forgotten addresses.
use mathlib.Core.Option
use zigbeemq.Prelude.{
  Bool-cases, Str, str_eq, str_eq_iff, Assoc, StrSet, lookup, insert, delete, lookup-insert,
  lookup-delete, member, adjust, lookup-adjust, ◌≡◌, ◌∙◌, inl, inr, true, false, ◌&&◌, Option, none,
  some, [], arith,
}
use zigbeemq.Ieee.{compact_ieee}
use zigbeemq.Device.{Device}
use zigbeemq.Hub.{Event, Hub, modify, broadcast, broadcast_device, save_cache}

-- A device stands under its own address, in compact form.
abbrev pub IsKeyed : Str → Option Device → Type 0
IsKeyed k none = Unit
IsKeyed k (some d) = (d.ieee ≡ k) × (compact_ieee k ≡ k)

pub record IsTable (table : Assoc Device) (gone : StrSet) : Type 0 where
  pub keyed : (k : Str) → IsKeyed k (lookup k table)
  pub apart : (k : Str) → (member k gone && member k table) ≡ false

pub forgotten_unlisted :
    (m : Assoc Device) (s : StrSet) (k : Str) → IsTable m s → member k s ≡ true → lookup k m ≡ none
forgotten_unlisted m s k t e = ground (arith, t.apart k)

abbrev pub IsValid : Hub → Type 0
IsValid h = IsTable h.devices h.forgotten

-- An assignment to fields other than the address.
abbrev pub KeepsIeee : (Device → Device) → Type 0
KeepsIeee f = (d : Device) → (f d).ieee ≡ d.ieee

pub IsKeyed-map :
    (f : Device → Device) (k : Str) (o : Option Device)
    → KeepsIeee f
    → IsKeyed k o
    → IsKeyed k (Option.map f o)
IsKeyed-map f k none keep h = tt
IsKeyed-map f k (some d) keep (e, c) = (keep d ∙ e, c)

pub IsTable-adjust :
    (k : Str) (f : Device → Device) (m : Assoc Device) (s : StrSet)
    → KeepsIeee f
    → IsTable m s
    → IsTable (adjust k f m) s
IsTable-adjust k f m s keep t = record {
  keyed = λ j. rw (lookup-adjust k j f m) (elim (Bool-cases (str_eq k j)) [
    | inl e ↦ rw e (IsKeyed-map f j (lookup j m) keep (t.keyed j))
    | inr e ↦ rw e (t.keyed j)
  ]);
  apart = λ j. rw (lookup-adjust k j f m) (ground (arith, t.apart j));
}

-- A device enters, and its address leaves the set of forgotten ones.
pub IsTable-enter :
    (k : Str) (d : Device) (m : Assoc Device) (s : StrSet)
    → d.ieee ≡ k
    → compact_ieee k ≡ k
    → IsTable m s
    → IsTable (insert k d m) (delete k s)
IsTable-enter k d m s e c t = record {
  keyed = λ j. rw (lookup-insert k j d m) (elim (Bool-cases (str_eq k j)) [
    | inl same ↦ let p = (str_eq_iff k j).0 same in rw same (e ∙ p, rw p at c)
    | inr other ↦ rw other (t.keyed j)
  ]);
  apart = λ j. rw (lookup-insert k j d m) (ground (arith, lookup-delete k j s, t.apart j));
}

-- A device enters whose address is not forgotten.
pub IsTable-insert :
    (k : Str) (d : Device) (m : Assoc Device) (s : StrSet)
    → d.ieee ≡ k
    → compact_ieee k ≡ k
    → member k s ≡ false
    → IsTable m s
    → IsTable (insert k d m) s
IsTable-insert k d m s e c n t = record {
  keyed = λ j. rw (lookup-insert k j d m) (elim (Bool-cases (str_eq k j)) [
    | inl same ↦ let p = (str_eq_iff k j).0 same in rw same (e ∙ p, rw p at c)
    | inr other ↦ rw other (t.keyed j)
  ]);
  apart = λ j. rw (lookup-insert k j d m) (ground (arith, str_eq_iff k j, t.apart j));
}

-- A device leaves and is forgotten.
pub IsTable-leave :
    (k : Str) (m : Assoc Device) (s : StrSet) → IsTable m s → IsTable (delete k m) (insert k tt s)
IsTable-leave k m s t = record {
  keyed = λ j.
      rw (lookup-delete k j m) (elim (Bool-cases (str_eq k j)) [
        | inl same ↦ rw same tt
        | inr other ↦ rw other (t.keyed j)
      ]);
  apart = λ j. rw (lookup-delete k j m) (ground (arith, lookup-insert k j tt s, t.apart j));
}

pub modify-IsValid :
    (ieee : Str) (f : Device → Device) (h : Hub)
    → KeepsIeee f
    → IsValid h
    → IsValid (modify ieee f h)
unfolding modify
modify-IsValid ieee f h keep t = IsTable-adjust (compact_ieee ieee) f h.devices h.forgotten keep t

pub save_cache-IsValid : (h : Hub) → IsValid h → IsValid (save_cache h)
unfolding save_cache
save_cache-IsValid h t = elim (Bool-cases (str_eq h.data_dir [])) [
  | inl e ↦ rw e t
  | inr e ↦ rw e t
]

broadcast-IsValid : (ev : Event) (h : Hub) → IsValid h → IsValid (broadcast ev h)
unfolding broadcast
broadcast-IsValid ev h t = t

pub broadcast_device-IsValid :
    (ieee : Str) (h : Hub) → IsValid h → IsValid (broadcast_device ieee h)
unfolding broadcast_device
broadcast_device-IsValid ieee h t = t

-- The hub `h'` has the table and the set given.
pub IsValid-of :
    (m : Assoc Device) (s : StrSet) (h' : Hub)
    → h'.devices ≡ m
    → h'.forgotten ≡ s
    → IsTable m s
    → IsValid h'
IsValid-of m s h' e f t = rw (e, f) t

-- The hub `h'` has the table of `h`, but for one assignment.
pub IsValid-of_adjust :
    (ieee : Str) (f : Device → Device) (h h' : Hub)
    → KeepsIeee f
    → h'.devices ≡ adjust (compact_ieee ieee) f h.devices
    → h'.forgotten ≡ h.forgotten
    → IsValid h
    → IsValid h'
IsValid-of_adjust ieee f h h' keep e g t =
    IsValid-of _ h.forgotten h' e g
      (IsTable-adjust (compact_ieee ieee) f h.devices h.forgotten keep t)

pub IsValid-of_same :
    (h h' : Hub) → h'.devices ≡ h.devices → h'.forgotten ≡ h.forgotten → IsValid h → IsValid h'
IsValid-of_same h h' e g t = IsValid-of h.devices h.forgotten h' e g t
