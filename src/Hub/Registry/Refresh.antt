-- ===== src/Hub/Registry/Refresh.antt =====
-- What `Refresh` makes of the table of devices (internal/hub/hub.go).
use mathlib.Core.Option
use zigbeemq.Prelude.{
  if◌then◌else◌, Bool-cases, Str, str_eq_iff, Assoc, StrSet, lookup, member, ℕ, ◌≡◌, refl, inl, inr,
  false, Option, none, some, List, [], ◌∷◌, arith,
}
use zigbeemq.Zigbee.{RawDevice, Goznp}
use zigbeemq.Ieee.{compact_ieee, format_ieee}
use zigbeemq.Ieee.Laws.{IsAddress, compact_ieee_of_compact, compact_ieee-IsCompact}
use zigbeemq.Device.{Device}
use zigbeemq.Hub.{Hub}
use zigbeemq.Hub.Registry.{
  or_else, fresh_device, mark_missing, refreshed, refresh_one, refresh_all, refresh_table,
}
use zigbeemq.Hub.Registry.Table.{IsKeyed, IsTable, IsValid, IsKeyed-map, IsTable-insert}

-- The addresses that the library goznp prints consist of hexadecimal digits and colons.
abbrev pub PrintsAddresses : Goznp → Type 0
PrintsAddresses z = (addr : List ℕ) → IsAddress (z.format_ieee_addr addr)

pub format_ieee-IsCompact :
    (z : Goznp) (addr : List ℕ)
    → PrintsAddresses z
    → compact_ieee (format_ieee z addr) ≡ format_ieee z addr
unfolding format_ieee
format_ieee-IsCompact z addr prints =
    compact_ieee_of_compact (compact_ieee (z.format_ieee_addr addr))
      (compact_ieee-IsCompact (z.format_ieee_addr addr) (prints addr))

pub known_ieee : (k : Str) (o : Option Device) → IsKeyed k o → (or_else o (fresh_device k)).ieee ≡ k
known_ieee k none h = refl
known_ieee k (some d) h = h.0

-- What the second loop of `Refresh` does to one device.
abbrev pub unless_met : StrSet → Str → Device → Device
unless_met met k d = if member k met then d else record d { reachable = false }

pub lookup-mark_missing :
    (k : Str) (met : StrSet) (m : Assoc Device)
    → lookup k (mark_missing met m) ≡ Option.map (unless_met met k) (lookup k m)
unfolding lookup mark_missing
lookup-mark_missing k met [] = refl
lookup-mark_missing k met ((j, d) ∷ m) = ground (arith, str_eq_iff j k, lookup-mark_missing k met m)

IsTable-mark_missing :
    (met : StrSet) (m : Assoc Device) (s : StrSet) → IsTable m s → IsTable (mark_missing met m) s
IsTable-mark_missing met m s t = record {
  keyed = λ k.
      rw (lookup-mark_missing k met m)
        (IsKeyed-map (unless_met met k) k (lookup k m) (λ d. ground arith) (t.keyed k));
  apart = λ k. ground (arith, lookup-mark_missing k met m, t.apart k);
}

refresh_one-IsTable :
    (z : Goznp) (s : StrSet) (raw : RawDevice) (m : Assoc Device) (met : StrSet)
    → PrintsAddresses z
    → IsTable m s
    → IsTable (refresh_one z s raw (m, met)).0 s
unfolding refresh_one
refresh_one-IsTable z s raw m met prints t =
    let ieee = format_ieee z raw.ieee_addr in
    elim (Bool-cases (member ieee s)) [
      | inl skipped ↦ rw skipped t
      | inr listed ↦
          let d = or_else (lookup ieee m) (fresh_device ieee) in
          rw listed (
            IsTable-insert ieee (refreshed z raw.nwk_addr ieee d) m s
              (ground (arith, known_ieee ieee (lookup ieee m) (t.keyed ieee)))
              (format_ieee-IsCompact z raw.ieee_addr prints) listed t)
    ]

refresh_all-IsTable :
    (z : Goznp) (s : StrSet) (raws : List RawDevice) (m : Assoc Device) (met : StrSet)
    → PrintsAddresses z
    → IsTable m s
    → IsTable (refresh_all z s raws (m, met)).0 s
unfolding refresh_all
refresh_all-IsTable z s [] m met prints t = t
refresh_all-IsTable z s (raw ∷ raws) m met prints t =
    let next = refresh_one z s raw (m, met) in
    refresh_all-IsTable z s raws next.0 next.1 prints (refresh_one-IsTable z s raw m met prints t)

pub refresh_table-IsValid :
    (z : Goznp) (raws : List RawDevice) (h : Hub)
    → PrintsAddresses z
    → IsValid h
    → IsValid (refresh_table z raws h)
unfolding refresh_table
refresh_table-IsValid z raws h prints t =
    IsTable-mark_missing _ _ h.forgotten
      (refresh_all-IsTable z h.forgotten raws h.devices [] prints t)
