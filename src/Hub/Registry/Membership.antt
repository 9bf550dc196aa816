-- ===== src/Hub/Registry/Membership.antt =====
-- Who is in the table after a refresh, a removal, a join and an edit.
use mathlib.Core.Option
use zigbeemq.Prelude.{
  if◌then◌else◌, Bool-cases, any, Str, str_eq, str_eq_iff, Assoc, StrSet, lookup, lookup-insert,
  member, ℕ, ◌≡◌, refl, ◌∙◌, inl, inr, Bool, true, false, ◌&&◌, ◌||◌, not, none, some, List, [],
  ◌∷◌, arith,
}
use zigbeemq.Zigbee.{RawDevice, Goznp}
use zigbeemq.Ieee.{compact_ieee, format_ieee, parse_ieee}
use zigbeemq.Device.{Device}
use zigbeemq.Radio.{Radio}
use zigbeemq.Hub.Registry.Table.{forgotten_unlisted, IsValid}
use zigbeemq.Hub.Registry.Steps.{remove-IsValid}
use zigbeemq.Hub.{Hub, find, broadcast, save_cache}
use zigbeemq.Hub.Registry.{
  or_else, fresh_device, Finder, remove, refreshed, refresh_one, refresh_all, refresh_table,
}
use zigbeemq.Hub.Registry.Refresh.{
  PrintsAddresses, unless_met, lookup-mark_missing, refresh_table-IsValid,
}

-- The coordinator lists the address `k`.
abbrev pub is_listed : Goznp → Str → List RawDevice → Bool
is_listed z k raws = any (λ raw. str_eq (format_ieee z raw.ieee_addr) k) raws

abbrev out_of_reach : Device → Device
out_of_reach d = record d { reachable = false }

-- An address that is not listed is neither changed nor met by the first loop of `Refresh`.
refresh_all_unlisted :
    (z : Goznp) (s : StrSet) (k : Str) (raws : List RawDevice) (m : Assoc Device) (met : StrSet)
    → is_listed z k raws ≡ false
    → let (m', met') = refresh_all z s raws (m, met) in
      (lookup k m' ≡ lookup k m) × (member k met' ≡ member k met)
unfolding refresh_all
refresh_all_unlisted z s k [] m met e = (refl, refl)
refresh_all_unlisted z s k (raw ∷ raws) m met e =
    let next = refresh_one z s raw (m, met) in
    let (same, unmet) = refresh_all_unlisted z s k raws next.0 next.1 (ground arith) in
    let ieee = format_ieee z raw.ieee_addr in
    let d = refreshed z raw.nwk_addr ieee (or_else (lookup ieee m) (fresh_device ieee)) in
    let apart : str_eq ieee k ≡ false = ground arith in
    (
      same ∙ unfold refresh_one in ground (arith, lookup-insert ieee k d m),
      unmet ∙ unfold refresh_one in ground (arith, lookup-insert ieee k tt met),
    )

-- A device that is not listed keeps all but its reachability, and is shown as unreachable; where the
-- hub does not know an address that is not listed, it does not get to know it.
refresh_unlisted :
    (z : Goznp) (k : Str) (raws : List RawDevice) (h : Hub)
    → is_listed z k raws ≡ false
    → lookup k (refresh_table z raws h).devices ≡ Option.map out_of_reach (lookup k h.devices)
unfolding refresh_table
refresh_unlisted z k raws h e =
    let (m, met) = refresh_all z h.forgotten raws (h.devices, []) in
    let (same, unmet) = refresh_all_unlisted z h.forgotten k raws h.devices [] e in
    let alone : member k met ≡ false = unmet ∙ unfold lookup in refl in
    rw (lookup-mark_missing k met m, same) (ground (arith, alone))

-- A device whose label is its own, or whose name is not empty.
abbrev is_labelled : Device → Bool
is_labelled d = d.user_label || not (str_eq d.name [])

refresh_all_labelled :
    (z : Goznp) (s : StrSet) (k : Str) (raws : List RawDevice) (m : Assoc Device) (met : StrSet)
    (d : Device)
    → is_labelled d ≡ true
    → lookup k m ≡ some d
    → (n : ℕ) × (lookup k (refresh_all z s raws (m, met)).0 ≡ some (record d { nwk_addr = n }))
unfolding refresh_all
refresh_all_labelled z s k [] m met d l e = (d.nwk_addr, e)
refresh_all_labelled z s k (raw ∷ raws) m met d l e =
    let ieee = format_ieee z raw.ieee_addr in
    let next = refresh_one z s raw (m, met) in
    elim (Bool-cases (not (member ieee s) && str_eq ieee k)) [
      | inl hit ↦
          let found : lookup k next.0 ≡ some (record d { nwk_addr = raw.nwk_addr }) =
            unfold refresh_one in
            ground (
              arith,
              str_eq_iff ieee k,
              lookup-insert ieee k
                  (refreshed z raw.nwk_addr ieee (or_else (lookup ieee m) (fresh_device ieee))) m,
            ) in
          refresh_all_labelled z s k raws next.0 next.1 (record d { nwk_addr = raw.nwk_addr }) l
            found
      | inr miss ↦
          let found : lookup k next.0 ≡ some d =
            unfold refresh_one in
            ground (
              arith,
              str_eq_iff ieee k,
              lookup-insert ieee k
                  (refreshed z raw.nwk_addr ieee (or_else (lookup ieee m) (fresh_device ieee))) m,
            ) in
          refresh_all_labelled z s k raws next.0 next.1 d l found
    ]

-- A refresh changes nothing of a labelled device but its network address and its reachability,
-- whatever the coordinator lists.
refresh_keeps_labelled :
    (z : Goznp) (k : Str) (raws : List RawDevice) (h : Hub) (d : Device)
    → is_labelled d ≡ true
    → lookup k h.devices ≡ some d
    → (n : ℕ) × (b : Bool) × (lookup k (refresh_table z raws h).devices
        ≡ some (record d { nwk_addr = n; reachable = b }))
unfolding refresh_table
refresh_keeps_labelled z k raws h d l e =
    let (m, met) = refresh_all z h.forgotten raws (h.devices, []) in
    let (n, same) = refresh_all_labelled z h.forgotten k raws h.devices [] d l e in
    (
      n,
      if member k met then d.reachable else false,
      rw (lookup-mark_missing k met m, same) (ground arith),
    )

refresh_one-member :
    (z : Goznp) (s : StrSet) (k : Str) (raw : RawDevice) (m : Assoc Device) (met : StrSet)
    → (member k m || (not (member k s) && str_eq (format_ieee z raw.ieee_addr) k)) ≡ true
    → member k (refresh_one z s raw (m, met)).0 ≡ true
unfolding refresh_one
refresh_one-member z s k raw m met e =
    let ieee = format_ieee z raw.ieee_addr in
    ground (
      arith,
      str_eq_iff ieee k,
      lookup-insert ieee k
          (refreshed z raw.nwk_addr ieee (or_else (lookup ieee m) (fresh_device ieee))) m,
    )

refresh_all-member :
    (z : Goznp) (s : StrSet) (k : Str) (raws : List RawDevice) (m : Assoc Device) (met : StrSet)
    → (member k m || (not (member k s) && is_listed z k raws)) ≡ true
    → member k (refresh_all z s raws (m, met)).0 ≡ true
unfolding refresh_all
refresh_all-member z s k [] m met e = ground arith
refresh_all-member z s k (raw ∷ raws) m met e =
    let next = refresh_one z s raw (m, met) in
    refresh_all-member z s k raws next.0 next.1 (ground (arith, refresh_one-member z s k raw m met))

-- Where the library prints addresses as hexadecimal digits and colons: after a refresh a well-
-- formed hub knows an address exactly if it knew it before, or the coordinator lists it and it is
-- not forgotten.
pub refresh_knows_iff :
    (z : Goznp) (k : Str) (raws : List RawDevice) (h : Hub)
    → PrintsAddresses z
    → IsValid h
    → member k (refresh_table z raws h).devices
      ≡ (member k h.devices || (not (member k h.forgotten) && is_listed z k raws))
refresh_knows_iff z k raws h prints t =
    let h' = refresh_table z raws h in
    let (m, met) = refresh_all z h.forgotten raws (h.devices, []) in
    let t' = refresh_table-IsValid z raws h prints t in
    let same : lookup k h'.devices ≡ Option.map (unless_met met k) (lookup k m) =
      unfold refresh_table in lookup-mark_missing k met m in
    let kept : h'.forgotten ≡ h.forgotten = unfold refresh_table in refl in
    ground (
      arith,
      same,
      kept,
      t'.apart k,
      refresh_all-member z h.forgotten k raws h.devices [],
      refresh_unlisted z k raws h,
    )

pub refresh_rounds : Goznp → List (List RawDevice) → Hub → Hub
refresh_rounds z [] h = h
refresh_rounds z (raws ∷ rounds) h = refresh_rounds z rounds (refresh_table z raws h)

forgotten_stays :
    (z : Goznp) (k : Str) (rounds : List (List RawDevice)) (h : Hub)
    → PrintsAddresses z
    → IsValid h
    → member k h.forgotten ≡ true
    → lookup k (refresh_rounds z rounds h).devices ≡ none
unfolding refresh_rounds
forgotten_stays z k [] h prints t e = forgotten_unlisted h.devices h.forgotten k t e
forgotten_stays z k (raws ∷ rounds) h prints t e =
    forgotten_stays z k rounds (refresh_table z raws h) prints
      (refresh_table-IsValid z raws h prints t) (unfold refresh_table in e)

-- Where the library prints addresses as hexadecimal digits and colons: a device of a well-formed
-- hub that is removed, by an address that can be parsed, stays out of the table over any number of
-- refreshes, even where the coordinator still lists it.
pub removed_stays_out :
    {World : Type 0} (z : Goznp) (f : Finder) (r : Radio World) (ieee : Str) (h : Hub) (w : World)
    (addr : List ℕ) (d : Device) (rounds : List (List RawDevice))
    → PrintsAddresses z
    → IsValid h
    → find h ieee ≡ some d
    → parse_ieee z ieee ≡ some addr
    → find (refresh_rounds z rounds (remove z f r ieee h w).0) ieee ≡ none
unfolding find
removed_stays_out z f r ieee h w addr d rounds prints t e a =
    let k = compact_ieee ieee in
    forgotten_stays z k rounds (remove z f r ieee h w).0 prints (remove-IsValid z f r ieee h w t) (
      unfold remove broadcast save_cache in
      ground (arith, lookup-insert k k tt h.forgotten, str_eq_iff k k))
