-- ===== src/Hub/Registry/Canonical.antt =====
-- The keys of the hub's maps: none stands twice, and each is in compact form (internal/hub/hub.go).
use zigbeemq.Prelude.{
  Bool-cases, All, Str, str_eq, str_eq_iff, Assoc, StrSet, lookup, insert, delete, lookup-insert,
  lookup-delete, member, adjust, lookup-adjust, IsMap, ◌≡◌, refl, inl, inr, List, [], ◌∷◌, arith,
}
use zigbeemq.Ieee.{compact_ieee, format_ieee}
use zigbeemq.Zigbee.{RawDevice, Goznp}
use zigbeemq.Device.{Device}
use zigbeemq.Hub.Registry.{mark_missing, refresh_one, refresh_all}
use zigbeemq.Hub.Registry.Refresh.{PrintsAddresses, format_ieee-IsCompact, lookup-mark_missing}

abbrev pub IsCompact : Str → Type 0
IsCompact k = compact_ieee k ≡ k

-- No key stands twice, and each is in compact form.
abbrev pub IsCanonical {ℓ} : {V : Type ℓ} → Assoc V → Type 0
IsCanonical m = IsMap m × All (λ e. IsCompact e.0) m

module _ {ℓ} {V : Type ℓ} where
  pub IsCanonical-insert :
      (k : Str) (v : V) (m : Assoc V) → IsCompact k → IsCanonical m → IsCanonical (insert k v m)
  unfolding insert lookup
  IsCanonical-insert k v [] c canonical = ((refl, tt), (c, tt))
  IsCanonical-insert k v ((j, w) ∷ m) c ((new, once), (own, keys)) =
      elim (Bool-cases (str_eq j k)) [
        | inl same ↦ rw same ((new, once), (own, keys))
        | inr apart ↦
            let (once', keys') = IsCanonical-insert k v m c (once, keys) in
            rw apart (
              (ground (arith, lookup-insert k j v m, str_eq_iff k j, str_eq_iff j k), once'),
              (own, keys'),
            )
      ]

  pub IsCanonical-delete : (k : Str) (m : Assoc V) → IsCanonical m → IsCanonical (delete k m)
  unfolding delete lookup
  IsCanonical-delete k [] canonical = (tt, tt)
  IsCanonical-delete k ((j, w) ∷ m) ((new, once), (own, keys)) =
      let (once', keys') = IsCanonical-delete k m (once, keys) in
      elim (Bool-cases (str_eq j k)) [
        | inl same ↦ rw same (once', keys')
        | inr apart ↦ rw apart ((ground (arith, lookup-delete k j m), once'), (own, keys'))
      ]

  pub IsCanonical-adjust :
      (k : Str) (g : V → V) (m : Assoc V) → IsCanonical m → IsCanonical (adjust k g m)
  unfolding adjust lookup
  IsCanonical-adjust k g [] canonical = (tt, tt)
  IsCanonical-adjust k g ((j, w) ∷ m) ((new, once), (own, keys)) =
      let (once', keys') = IsCanonical-adjust k g m (once, keys) in
      elim (Bool-cases (str_eq j k)) [
        | inl same ↦ rw same ((new, once), (own, keys))
        | inr apart ↦ rw apart ((ground (arith, lookup-adjust k j g m), once'), (own, keys'))
      ]

IsCanonical-mark_missing :
    (met : StrSet) (m : Assoc Device) → IsCanonical m → IsCanonical (mark_missing met m)
unfolding mark_missing lookup
IsCanonical-mark_missing met [] canonical = (tt, tt)
IsCanonical-mark_missing met ((j, d) ∷ m) ((new, once), (own, keys)) =
    let (once', keys') = IsCanonical-mark_missing met m (once, keys) in
    ((ground (arith, lookup-mark_missing j met m), once'), (own, keys'))

module _ (z : Goznp) (prints : PrintsAddresses z) (s : StrSet) where
  refresh_one-IsCanonical :
      (raw : RawDevice) (m : Assoc Device) (met : StrSet)
      → IsCanonical m
      → IsCanonical (refresh_one z s raw (m, met)).0
  unfolding refresh_one
  refresh_one-IsCanonical raw m met c = elim (Bool-cases (member (format_ieee z raw.ieee_addr) s)) [
    | inl skipped ↦ rw skipped c
    | inr listed ↦ rw listed (
        IsCanonical-insert (format_ieee z raw.ieee_addr) _ m
          (format_ieee-IsCompact z raw.ieee_addr prints) c)
  ]

  refresh_all-IsCanonical :
      (raws : List RawDevice) (m : Assoc Device) (met : StrSet)
      → IsCanonical m
      → IsCanonical (refresh_all z s raws (m, met)).0
  unfolding refresh_all
  refresh_all-IsCanonical [] m met c = c
  refresh_all-IsCanonical (raw ∷ raws) m met c =
      let next = refresh_one z s raw (m, met) in
      refresh_all-IsCanonical raws next.0 next.1 (refresh_one-IsCanonical raw m met c)

  -- The table that `Refresh` leaves.
  pub refreshed-IsCanonical :
      (raws : List RawDevice) (m : Assoc Device)
      → IsCanonical m
      → let (m', met) = refresh_all z s raws (m, []) in IsCanonical (mark_missing met m')
  refreshed-IsCanonical raws m c =
      IsCanonical-mark_missing _ _ (refresh_all-IsCanonical raws m [] c)
