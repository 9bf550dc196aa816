-- ===== src/Examples/Table.antt =====
-- The table of devices over refreshes, removals and joins.
use zigbeemq.Prelude.{
  str_eq, to_lower, trim_prefix, remove_all, lookup, member, ◌≡◌, refl, false, ◌&&◌, ◌||◌, not,
  none, some, [], ◌∷◌,
}
use zigbeemq.Ieee.{compact_ieee, parse_ieee}
use zigbeemq.Hub.{Hub, find}
use zigbeemq.Incoming.Press.{no_presses}
use zigbeemq.Incoming.Handle.{handle_incoming}
use zigbeemq.Hub.Registry.{remove, refresh_table, refresh}
use zigbeemq.Hub.Registry.Table.{IsValid}
use zigbeemq.Hub.Registry.Reach.{removes, refreshes, receives, Reach, here, next, Reach-IsValid}
use zigbeemq.Hub.Registry.Membership.{
  is_listed, refresh_knows_iff, refresh_rounds, removed_stays_out,
}
use zigbeemq.Examples.{
  goznp, goznp_prints, find_endpoint, raw_lamp, key, radio, lamp, one_device, one_device-IsValid,
  report,
}

-- A lamp reports, is removed, and is looked for again.
abbrev reported : Hub
reported =
    (handle_incoming goznp report 5 (record { hub = one_device lamp; presses = no_presses })).hub

abbrev gone : Hub
gone = (remove goznp find_endpoint (radio false) key reported 1).0

steps :
    Reach goznp find_endpoint (radio false) (one_device lamp) (refresh goznp (radio false) gone 2).0
steps = next (next (next here (receives report 5 no_presses)) (removes key 1)) (refreshes 2)

Reach-IsValid_example : IsValid (refresh goznp (radio false) gone 2).0
Reach-IsValid_example =
    Reach-IsValid goznp find_endpoint (radio false) goznp_prints one_device-IsValid steps

key_bytes : parse_ieee goznp key ≡ some raw_lamp.ieee_addr
unfolding parse_ieee goznp compact_ieee to_lower trim_prefix remove_all
key_bytes = refl

lamp_found : find (one_device lamp) key ≡ some lamp
unfolding find lookup compact_ieee to_lower trim_prefix remove_all str_eq
lamp_found = refl

removed_stays_out_example :
    find
      (refresh_rounds goznp
        ((raw_lamp ∷ []) ∷ (raw_lamp ∷ []) ∷ [])
        (remove goznp find_endpoint (radio false) key (one_device lamp) 0).0)
      key
    ≡ none
removed_stays_out_example =
    removed_stays_out goznp find_endpoint (radio false) key (one_device lamp) 0 raw_lamp.ieee_addr
      lamp ((raw_lamp ∷ []) ∷ (raw_lamp ∷ []) ∷ []) goznp_prints one_device-IsValid lamp_found
      key_bytes

refresh_knows_iff_example :
    member key (refresh_table goznp (raw_lamp ∷ []) (one_device lamp)).devices ≡ (
      member key (one_device lamp).devices
      || (not (member key (one_device lamp).forgotten) && is_listed goznp key (raw_lamp ∷ [])))
refresh_knows_iff_example =
    refresh_knows_iff goznp key (raw_lamp ∷ []) (one_device lamp) goznp_prints one_device-IsValid

lamp_stands : lookup key (one_device lamp).devices ≡ some lamp
unfolding lookup str_eq
lamp_stands = refl
