-- ===== src/Examples/Control.antt =====
-- Commands to the lamp.
use mathlib.Core.Option
use zigbeemq.Prelude.{
  codes, str_eq, to_lower, trim_prefix, remove_all, lookup, adjust, member, ℕ, ◌≡◌, refl, ◌↔◌, ◌⊎◌,
  true, false, none, some, [], ◌∷◌, map, arith,
}
use zigbeemq.Errors.{unavailable, message}
use zigbeemq.Ieee.{compact_ieee}
use zigbeemq.Hub.{
  permit_join_event, Hub, new_hub, find, modify, broadcast_device, subscribe, save_cache, migrate,
  load_cache,
}
use zigbeemq.Hub.Control.{
  level_of_percent, percent_of_level, note_unavailable, turn, set_brightness,
}
use zigbeemq.Hub.Control.Brightness.{percent_kept_iff}
use zigbeemq.Hub.Control.Recovery.{HasOneRecovery, note_unavailable-HasOneRecovery}
use zigbeemq.Hub.Control.Commands.{after, Outcome, commands-Outcome}
use zigbeemq.Hub.Subscribers.{broadcasts, filled, broadcasts_bounded}
use zigbeemq.Hub.Cache.{load_cache-save_cache}
use zigbeemq.Examples.{goznp, key, answer, radio, lamp, one_device}

percent_kept_iff_example :
    let p : ℕ = 50 in (percent_of_level (level_of_percent p) ≡ p) ↔ ((p ≡ 0) ⊎ (p ≡ 50) ⊎ (p ≡ 100))
percent_kept_iff_example = percent_kept_iff 50 (omega arith)

abbrev home : Hub
home = one_device lamp

lamp_found : find home key ≡ some lamp
unfolding find lookup compact_ieee to_lower trim_prefix remove_all str_eq
lamp_found = refl

note_unavailable-HasOneRecovery_example : HasOneRecovery (note_unavailable key unavailable home)
note_unavailable-HasOneRecovery_example =
    note_unavailable-HasOneRecovery key unavailable home (unfold new_hub in λ k. omega arith)

compact_key : compact_ieee key ≡ key
unfolding compact_ieee to_lower trim_prefix remove_all
compact_key = refl

commands-Outcome_example :
    let error = some (message (codes "no_ack")) in
    Outcome key error
      (after error 5 (some true) lamp.brightness lamp)
      home
      (turn goznp (radio true) key true 5 home 0)
    × Outcome key error
        (after error 5 (some true) (some 70) lamp)
        home
        (set_brightness goznp (radio true) key 70 5 home 0)
unfolding radio answer
commands-Outcome_example = commands-Outcome goznp (radio true) key 5 home 0 true 70 lamp lamp_found

lamp_turned :
    find (turn goznp (radio false) key true 5 home 0).0 key
    ≡ some (record lamp { on = some true; reachable = true; error = []; last_seen = some 5 })
unfolding turn radio answer find modify broadcast_device lookup adjust compact_ieee to_lower
    trim_prefix remove_all str_eq
lamp_turned = refl

broadcasts_bounded_example :
    (broadcasts (permit_join_event 60 none ∷ []) (subscribe home).0).subs
    ≡ map (filled (permit_join_event 60 none ∷ [])) (subscribe home).0.subs
broadcasts_bounded_example =
    broadcasts_bounded (permit_join_event 60 none ∷ []) (subscribe home).0
      (unfold subscribe new_hub in (omega arith, tt))

home_restored :
    let h' = load_cache (new_hub (codes "/data") (save_cache home).disk) in
    (find h' key ≡ Option.map migrate (find home key))
    × (member key h'.forgotten ≡ member key home.forgotten)
home_restored =
    load_cache-save_cache home (codes "/data") key (unfold new_hub str_eq in refl)
      (unfold new_hub lookup in ((refl, tt), (compact_key, tt))) (unfold new_hub in (tt, tt))
