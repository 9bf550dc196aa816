-- ===== src/Known/Laws.antt =====
-- What kind a device is taken to be.
use zigbeemq.Prelude.{
  Bool-cases, Str, codes, str_eq, str_eq_iff, has_prefix, contains, ℕ, ◌≡◌, refl, ◌↔◌, ◌⊎◌, inl,
  inr, Bool, true, false, ◌&&◌, ◌||◌, List, arith,
}
use zigbeemq.Zigbee.{Goznp}
use zigbeemq.Known.{Kind, plug, relay, valid_kind, has_cluster, is_mini_model, infer_kind}

abbrev is_plug : Kind → Bool
is_plug plug = true
is_plug _ = false

other_models :
    (model : Str)
    → (model ≡ codes "ZBMINIR2") ⊎ (model ≡ codes "MINI-ZBD")
    → (str_eq model (codes "RB 267") ≡ false)
      × (has_prefix model (codes "lumi.motion") ≡ false)
      × (has_prefix model (codes "lumi.sensor_motion") ≡ false)
      × (contains model (codes "motion") ≡ false)
unfolding str_eq has_prefix contains
other_models model (inl e) = rw e (refl, refl, refl, refl)
other_models model (inr e) = rw e (refl, refl, refl, refl)

mini_cases :
    (model : Str)
    → is_mini_model model ≡ true
    → (model ≡ codes "ZBMINIR2") ⊎ (model ≡ codes "MINI-ZBD")
mini_cases model h =
    ground (arith, str_eq_iff model (codes "ZBMINIR2"), str_eq_iff model (codes "MINI-ZBD"))

-- The kind that is inferred is one of the seven names. A SONOFF MINI is never taken for a plug; it
-- is taken for a relay exactly if its manufacturer is not innr, it has neither the clusters of a motion
-- sensor nor those of a weather sensor, and it does not have both on/off and level control.
-- A device of another model is never taken for a relay.
infer_kind_of_mini :
    (z : Goznp) (manufacturer model : Str) (inputs : List ℕ)
    → let kind = infer_kind z manufacturer model inputs in
      let has = has_cluster inputs in
      (valid_kind kind ≡ true)
      × ((kind ≡ relay) ↔ (
          (is_mini_model model ≡ true)
          × (str_eq manufacturer (codes "innr") ≡ false)
          × ((has z.cluster_occupancy_sensing || has z.cluster_ias_zone) ≡ false)
          × ((has z.cluster_temp_measurement || has z.cluster_humidity_meas) ≡ false)
          × ((has z.cluster_on_off && has z.cluster_level_control) ≡ false)))
      × ((is_mini_model model && is_plug kind) ≡ false)
unfolding infer_kind valid_kind
infer_kind_of_mini z manufacturer model inputs = elim (Bool-cases (is_mini_model model)) [
  | inl mini ↦
      let (a, b, c, d) = other_models model (mini_cases model mini) in
      (ground arith, ground arith, ground arith)
  | inr plain ↦ (ground arith, ground arith, ground arith)
]
