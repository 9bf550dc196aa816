-- ===== src/Known.antt =====
-- Kinds of devices (internal/hub/known.go).
pub mod Laws
use zigbeemq.Prelude.{
  ◌==◌, if◌then◌else◌, Str, codes, str_eq, has_prefix, contains, ℕ, Bool, true, false, ◌&&◌, ◌||◌,
  Option, none, List, [], ◌∷◌,
}
use zigbeemq.Zigbee.{Goznp}

-- A `Kind` is a text in the source: `empty` is "", `other` is any text but "" and the seven names.
pub data Kind : Type 0 where
  empty light plug relay switch sensor motion unknown : Kind
  other : Str → Kind

-- `ValidKind`.
pub valid_kind : Kind → Bool
valid_kind empty = false
valid_kind (other _) = false
valid_kind _ = true

pub record KnownDevice : Type 0 where
  pub name : Str
  pub kind : Kind

-- `lookupKnown`: the table `knownByIEEE` has no entries.
abbrev lookup_known : Str → Option KnownDevice
lookup_known ieee = none

-- `hasCluster`.
unfoldable pub has_cluster : List ℕ → ℕ → Bool
has_cluster [] id = false
has_cluster (c ∷ ids) id = c == id || has_cluster ids id

abbrev pub is_mini_model : Str → Bool
is_mini_model model = str_eq model (codes "ZBMINIR2") || str_eq model (codes "MINI-ZBD")

module _ (z : Goznp) where
  -- `inferKind`.
  pub infer_kind : Str → Str → List ℕ → Kind
  infer_kind manufacturer model in_clusters =
      if str_eq model (codes "RB 267") || str_eq manufacturer (codes "innr")
      then light
      else if has_prefix model (codes "lumi.motion")
          || has_prefix model (codes "lumi.sensor_motion")
      then motion
      else if str_eq manufacturer (codes "LUMI") && contains model (codes "motion")
      then motion
      else if has_cluster in_clusters z.cluster_occupancy_sensing
          || has_cluster in_clusters z.cluster_ias_zone
      then motion
      else if has_cluster in_clusters z.cluster_temp_measurement
          || has_cluster in_clusters z.cluster_humidity_meas
      then sensor
      else if has_cluster in_clusters z.cluster_on_off
          && has_cluster in_clusters z.cluster_level_control
      then light
      else if is_mini_model model
      then relay
      else if has_cluster in_clusters z.cluster_on_off
      then plug
      else unknown

  -- `clusterName`.
  abbrev pub cluster_name : ℕ → Str
  cluster_name id = z.cluster_string id
