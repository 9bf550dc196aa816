-- ===== src/Hub/Registry/Interview.antt =====
-- `Interview` and `applyInterview` (internal/hub/hub.go).
use zigbeemq.Prelude.{
  ◌==◌, if◌then◌else◌, length, any, Str, codes, str_eq, trim_space, ℕ, Bool, true, false, ◌&&◌,
  ◌||◌, not, Option, none, some, List, [], ◌∷◌, ◌++◌, map,
}
use zigbeemq.Zigbee.{RawEndpoint, InterviewResult, Goznp}
use zigbeemq.Radio.{Radio}
use zigbeemq.Errors.{Error, not_found, message, Reply, ok, err, map_radio_error}
use zigbeemq.Ieee.{compact_ieee, parse_ieee}
use zigbeemq.Known.{Kind, switch, sensor, motion, has_cluster, infer_kind, cluster_name}
use zigbeemq.Device.{Endpoint, Device, is_sonoff_mini, is_motion}
use zigbeemq.Hub.{
  setup_relay, Hub, find, must_device, snapshot, modify, broadcast_device, save_cache,
}
use zigbeemq.Hub.Control.{set_unavailable, read_state}
use zigbeemq.Hub.Registry.{maybe_setup_motion, Finder}

abbrev names_of : (ℕ → Str) → List ℕ → List Str
names_of name ids = map name ids

-- `names` of `applyInterview`, without repetitions, in the order of their first occurrence.
add_names : List Str → List Str → List Str
add_names names [] = names
add_names names (n ∷ ns) =
    add_names (if any (λ m. str_eq m n) names then names else names ++ n ∷ []) ns

all_inputs : List RawEndpoint → List ℕ
all_inputs [] = []
all_inputs (ep ∷ eps) = ep.in_clusters ++ all_inputs eps

abbrev first_endpoint : List RawEndpoint → ℕ → ℕ
first_endpoint [] default = default
first_endpoint (ep ∷ _) default = ep.endpoint

module _ (z : Goznp) (find_endpoint : Finder) where
  -- `dev.Endpoint` after `applyInterview`.
  chosen_endpoint : InterviewResult → ℕ → ℕ
  chosen_endpoint result default = elim (find_endpoint result z.cluster_on_off) [
    | some ep ↦ ep
    | none ↦ elim (find_endpoint result z.cluster_occupancy_sensing) [
      | some ep ↦ ep
      | none ↦ elim (find_endpoint result z.cluster_ias_zone) [
        | some ep ↦ ep
        | none ↦ first_endpoint result.endpoints default
      ]
    ]
  ]

  endpoint_snapshot : RawEndpoint → Endpoint
  endpoint_snapshot ep = record {
    id = ep.endpoint;
    inputs = names_of (cluster_name z) ep.in_clusters;
    outputs = names_of (cluster_name z) ep.out_clusters;
  }

  -- The name and the kind after `applyInterview`; the table of known devices is empty.
  interviewed_name : InterviewResult → Device → Str
  interviewed_name result d =
      if d.user_label || str_eq result.model []
      then d.name
      else trim_space (result.manufacturer ++ codes " " ++ result.model)

  interviewed_kind : InterviewResult → Device → Kind
  interviewed_kind result d =
      if d.user_label
      then d.kind
      else infer_kind z result.manufacturer result.model (all_inputs result.endpoints)

  -- `applyInterview`, with the three assignments that stand before its call.
  unfoldable pub apply_interview : InterviewResult → Device → Device
  unfolding chosen_endpoint endpoint_snapshot interviewed_name interviewed_kind all_inputs add_names
  apply_interview result d =
      let ids = all_inputs result.endpoints in
      record d {
        manufacturer = result.manufacturer;
        model = result.model;
        error = [];
        endpoints = map endpoint_snapshot result.endpoints;
        clusters = add_names [] (map (cluster_name z) ids);
        has_on_off = has_cluster ids z.cluster_on_off;
        has_level = has_cluster ids z.cluster_level_control;
        has_occupancy =
            has_cluster ids z.cluster_occupancy_sensing || has_cluster ids z.cluster_ias_zone;
        endpoint = chosen_endpoint result d.endpoint;
        name = interviewed_name result d;
        kind = interviewed_kind result d;
      }

-- The devices that `interviewMissing` looks for: what is known of them is empty.
abbrev is_button_or_sensor : Kind → Bool
is_button_or_sensor switch = true
is_button_or_sensor sensor = true
is_button_or_sensor motion = true
is_button_or_sensor _ = false

abbrev is_unknown : Device → Bool
is_unknown d =
    not (d.archived || is_button_or_sensor d.kind)
    && (str_eq d.manufacturer [] && (str_eq d.model [] && length d.clusters == 0))

pub unknown_devices : List Device → List Device
unknown_devices [] = []
unknown_devices (d ∷ ds) = let rest = unknown_devices ds in if is_unknown d then d ∷ rest else rest

module _ {World : Type 0} (z : Goznp) (find_endpoint : Finder) (r : Radio World) where
  -- `Interview` once the radio has answered; the hub may have lost the device meanwhile.
  unfoldable pub finish_interview :
      Str → Reply InterviewResult → ℕ → Hub → World → Hub × World × Option Error
  finish_interview ieee (err e) now h w = elim (find h ieee) [
    | none ↦ (h, w, some e)
    | some d ↦ (
      broadcast_device ieee (save_cache (modify ieee (set_unavailable e) h)),
      w,
      some (map_radio_error e),
    )
  ]
  finish_interview ieee (ok result) now h w = elim (find h ieee) [
    | none ↦ (h, w, none)
    | some d ↦
        let h1 = modify ieee (apply_interview z find_endpoint result) h in
        let (h2, w', reached) = read_state z r d.ieee now h1 w in
        let dev = must_device h2 ieee in
        let h3 =
          if is_motion dev.kind || dev.has_occupancy then maybe_setup_motion dev h2 else h2 in
        let h4 = broadcast_device d.ieee (save_cache h3) in
        let h5 =
          if is_sonoff_mini (must_device h4 d.ieee)
          then record h4 { tasks = setup_relay d.ieee ∷ h4.tasks }
          else h4 in
        (h5, w', none)
  ]

  -- `Interview`.
  unfoldable pub interview : Str → ℕ → Hub → World → Hub × World × Option Error
  interview ieee now h w = elim (find h ieee) [
    | none ↦ (h, w, some not_found)
    | some d ↦ elim (parse_ieee z ieee) [
      | none ↦ (h, w, some (message (z.parse_ieee_error (compact_ieee ieee))))
      | some addr ↦
          let (w', reply) = r.interview_device w d.nwk_addr addr in
          finish_interview ieee reply now h w'
    ]
  ]

  -- The loop of `interviewMissing` over its snapshot, with the time of each interview.
  unfoldable pub interview_each : (ℕ → ℕ) → List Device → Hub → World → Hub × World
  interview_each at [] h w = (h, w)
  interview_each at (d ∷ ds) h w =
      let (h', w', error) = interview d.ieee (at (length ds)) h w in interview_each at ds h' w'

  -- `interviewMissing`.
  unfoldable pub interview_missing : (ℕ → ℕ) → Hub → World → Hub × World
  interview_missing at h w = interview_each at (unknown_devices (snapshot h)) h w
