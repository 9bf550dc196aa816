-- ===== src/Incoming/Handle/Laws/Valid.antt =====
-- A frame keeps the table of devices well formed.
use zigbeemq.Prelude.{
  leb, if◌then◌else◌, Option-cases, Str, ℕ, refl, inl, inr, Bool, true, false, Option, none, some,
  List, [], ◌∷◌, arith,
}
use zigbeemq.Zigbee.{Frame, Message, Goznp}
use zigbeemq.Device.{Device, is_light_like}
use zigbeemq.Hub.{Hub}
use zigbeemq.Hub.Registry.{maybe_setup_motion}
use zigbeemq.Hub.Registry.Table.{IsValid, IsTable-adjust, IsValid-of_same}
use zigbeemq.Incoming.Action.{
  Action, click_action, decode_action, xiaomi_click_count, reported_on_off,
}
use zigbeemq.Incoming.Reports.{apply_motion_report}
use zigbeemq.Incoming.Reports.Laws.{
  note_action-IsValid, apply_motion_report-IsValid, apply_light_report-IsValid,
}
use zigbeemq.Incoming.Handle.{
  Receiver, first_at, switch_keys, at_nwk, fallback, device_for_nwk, noted, act,
  handle_xiaomi_on_off, is_on_off_report, handle_switch, is_motion_source, is_enroll_request,
  handle_motion, handle_frame, handle_incoming,
}

fallback-IsValid :
    (nwk : ℕ) (h : Hub) (keys : List Str) → IsValid h → IsValid (fallback nwk h keys).0
unfolding fallback
fallback-IsValid nwk h [] t = t
fallback-IsValid nwk h (k ∷ []) t =
    IsTable-adjust k (at_nwk nwk) h.devices h.forgotten (λ d. refl) t
fallback-IsValid nwk h (k ∷ j ∷ keys) t = t

device_for_nwk-IsValid : (nwk : ℕ) (h : Hub) → IsValid h → IsValid (device_for_nwk nwk h).0
unfolding device_for_nwk
device_for_nwk-IsValid nwk h t = elim (Option-cases (first_at nwk h.devices)) [
  | inl missing ↦ rw (device_for_nwk, missing) (fallback-IsValid nwk h (switch_keys h.devices) t)
  | inr (d, found) ↦ rw (device_for_nwk, found) t
]

noted-IsValid :
    (now : ℕ) (out : Option (Str × Action)) (h : Hub) → IsValid h → IsValid (noted now out h)
unfolding noted
noted-IsValid now none h t = t
noted-IsValid now (some (ieee, action)) h t = note_action-IsValid ieee action now h t

maybe_setup_motion-IsValid : (d : Device) (h : Hub) → IsValid h → IsValid (maybe_setup_motion d h)
unfolding maybe_setup_motion
maybe_setup_motion-IsValid d h t =
    IsValid-of_same h (maybe_setup_motion d h) (ground arith) (ground arith) t

choose-IsValid :
    (b : Bool) (x y : Receiver) → IsValid x.hub → IsValid y.hub → IsValid (if b then x else y).hub
choose-IsValid true x y p q = p
choose-IsValid false x y p q = q

split-IsValid :
    {A : Type 0} (o : Option A) (x : Receiver) (f : A → Receiver)
    → IsValid x.hub
    → ((a : A) → IsValid (f a).hub)
    → IsValid (elim o as (λ _. Receiver) [ none ↦ x | some a ↦ f a ]).hub
split-IsValid none x f p q = p
split-IsValid (some a) x f p q = q a

act-IsValid :
    (ieee : Str) (action : Action) (now : ℕ) (s : Receiver)
    → IsValid s.hub
    → IsValid (act ieee action now s).hub
unfolding act
act-IsValid ieee action now s t = note_action-IsValid ieee action now s.hub t

module _ (z : Goznp) (now : ℕ) where
  handle_xiaomi_on_off-IsValid :
      (ieee : Str) (frame : Frame) (s : Receiver)
      → IsValid s.hub
      → IsValid (handle_xiaomi_on_off z ieee frame now s).hub
  unfolding handle_xiaomi_on_off
  handle_xiaomi_on_off-IsValid ieee frame s t = elim (Option-cases (reported_on_off z frame)) [
    | inl nothing ↦ rw (handle_xiaomi_on_off, nothing) t
    | inr (on, read) ↦ rw (handle_xiaomi_on_off, read) (noted-IsValid now _ s.hub t)
  ]

  handle_switch-IsValid :
      (ieee : Str) (frame : Frame) (cluster : ℕ) (s : Receiver)
      → IsValid s.hub
      → IsValid (handle_switch z ieee frame cluster now s).hub
  unfolding handle_switch
  handle_switch-IsValid ieee frame cluster s t =
      let report = is_on_off_report z frame cluster in
      let count = if report then xiaomi_click_count z frame else none in
      split-IsValid count _ _
        (split-IsValid (decode_action z frame cluster) _ _
          (choose-IsValid report _ _ (handle_xiaomi_on_off-IsValid ieee frame s t) t)
          (λ action. act-IsValid ieee action now s t))
        (λ n. choose-IsValid (leb 2 n) _ _ (act-IsValid ieee (click_action n) now s t) t)

  handle_motion-IsValid :
      (d : Device) (frame : Frame) (msg : Message) (s : Receiver)
      → IsValid s.hub
      → IsValid (handle_motion z d frame msg now s).hub
  unfolding handle_motion
  handle_motion-IsValid d frame msg s t =
      let h = maybe_setup_motion d s.hub in
      let valid = maybe_setup_motion-IsValid d s.hub t in
      let reported = apply_motion_report-IsValid z d.ieee frame msg.cluster_id now h valid in
      let (h', done) = apply_motion_report z d.ieee frame msg.cluster_id now h in
      choose-IsValid (is_enroll_request z frame msg.cluster_id) _ _ valid (
        choose-IsValid done _ _ reported
          (handle_switch-IsValid d.ieee frame msg.cluster_id (record s { hub = h' }) reported))

  handle_frame-IsValid :
      (d : Device) (frame : Frame) (msg : Message) (s : Receiver)
      → IsValid s.hub
      → IsValid (handle_frame z d frame msg now s).hub
  unfolding handle_frame
  handle_frame-IsValid d frame msg s t =
      choose-IsValid (is_light_like d.kind) _ _
        (apply_light_report-IsValid z d.ieee frame msg.cluster_id now s.hub t)
        (choose-IsValid (is_motion_source z d msg.cluster_id) _ _
          (handle_motion-IsValid d frame msg s t)
          (handle_switch-IsValid d.ieee frame msg.cluster_id s t))

  pub handle_incoming-IsValid :
      (msg : Message) (s : Receiver) → IsValid s.hub → IsValid (handle_incoming z msg now s).hub
  unfolding handle_incoming
  handle_incoming-IsValid msg s t =
      let (h, found) = device_for_nwk msg.src_addr s.hub in
      let s' : Receiver = record s { hub = h } in
      let valid = device_for_nwk-IsValid msg.src_addr s.hub t in
      split-IsValid found s' _ valid (λ d.
        split-IsValid (z.parse_frame msg.body) s' _ valid
          (λ frame. handle_frame-IsValid d frame msg s' valid))
