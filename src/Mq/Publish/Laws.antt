-- ===== src/Mq/Publish/Laws.antt =====
-- What a broker retains of the bridge's messages (internal/mq/bridge.go): MQTT keeps, for each topic,
-- the last message that was published with the retain flag, or none if its payload was empty.
use Prim.Native.String.{String}
use zigbeemq.Prelude.{
  if◌then◌else◌, Str, codes, str_eq, str_eq_iff, trim_space, ◌≡◌, refl, ap, ◌∙◌, Bool, false, ◌&&◌,
  not, Option, none, some, List, [], ◌∷◌, ◌++◌, arith,
}
use zigbeemq.Device.{Device}
use zigbeemq.Hub.{
  Event, device_event, devices_event, renamed_event, removed_event, permit_join_event,
}
use zigbeemq.Mq.{slash}
use zigbeemq.Mq.Publish.{
  Entries, Payload, text, object, plain, nothing, Publication, device_topic, full_text,
  state_entries, shown_name, click_publication, state_publications, publish_device, reset_action,
  clear_name, unpublish, publish_devices, publish_event, bridge_state,
}

abbrev retained_payload : Payload → Option Payload
retained_payload nothing = none
retained_payload (object entries) = some (object entries)
retained_payload (plain s) = some (plain s)

abbrev kept : Str → Option Payload → Publication → Option Payload
kept t old p = if p.retain && str_eq p.topic t then retained_payload p.payload else old

-- What is retained for the topic `t` after publications, where it was `old` before.
unfoldable pub retained : Str → Option Payload → List Publication → Option Payload
retained t old [] = old
retained t old (p ∷ ps) = retained t (kept t old p) ps

pub retained-append :
    (t : Str) (old : Option Payload) (ps qs : List Publication)
    → retained t old (ps ++ qs) ≡ retained t (retained t old ps) qs
unfolding retained
retained-append t old [] qs = refl
retained-append t old (p ∷ ps) qs = retained-append t (kept t old p) ps qs

str_eq-append : (p a b : Str) → str_eq (p ++ a) (p ++ b) ≡ str_eq a b
unfolding str_eq
str_eq-append [] a b = refl
str_eq-append (c ∷ p) a b = ground (arith, str_eq-append p a b)

str_eq-device_topic :
    (base a b : Str) → str_eq (device_topic base a) (device_topic base b) ≡ str_eq a b
str_eq-device_topic base a b =
    str_eq-append base (slash ++ a) (slash ++ b) ∙ str_eq-append slash a b

-- A body replaces what is shown, if it is not empty and for the name in question.
abbrev pub shown_entries : Bool → Option Payload → Entries → Option Payload
shown_entries same old [] = old
shown_entries same old (e ∷ entries) = if same then some (object (e ∷ entries)) else old

-- The specification, in names instead of topics: what the name `n` shows after a device is published.
unfoldable pub shows : Str → Option Payload → Device → Option Payload
shows n old d =
    shown_entries (str_eq (shown_name d) n) old (state_entries (full_text d.last_click) d)

unfoldable pub shows_all : Str → Option Payload → List Device → Option Payload
shows_all n old [] = old
shows_all n old (d ∷ ds) = shows_all n (shows n old d) ds

-- A name that leaves, without the spaces at its ends, takes its message along, if it is not empty.
unfoldable pub leaves : Str → Option Payload → Str → Option Payload
leaves n old name = if str_eq (trim_space name) n && not (str_eq n []) then none else old

unfoldable pub after_event : Str → Option Payload → Event → Option Payload
after_event n old (device_event d) = shows n old d
after_event n old (devices_event ds) = shows_all n old ds
after_event n old (renamed_event ieee from to) = leaves n old from
after_event n old (removed_event ieee name) = leaves n (leaves n old name) ieee
after_event n old (permit_join_event k until) = old

module _ (base n : Str) where
  retained-click_publication :
      (old : Option Payload) (topic click : Str)
      → retained (device_topic base n) old (click_publication topic click) ≡ old
  unfolding retained
  retained-click_publication old topic [] = refl
  retained-click_publication old topic (c ∷ s) = refl

  retained-state_publications :
      (old : Option Payload) (name click : Str) (entries : Entries)
      → retained
          (device_topic base n)
          old
          (state_publications (device_topic base name) click entries)
        ≡ shown_entries (str_eq name n) old entries
  unfolding retained state_publications
  retained-state_publications old name click [] = refl
  retained-state_publications old name click (e ∷ entries) =
      retained-click_publication _ (device_topic base name) click
      ∙ ap (λ b. if b then some (object (e ∷ entries)) else old) (str_eq-device_topic base name n)

  pub retained-publish_device :
      (old : Option Payload) (d : Device)
      → retained (device_topic base n) old (publish_device base d) ≡ shows n old d
  unfolding publish_device shows
  retained-publish_device old d =
      retained-state_publications old (shown_name d) d.last_click
        (state_entries (full_text d.last_click) d)

  pub retained-publish_devices :
      (old : Option Payload) (ds : List Device)
      → retained (device_topic base n) old (publish_devices base ds) ≡ shows_all n old ds
  unfolding publish_devices shows_all
  retained-publish_devices old [] = unfold retained in refl
  retained-publish_devices old (d ∷ ds) =
      retained-append (device_topic base n) old (publish_device base d) (publish_devices base ds)
      ∙ (retained-publish_devices (retained (device_topic base n) old (publish_device base d)) ds
          ∙ ap (λ o. shows_all n o ds) (retained-publish_device old d))

  retained-clear_name :
      (old : Option Payload) (name : Str)
      → retained (device_topic base n) old (clear_name base name)
        ≡ (if str_eq name n && not (str_eq n []) then none else old)
  unfolding retained
  retained-clear_name old [] = ground (arith, str_eq_iff [] n, str_eq_iff n [])
  retained-clear_name old (c ∷ s) =
      ap (λ b. if b then none else old) (str_eq-device_topic base (c ∷ s) n)
      ∙ ground (arith, str_eq_iff (c ∷ s) n, str_eq_iff n [])

  retained-unpublish :
      (old : Option Payload) (name : Str)
      → retained (device_topic base n) old (unpublish base name) ≡ leaves n old name
  unfolding unpublish leaves
  retained-unpublish old name = retained-clear_name old (trim_space name)

  pub retained-publish_event :
      (old : Option Payload) (ev : Event)
      → retained (device_topic base n) old (publish_event base ev) ≡ after_event n old ev
  unfolding publish_event after_event
  retained-publish_event old (device_event d) = retained-publish_device old d
  retained-publish_event old (devices_event ds) = retained-publish_devices old ds
  retained-publish_event old (renamed_event ieee from to) = retained-unpublish old from
  retained-publish_event old (removed_event ieee name) =
      retained-append (device_topic base n) old (unpublish base name) (unpublish base ieee)
      ∙ (retained-unpublish (retained (device_topic base n) old (unpublish base name)) ieee
          ∙ ap (λ o. leaves n o ieee) (retained-unpublish old name))
  retained-publish_event old (permit_join_event k until) = unfold retained in refl

  pub retained-reset_action :
      (old : Option Payload) (d : Device)
      → retained (device_topic base n) old (reset_action base d)
        ≡ (if str_eq (shown_name d) n then some (object (state_entries (some []) d)) else old)
  unfolding retained reset_action
  retained-reset_action old d =
      ap (λ b. if b then some (object (state_entries (some []) d)) else old)
        (str_eq-device_topic base (shown_name d) n)

  -- The state of the bridge has a topic that is no device's.
  pub retained-bridge_state :
      (old : Option Payload) (state : String)
      → str_eq (codes "bridge/state") n ≡ false
      → retained (device_topic base n) old (bridge_state base state ∷ []) ≡ old
  unfolding retained
  retained-bridge_state old state other =
      ap (λ b. if b then some (object ((codes "state", text (codes state)) ∷ [])) else old)
        (str_eq-device_topic base (codes "bridge/state") n ∙ other)

-- When a device is renamed, what is retained for its old name goes exactly if the name is not empty
-- and has no space at its ends: of any other name the message stays.
pub renamed_clears :
    (base ieee from to : Str) (old : Option Payload)
    → retained (device_topic base from) old (publish_event base (renamed_event ieee from to))
      ≡ (if str_eq (trim_space from) from && not (str_eq from []) then none else old)
unfolding leaves after_event
renamed_clears base ieee from to old =
    retained-publish_event base from old (renamed_event ieee from to)
