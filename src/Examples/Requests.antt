-- ===== src/Examples/Requests.antt =====
-- Requests to the HTTP interface and messages of the bridge.
use zigbeemq.Prelude.{
  if◌then◌else◌, Str, codes, str_eq, to_lower, to_upper, has_prefix, trim_prefix, has_suffix,
  contains, remove_all, trim_space, lookup, ◌≤◌, ◌≡◌, refl, ◌↔◌, ◌⊎◌, true, false, ◌&&◌, not, none,
  some, [], ◌∷◌, ◌++◌,
}
use zigbeemq.Errors.{Error, not_found, message, ok, err}
use zigbeemq.Ieee.{compact_ieee}
use zigbeemq.Known.{empty, light}
use zigbeemq.Hub.{renamed_event, Subscriber, Hub, new_hub, find, must_device, find_by_name}
use zigbeemq.Hub.Control.{turn}
use zigbeemq.Relay.Settings.Refused.{IsAccepted}
use zigbeemq.Web.{
  percent_body, Decoder, respond, on_request, write_err, device_status, post_brightness,
  patch_relay, serve,
}
use zigbeemq.Web.Laws.{unknown_404}
use zigbeemq.Web.Status.{IsRefusedAs, patch_relay_refused, brightness_answer}
use zigbeemq.Mq.{slash, set_suffix, topic_prefix, set_name}
use zigbeemq.Mq.Laws.{set_name_subscribed}
use zigbeemq.Mq.Publish.{plain, nothing, device_topic, publish_event}
use zigbeemq.Mq.Publish.Laws.{retained, renamed_clears}
use zigbeemq.Mq.Publish.Rename.{queued, handled, update-clears_name}
use zigbeemq.Hub.Registry.{update}
use zigbeemq.Mq.Set.{Unmarshal, parse_set, handle_set}
use zigbeemq.Mq.Set.Laws.{handle_set_on, handle_set_state}
use zigbeemq.Examples.{goznp, find_endpoint, key, answer, radio, lamp, one_device}
use zigbeemq.Examples.Relays.{link, mini, relay_home, no_patch}

abbrev decode : Decoder
decode = record {
  percent = λ s. ok 130;
  patch = λ s. ok no_patch;
  change = λ s. ok (record { name = codes "lamp"; kind = light; archived = none });
  seconds = λ s. 60;
}

abbrev stranger : Str
stranger = codes "ff"

unknown_404_example :
    serve goznp find_endpoint (radio false) link decode (on_request stranger) 7 relay_home 0
    ≡ (relay_home, 0, write_err 404 not_found)
unknown_404_example =
    unknown_404 goznp find_endpoint (radio false) link decode (on_request stranger) 7 relay_home 0
      refl (unfold find lookup compact_ieee to_lower trim_prefix remove_all str_eq in refl)

patch_relay_refused_example :
    IsAccepted relay_home key no_patch
    ⊎ ((e : Error) × (IsRefusedAs relay_home key no_patch (device_status e)
          × (patch_relay goznp find_endpoint
                (radio false)
                link
                decode
                key
                (codes "{}")
                7
                relay_home
                0
              ≡ (relay_home, 0, write_err (device_status e) e))))
patch_relay_refused_example =
    patch_relay_refused goznp find_endpoint (radio false) link decode key (codes "{}") 7 relay_home
      0 no_patch refl

mini_found : find relay_home key ≡ some mini
unfolding find lookup compact_ieee to_lower trim_prefix remove_all str_eq new_hub
mini_found = refl

brightness_answer_example :
    let (h, w, response) =
      post_brightness goznp find_endpoint (radio false) link decode key [] 7 relay_home 0 in
    (response ≡ respond 200 (percent_body 130))
    × (((must_device h key).brightness ≡ some 130) ↔ (130 ≤ 100))
brightness_answer_example =
    brightness_answer goznp find_endpoint (radio false) link decode key [] 7 relay_home 0 130 mini 1
      refl mini_found (unfold radio answer in refl)

abbrev base : Str
base = codes "zigbee2mqtt"

renamed_clears_example :
    retained
      (device_topic base (codes "lamp "))
      (some (plain (codes "{}")))
      (publish_event base (renamed_event key (codes "lamp ") (codes "desk")))
    ≡ (if str_eq (trim_space (codes "lamp ")) (codes "lamp ") && not (str_eq (codes "lamp ") [])
        then none
        else some (plain (codes "{}")))
renamed_clears_example =
    renamed_clears base key (codes "lamp ") (codes "desk") (some (plain (codes "{}")))

set_name_subscribed_example :
    set_name (codes "home/") (codes "home/" ++ (slash ++ (codes "lamp" ++ set_suffix)))
    ≡ (if has_suffix (codes "home/") slash then none else some (codes "lamp"))
set_name_subscribed_example =
    set_name_subscribed (codes "home/") (codes "lamp") (unfold str_eq in refl)
      (unfold contains has_prefix in refl)

-- What is read of {"state": true}.
abbrev json : Unmarshal
json = record {
  set_body = λ s.
      ok (record { state = some (codes "true"); brightness_percent = none; brightness = none });
  patch = λ s. err (message []);
}

true_parsed : parse_set json (codes "{true}") ≡ ok (some (codes "TRUE"), none)
unfolding parse_set trim_space to_upper str_eq
true_parsed = refl

lamp_named : find_by_name (one_device lamp) (codes "lamp") ≡ some lamp
unfolding find_by_name compact_ieee to_lower trim_prefix remove_all str_eq new_hub
lamp_named = refl

handle_set_on_example :
    let turned = turn goznp (radio false) key true 7 (one_device lamp) 0 in
    handle_set goznp
      (radio false)
      link
      json
      base
      (topic_prefix base ++ (codes "lamp" ++ set_suffix))
      (codes " on ")
      7
      (one_device lamp)
      0
    ≡ (turned.0, turned.1)
handle_set_on_example =
    handle_set_on goznp (radio false) link json base 7 (one_device lamp) 0 (codes "lamp")
      (codes " on ") lamp (unfold str_eq in refl) (unfold contains has_prefix in refl) lamp_named
      (unfold str_eq in refl) (unfold trim_space to_upper in refl)

abbrev bridge_channel : Subscriber
bridge_channel = record { id = 0; queue = [] }

abbrev heard_home : Hub
heard_home = record (one_device lamp) { subs = bridge_channel ∷ [] }

heard_lamp : find heard_home key ≡ some lamp
unfolding find lookup compact_ieee to_lower trim_prefix remove_all str_eq new_hub
heard_lamp = refl

update-clears_name_example :
    let events = queued 0 (update key (codes "desk") empty none heard_home).0.subs in
    retained
      (device_topic base (codes "lamp"))
      (some nothing)
      (handled base events (record { connected = true; sent = [] })).sent
    ≡ none
update-clears_name_example =
    update-clears_name base key (codes "desk") empty none heard_home lamp bridge_channel []
      (some nothing) (record { connected = true; sent = [] }) refl refl heard_lamp refl
      (unfold str_eq in refl) (unfold str_eq in refl) (unfold str_eq in refl)
      (unfold str_eq trim_space in refl) refl

handle_set_state_example :
    let off = turn goznp (radio false) key false 7 (one_device lamp) 0 in
    handle_set goznp
      (radio false)
      link
      json
      base
      (topic_prefix base ++ (codes "lamp" ++ set_suffix))
      (codes "{true}")
      7
      (one_device lamp)
      0
    ≡ (off.0, off.1)
unfolding str_eq
handle_set_state_example =
    handle_set_state goznp (radio false) link json base 7 (one_device lamp) 0 (codes "lamp")
      (codes "{true}") (codes "TRUE") lamp (unfold str_eq in refl)
      (unfold contains has_prefix in refl) lamp_named (unfold str_eq in refl) true_parsed
      (unfold to_lower str_eq in refl)
