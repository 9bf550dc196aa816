-- ===== src/Mq/Publish/Rename.antt =====
-- Renaming a device, from `Update` of the hub (internal/hub/hub.go) to what a broker retains of the
-- bridge (internal/mq/bridge.go).
use zigbeemq.Prelude.{
  ◌==◌, if◌then◌else◌, Str, str_eq, str_eq_iff, trim_space, lookup-adjust, ℕ, ◌≡◌, refl, ap, ◌∙◌,
  Bool, true, false, ◌||◌, Option, none, some, List, [], ◌∷◌, arith,
}
use zigbeemq.Known.{Kind, valid_kind}
use zigbeemq.Ieee.{compact_ieee}
use zigbeemq.Device.{Device}
use zigbeemq.Hub.{
  Event, device_event, renamed_event, Subscriber, Hub, find, must_device, modify, offer, broadcast,
  broadcast_device, save_cache,
}
use zigbeemq.Mq.Publish.{
  Entries, Payload, device_topic, full_text, state_entries, shown_name, publish_event,
}
use zigbeemq.Mq.Publish.Laws.{
  retained, shown_entries, shows, leaves, after_event, retained-publish_event,
}
use zigbeemq.Mq.Run.{Client, publish_each}
use zigbeemq.Mq.Run.Sending.{publish_each-connected, retained-publish_online}
use zigbeemq.Hub.Registry.{is_empty, relabel, update}

-- What waits in the channel of the subscriber `id`.
pub queued : ℕ → List Subscriber → List Event
queued id [] = []
queued id (s ∷ subs) = let rest = queued id subs in if s.id == id then s.queue else rest

update-device :
    (ieee name : Str) (kind : Kind) (archived : Option Bool) (h : Hub) (d : Device)
    → find h ieee ≡ some d
    → must_device (modify ieee (relabel name kind archived) h) ieee ≡ relabel name kind archived d
unfolding must_device modify find
update-device ieee name kind archived h d found = ground (
  arith,
  lookup-adjust (compact_ieee ieee) (compact_ieee ieee) (relabel name kind archived) h.devices,
  str_eq_iff (compact_ieee ieee) (compact_ieee ieee),
)

-- The events of a renaming.
update-subs :
    (ieee name : Str) (kind : Kind) (archived : Option Bool) (h : Hub) (d : Device) (s : Subscriber)
    (others : List Subscriber)
    → h.subs ≡ s ∷ others
    → s.queue ≡ []
    → find h ieee ≡ some d
    → (is_empty kind || valid_kind kind) ≡ true
    → str_eq name [] ≡ false
    → str_eq d.name [] ≡ false
    → str_eq d.name name ≡ false
    → queued s.id (update ieee name kind archived h).0.subs
      ≡ renamed_event (compact_ieee ieee) d.name name
        ∷ device_event (relabel name kind archived d)
        ∷ []
unfolding update broadcast broadcast_device offer queued save_cache modify relabel must_device find
update-subs ieee name kind archived h d s others one drained found fine named old differ =
    ground (arith, update-device ieee name kind archived h d found)

-- The rounds of the loop of `Run` for some events.
abbrev pub handled : Str → List Event → Client → Client
handled base [] c = c
handled base (ev ∷ evs) c = handled base evs (publish_each (publish_event base ev) c)

shown_elsewhere : (old : Option Payload) (entries : Entries) → shown_entries false old entries ≡ old
shown_elsewhere old [] = refl
shown_elsewhere old (e ∷ entries) = refl

after_renaming :
    (ieee from to : Str) (old : Option Payload) (d : Device)
    → str_eq (trim_space from) from ≡ true
    → str_eq from [] ≡ false
    → str_eq (shown_name d) from ≡ false
    → after_event from (after_event from old (renamed_event ieee from to)) (device_event d) ≡ none
unfolding after_event leaves shows
after_renaming ieee from to old d trimmed full elsewhere =
    rw (elsewhere, trimmed, full) (shown_elsewhere none (state_entries (full_text d.last_click) d))

-- When `Update` gives a device another name, and the old name is not empty and has no space at its
-- ends, the bridge, if its channel is empty then and it is connected while it handles the events that
-- `Update` puts there, has cleared what a broker retained for the old name, whatever that was. The
-- channel is the first of the hub's list; others may follow it.
pub update-clears_name :
    (base ieee name : Str) (kind : Kind) (archived : Option Bool) (h : Hub) (d : Device)
    (s : Subscriber) (others : List Subscriber) (old : Option Payload) (c : Client)
    → h.subs ≡ s ∷ others
    → s.queue ≡ []
    → find h ieee ≡ some d
    → (is_empty kind || valid_kind kind) ≡ true
    → str_eq name [] ≡ false
    → str_eq d.name [] ≡ false
    → str_eq d.name name ≡ false
    → str_eq (trim_space d.name) d.name ≡ true
    → c.connected ≡ true
    → let events = queued s.id (update ieee name kind archived h).0.subs in
      retained (device_topic base d.name) old (handled base events c).sent ≡ none
unfolding relabel
update-clears_name base ieee name kind archived h d s others old c one drained found fine named full
      differ trimmed online =
    let d' = relabel name kind archived d in
    let key = compact_ieee ieee in
    let renamed = renamed_event key d.name name in
    let elsewhere : str_eq (shown_name d') d.name ≡ false =
      ground (arith, str_eq_iff d.name name, str_eq_iff name d.name) in
    let t = device_topic base d.name in
    let c1 = publish_each (publish_event base renamed) c in
    let was = retained t old c.sent in
    let first : retained t old c1.sent ≡ after_event d.name was renamed =
      retained-publish_online t old (publish_event base renamed) c online
      ∙ retained-publish_event base d.name was renamed in
    rw (update-subs ieee name kind archived h d s others one drained found fine named full differ) (
      retained-publish_online t old (publish_event base (device_event d')) c1
        (publish_each-connected (publish_event base renamed) c ∙ online)
      ∙ retained-publish_event base d.name (retained t old c1.sent) (device_event d')
      ∙ ap (λ o. after_event d.name o (device_event d')) first
      ∙ after_renaming key d.name name was d' trimmed full elsewhere)
