-- ===== src/Mq/Run/Outage.antt =====
-- What a lost connection costs (`OnConnect`, `publishDevice`, `publishRaw`, internal/mq/bridge.go).
use mathlib.Core.Option
use zigbeemq.Prelude.{
  length, All, Str, codes, str_eq, str_eq_refl, ℕ, zero, ◌<◌, ◌≡◌, refl, sym, ap, ◌∙◌, true, false,
  Option, some, List, [], ◌∷◌, ◌++◌, arith,
}
use zigbeemq.Device.{Device}
use zigbeemq.Hub.{Hub, snapshot}
use zigbeemq.Mq.Publish.Values.{value_of, state_json, level_json, state_entries-HasValues}
use zigbeemq.Mq.Publish.{
  Entries, Payload, object, Publication, device_topic, full_text, state_entries, shown_name,
  publish_device, publish_devices, bridge_state,
}
use zigbeemq.Mq.Publish.Laws.{retained, shown_entries, shows, shows_all, retained-publish_devices}
use zigbeemq.Mq.Run.Sending.{publish_each-connected, retained-publish_online}
use zigbeemq.Mq.Run.{
  Client, publish_raw, publish_each, Session, Incident, connects, asks_devices, sends, incident,
  incidents,
}

abbrev pub shown_state : Device → Entries
shown_state d = state_entries (full_text d.last_click) d

shows_all-append :
    (n : Str) (old : Option Payload) (ds es : List Device)
    → shows_all n old (ds ++ es) ≡ shows_all n (shows_all n old ds) es
unfolding shows_all
shows_all-append n old [] es = refl
shows_all-append n old (d ∷ ds) es = shows_all-append n (shows n old d) ds es

shows_other :
    (n : Str) (old : Option Payload) (d : Device)
    → str_eq (shown_name d) n ≡ false
    → shows n old d ≡ old
unfolding shows
shows_other n old d other = rw other (unshown (shown_state d))
  where
    unshown : (entries : Entries) → shown_entries false old entries ≡ old
    unshown [] = refl
    unshown (e ∷ entries) = refl

shows_all_others :
    (n : Str) (old : Option Payload) (ds : List Device)
    → All (λ e. str_eq (shown_name e) n ≡ false) ds
    → shows_all n old ds ≡ old
unfolding shows_all
shows_all_others n old [] p = refl
shows_all_others n old (d ∷ ds) (p, ps) = rw (shows_other n old d p) (shows_all_others n old ds ps)

shown_own :
    (old : Option Payload) (entries : Entries)
    → 0 < length entries
    → shown_entries true old entries ≡ some (object entries)
shown_own old [] p = absurd (omega arith)
shown_own old (e ∷ entries) p = refl

shows_own :
    (old : Option Payload) (d : Device)
    → 0 < length (shown_state d)
    → shows (shown_name d) old d ≡ some (object (shown_state d))
unfolding shows
shows_own old d full = rw (str_eq_refl (shown_name d)) (shown_own old (shown_state d) full)

-- The steps in which the `OnConnect` that has asked last publishes the devices `ds`.
abbrev sending_all : List Device → List Incident
sending_all [] = []
sending_all (d ∷ ds) = sends zero ∷ sending_all ds

publish_each-append :
    (ps qs : List Publication) (c : Client)
    → publish_each (ps ++ qs) c ≡ publish_each qs (publish_each ps c)
unfolding publish_each
publish_each-append [] qs c = refl
publish_each-append (p ∷ ps) qs c = publish_each-append ps qs (publish_raw p c)

sent_all :
    (base : Str) (id : ℕ) (ds : List Device) (h : Hub) (c : Client) (lists : List (List Device))
    → (incidents base id
        (sending_all ds)
        (record { hub = h; client = c; lists = ds ∷ lists })).client
      ≡ publish_each (publish_devices base ds) c
unfolding incidents incident publish_devices
sent_all base id [] h c lists = unfold publish_each in refl
sent_all base id (d ∷ ds) h c lists =
    sent_all base id ds h (publish_each (publish_device base d) c) lists
    ∙ sym (publish_each-append (publish_device base d) (publish_devices base ds) c)

-- The steps of an `OnConnect` beside which nothing else of the bridge runs.
abbrev pub reconnects : List Device → List Incident
reconnects ds = connects ∷ asks_devices ∷ sending_all ds

reconnected :
    (base : Str) (id : ℕ) (s : Session) (before later : List Device) (d : Device)
    (old : Option Payload)
    → snapshot s.hub ≡ before ++ d ∷ later
    → 0 < length (shown_state d)
    → All (λ e. str_eq (shown_name e) (shown_name d) ≡ false) later
    → retained
        (device_topic base (shown_name d))
        old
        (incidents base id (reconnects (before ++ d ∷ later)) s).client.sent
      ≡ some (object (shown_state d))
unfolding shows_all
reconnected base id s before later d old listed full others =
    let ds = before ++ d ∷ later in
    let n = shown_name d in
    let t = device_topic base n in
    let c0 : Client = record s.client { connected = true } in
    let c = publish_each (bridge_state base "online" ∷ []) c0 in
    let asked : (incidents base id (reconnects ds) s).client
        ≡ publish_each (publish_devices base ds) c =
      unfold incidents incident in
      ap
        (λ l.
          (incidents base id (sending_all ds)
            (record { hub = s.hub; client = c; lists = l ∷ s.lists })).client)
        listed
      ∙ sent_all base id ds s.hub c s.lists in
    ap (λ c'. retained t old c'.sent) asked
    ∙ retained-publish_online t old (publish_devices base ds) c
        (publish_each-connected (bridge_state base "online" ∷ []) c0)
    ∙ retained-publish_devices base n (retained t old c.sent) ds
    ∙ shows_all-append n _ before (d ∷ later)
    ∙ shows_all_others n _ later others
    ∙ shows_own _ d full

-- Whatever happened before, outages and lost messages included: when the client connects, and the
-- `OnConnect` that this starts asks the hub for its devices and publishes them, with nothing else of
-- the bridge in between, a broker then retains for the topic of a device of the hub's table the state
-- that the table has for it, if it has one and no later device of the table is shown under the same
-- name; this state has under "state" whether the device is on, and under "brightness" its level, if
-- they are known.
pub outage_repaired :
    (base : Str) (id : ℕ) (xs : List Incident) (s : Session) (before later : List Device)
    (d : Device) (old : Option Payload)
    → let s' = incidents base id xs s in
      let devices = before ++ d ∷ later in
      snapshot s'.hub ≡ devices
      → 0 < length (shown_state d)
      → All (λ e. str_eq (shown_name e) (shown_name d) ≡ false) later
      → (retained
            (device_topic base (shown_name d))
            old
            (incidents base id
              (reconnects (before ++ d ∷ later))
              (incidents base id xs s)).client.sent
          ≡ some (object (shown_state d)))
        × (value_of (codes "state") (shown_state d) ≡ Option.map state_json d.on)
        × (value_of (codes "brightness") (shown_state d) ≡ Option.map level_json d.brightness)
outage_repaired base id xs s before later d old listed full others =
    let s' = incidents base id xs s in
    let values = state_entries-HasValues (full_text d.last_click) d in
    (reconnected base id s' before later d old listed full others, values.state, values.brightness)
