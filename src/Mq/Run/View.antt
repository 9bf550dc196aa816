-- ===== src/Mq/Run/View.antt =====
-- What a bridge that runs shows of the devices, as a specification without topics, messages and a
-- client (`Run`, `OnConnect`, internal/mq/bridge.go).
use zigbeemq.Prelude.{
  if◌then◌else◌, Str, str_eq, Assoc, Bool, true, false, Option, none, some, List, [], ◌∷◌,
}
use zigbeemq.Device.{Device}
use zigbeemq.Hub.Channel.{push}
use zigbeemq.Hub.{values, Event}
use zigbeemq.Mq.Publish.{Payload, object, state_entries, shown_name}
use zigbeemq.Mq.Publish.Laws.{shows, after_event}
use zigbeemq.Mq.Run.{
  next_device, Incident, edited, announced, arrives, waited, connects, asks_devices, sends, loses,
}

-- The specification, for one name instead of a topic: the events that wait, whether there is a
-- connection, the table, the devices that each `OnConnect` has yet to publish, and what is shown.
pub record View : Type 0 where
  pub waiting : List Event
  pub online : Bool
  pub table : Assoc Device
  pub lists : List (List Device)
  pub shown : Option Payload

abbrev pub showing : Option Payload → View → View
showing new v = record v { shown = if v.online then new else v.shown }

unfoldable pub see : Str → Incident → View → View
unfolding next_device values
see n (edited m) v = record v { table = m }
see n (announced ev) v = record v { waiting = push ev v.waiting }
see n arrives v = elim v.waiting [
  | [] ↦ v
  | ev ∷ q ↦ showing (after_event n v.shown ev) (record v { waiting = q })
]
see n (waited d) v =
    showing (if str_eq (shown_name d) n then some (object (state_entries (some []) d)) else v.shown)
      v
see n connects v = record v { online = true }
see n asks_devices v = record v { lists = values v.table ∷ v.lists }
see n (sends i) v =
    let (found, rest) = next_device i v.lists in
    elim found [ none ↦ v | some d ↦ showing (shows n v.shown d) (record v { lists = rest }) ]
see n loses v = record v { online = false }

unfoldable pub see_all : Str → List Incident → View → View
unfolding see
see_all n [] v = v
see_all n (x ∷ xs) v = see_all n xs (see n x v)
