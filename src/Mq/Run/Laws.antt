-- ===== src/Mq/Run/Laws.antt =====
-- What a broker retains of a bridge that runs, through outages (`Run`, `OnConnect`, `publishRaw`,
-- internal/mq/bridge.go).
use zigbeemq.Prelude.{Str, ℕ, ◌≡◌, Option}
use zigbeemq.Device.{Device}
use zigbeemq.Hub.Channel.{mine}
use zigbeemq.Hub.{Hub}
use zigbeemq.Mq.Publish.{Payload, device_topic}
use zigbeemq.Mq.Publish.Laws.{retained}
use zigbeemq.Mq.Run.View.{View}
use zigbeemq.Mq.Run.{Session}

module _ (base n : Str) (id : ℕ) (old : Option Payload) where
  abbrev topic : Str
  topic = device_topic base n

  -- What the specification says of a bridge that runs.
  record Mirrors (s : Session) (v : View) : Type 0 where
    others : Hub
    hub : s.hub ≡ mine id v.waiting others
    table : others.devices ≡ v.table
    online : s.client.connected ≡ v.online
    lists : s.lists ≡ v.lists
    shown : retained topic old s.client.sent ≡ v.shown
