-- ===== src/Mq/Run/Sending.antt =====
-- What the client sends with and without a connection (`publishRaw`, internal/mq/bridge.go), and what
-- a broker retains of it.
use mathlib.Core.List.{append-nil, append_assoc}
use zigbeemq.Prelude.{
  if◌then◌else◌, Str, ◌≡◌, refl, sym, ap, ◌∙◌, Bool, true, false, Option, List, [], ◌∷◌, ◌++◌,
}
use zigbeemq.Mq.Publish.{Payload, Publication}
use zigbeemq.Mq.Publish.Laws.{retained, retained-append}
use zigbeemq.Mq.Run.{Client, publish_raw, publish_each}

abbrev only_if : Bool → List Publication → List Publication
only_if on ps = if on then ps else []

publish_each_lem :
    (ps : List Publication) (on : Bool) (sent : List Publication)
    → publish_each ps (record { connected = on; sent = sent })
      ≡ record { connected = on; sent = sent ++ only_if on ps }
unfolding publish_each publish_raw
publish_each_lem [] true sent =
    ap (λ l. record { connected = true; sent = l }) (sym (append-nil sent))
publish_each_lem [] false sent =
    ap (λ l. record { connected = false; sent = l }) (sym (append-nil sent))
publish_each_lem (p ∷ ps) true sent =
    publish_each_lem ps true (sent ++ p ∷ [])
    ∙ ap (λ l. record { connected = true; sent = l }) (append_assoc sent (p ∷ []) ps)
publish_each_lem (p ∷ ps) false sent = publish_each_lem ps false sent

pub publish_each-connected :
    (ps : List Publication) (c : Client) → (publish_each ps c).connected ≡ c.connected
publish_each-connected ps c = ap (λ c'. c'.connected) (publish_each_lem ps c.connected c.sent)

retained-only_if :
    (t : Str) (old : Option Payload) (on : Bool) (ps : List Publication)
    → retained t old (only_if on ps) ≡ (if on then retained t old ps else old)
unfolding retained
retained-only_if t old true ps = refl
retained-only_if t old false ps = refl

-- What is retained after some publications, with and without a connection.
pub retained-publish_each :
    (t : Str) (old : Option Payload) (ps : List Publication) (c : Client)
    → retained t old (publish_each ps c).sent
      ≡ (if c.connected then retained t (retained t old c.sent) ps else retained t old c.sent)
retained-publish_each t old ps c =
    ap (λ c'. retained t old c'.sent) (publish_each_lem ps c.connected c.sent)
    ∙ retained-append t old c.sent (only_if c.connected ps)
    ∙ retained-only_if t (retained t old c.sent) c.connected ps

pub retained-publish_online :
    (t : Str) (old : Option Payload) (ps : List Publication) (c : Client)
    → c.connected ≡ true
    → retained t old (publish_each ps c).sent ≡ retained t (retained t old c.sent) ps
retained-publish_online t old ps c online =
    retained-publish_each t old ps c
    ∙ ap (λ b. if b then retained t (retained t old c.sent) ps else retained t old c.sent) online
