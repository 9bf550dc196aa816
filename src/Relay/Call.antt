-- ===== src/Relay/Call.antt =====
-- Methods of the hub that call the radio and may fail: the hub and the world come back from a failure
-- too.
use zigbeemq.Prelude.{if◌then◌else◌, Str, Bool, none, some}
use zigbeemq.Errors.{Error, not_found, Reply, ok, err}
use zigbeemq.Device.{Device}
use zigbeemq.Hub.{Hub, find}

-- A method of the hub, with its result.
abbrev pub Call : Type 0 → Type 0 → Type 0
Call World A = Hub → World → Hub × World × Reply A

module _ {World : Type 0} where
  abbrev pub pure : {A : Type 0} → A → Call World A
  pure a h w = (h, w, ok a)

  abbrev pub raise : {A : Type 0} → Error → Call World A
  raise e h w = (h, w, err e)

  infixl 5 ◌>>=◌ ◌>>◌
  unfoldable pub ◌>>=◌ : {A B : Type 0} → Call World A → (A → Call World B) → Call World B
  ◌>>=◌ m f h w = let (h', w', r) = m h w in elim r [ ok a ↦ f a h' w' | err e ↦ raise e h' w' ]

  abbrev pub ◌>>◌ : {B : Type 0} → Call World (Unit {0}) → Call World B → Call World B
  m >> k = m >>= λ _. k

  -- A call whose error is looked at.
  abbrev pub attempt : {A : Type 0} → Call World A → Call World (Reply A)
  attempt m h w = let (h', w', r) = m h w in (h', w', ok r)

  abbrev pub reply : {A : Type 0} → Reply A → Call World A
  reply r h w = (h, w, r)

  abbrev pub require : Bool → Error → Call World (Unit {0})
  require b e h w = (h, w, if b then ok tt else err e)

  abbrev pub gets : {A : Type 0} → (Hub → A) → Call World A
  gets f h w = (h, w, ok (f h))

  abbrev pub update_hub : (Hub → Hub) → Call World (Unit {0})
  update_hub f h w = (f h, w, ok tt)

  -- `Device`.
  abbrev pub device : Str → Call World Device
  device ieee h w = (h, w, elim (find h ieee) [ none ↦ err not_found | some d ↦ ok d ])
