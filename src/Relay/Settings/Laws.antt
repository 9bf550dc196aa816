-- ===== src/Relay/Settings/Laws.antt =====
-- Calls that keep a property of the hub, step by step.
use zigbeemq.Prelude.{if◌then◌else◌, Bool-cases, Str, ℕ, ◌≡◌, inl, inr, Bool}
use zigbeemq.Errors.{Error, Reply, ok, err, Reply-cases}
use zigbeemq.Device.{Relay}
use zigbeemq.Hub.{Hub}
use zigbeemq.Hub.Control.{note_unavailable}
use zigbeemq.Relay.Call.{Call, attempt, update_hub, ◌>>=◌}
use zigbeemq.Relay.Settings.{store_relay}

-- What every step of an exchange with a relay keeps of the hub.
pub record IsKept (P : Hub → Type 0) : Type 0 where
  pub numbered : (h : Hub) (n : ℕ) → P h → P (record h { zcl_seq = n })
  pub lost : (ieee : Str) (e : Error) (h : Hub) → P h → P (note_unavailable ieee e h)
  pub settled : (ieee : Str) (r : Relay) (now : ℕ) (h : Hub) → P h → P (store_relay ieee r now h)

-- A call that keeps `P`.
pub record Keeps {World : Type 0} (P : Hub → Type 0) {A : Type 0} (m : Call World A) : Type 0 where
  pub holds : (h : Hub) (w : World) → P h → P (m h w).0

module _ {World : Type 0} {P : Hub → Type 0} where
  infixr 4 ◌▸◌
  pub ◌▸◌ :
      {A B : Type 0} {m : Call World A} {f : A → Call World B}
      → Keeps P m
      → ((a : A) → Keeps P (f a))
      → Keeps P (m >>= f)
  unfolding ◌>>=◌
  ◌▸◌ {m = m} {f} km kf = record {
    holds = λ h w p. elim (Reply-cases (m h w).2) [
      | inl (a, e) ↦ rw (e, ◌>>=◌) ((kf a).holds (m h w).0 (m h w).1 (km.holds h w p))
      | inr (x, e) ↦ rw (e, ◌>>=◌) (km.holds h w p)
    ];
  }

  pub attempt-Keeps : {A : Type 0} {m : Call World A} → Keeps P m → Keeps P (attempt m)
  attempt-Keeps km = record { holds = λ h w p. km.holds h w p }

  pub idle-Keeps :
      {A : Type 0} {m : Call World A} → ((h : Hub) (w : World) → (m h w).0 ≡ h) → Keeps P m
  idle-Keeps idle = record { holds = λ h w p. rw (idle h w) p }

  pub update_hub-Keeps :
      {f : Hub → Hub} → ((h : Hub) → P h → P (f h)) → Keeps P (update_hub {World = World} f)
  update_hub-Keeps kf = record { holds = λ h w p. kf h p }

  pub if-Keeps :
      {A : Type 0} {m k : Call World A} (b : Bool)
      → Keeps P m
      → Keeps P k
      → Keeps P (if b then m else k)
  if-Keeps b km kk = elim (Bool-cases b) [ inl e ↦ rw e km | inr e ↦ rw e kk ]

  pub Reply-Keeps :
      {A B : Type 0} {f : A → Call World B} {g : Error → Call World B} (r : Reply A)
      → ((a : A) → Keeps P (f a))
      → ((e : Error) → Keeps P (g e))
      → Keeps P (elim r as (λ _. Call World B) [ ok a ↦ f a | err e ↦ g e ])
  Reply-Keeps (ok a) kf kg = kf a
  Reply-Keeps (err e) kf kg = kg e
