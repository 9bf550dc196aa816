-- ===== src/Errors.antt =====
-- Errors of the hub, and how errors of the radio are told apart (internal/hub/hub.go,
-- internal/hub/relay.go).
pub mod Laws
use zigbeemq.Prelude.{
  if◌then◌else◌, any, Str, codes, to_lower, contains, ◌≡◌, refl, ◌⊎◌, inl, inr, Bool, true, false,
  ◌||◌, List, [], ◌∷◌, ◌++◌,
}

-- `not_found`, `unavailable`, `not_relay` are the sentinels errNotFound, ErrUnavailable and
-- errNotRelay; `relay_input` wraps errRelayInput; `deadline` is context.DeadlineExceeded, or wraps
-- it, and has the text given; `message` is any other error, by its text.
pub data Error : Type 0 where
  not_found unavailable not_relay : Error
  relay_input deadline message : Str → Error

-- A Go result pair (value, error).
pub data Reply {ℓ} (A : Type ℓ) : Type ℓ where
  ok : A → Reply A
  err : Error → Reply A

-- A call whose error is returned at once.
infixl 5 ◌>>=◌ ◌>>◌
abbrev pub ◌>>=◌ {ℓ κ} : {A : Type ℓ} {B : Type κ} → Reply A → (A → Reply B) → Reply B
ok a >>= f = f a
err e >>= f = err e

abbrev pub ◌>>◌ {ℓ} : {B : Type ℓ} → Reply (Unit {0}) → Reply B → Reply B
m >> k = m >>= λ _. k

-- `err.Error()`.
pub error_text : Error → Str
error_text not_found = codes "device not found"
error_text unavailable = codes "unavailable"
error_text not_relay = codes "not a ZBMINIR2"
error_text (relay_input t) = codes "bad relay setting: " ++ t
error_text (deadline t) = t
error_text (message t) = t

abbrev is_deadline : Error → Bool
is_deadline (deadline _) = true
is_deadline _ = false

abbrev pub unreachable_codes : List Str
unreachable_codes =
    codes "0xb7"
    ∷ codes "0xe9"
    ∷ codes "0xe4"
    ∷ codes "0xcd"
    ∷ codes "0xa7"
    ∷ codes "0xf0"
    ∷ codes "0xe1"
    ∷ []

-- The tests on the text of an error.
pub is_unreachable_text : Str → Bool
unfolding contains to_lower
is_unreachable_text text =
    let s = to_lower text in
    contains s (codes "timeout")
    || contains s (codes "deadline")
    || any (λ code. contains s code) unreachable_codes

-- `isUnreachable` of an error that is not nil.
pub is_unreachable : Error → Bool
unfolding is_unreachable_text error_text
is_unreachable e = if is_deadline e then true else is_unreachable_text (error_text e)

-- `displayRadioError`.
pub display_radio_error : Error → Str
unfolding is_unreachable
display_radio_error e = if is_unreachable e then codes "unavailable" else error_text e

-- `mapRadioError`.
pub map_radio_error : Error → Error
unfolding is_unreachable
map_radio_error e = if is_unreachable e then unavailable else e

-- `IsNotFound`, `IsUnavailable`, `IsNotRelay` and `IsRelayInput`.
abbrev pub is_not_found : Error → Bool
is_not_found not_found = true
is_not_found _ = false

abbrev is_unavailable : Error → Bool
is_unavailable unavailable = true
is_unavailable _ = false

abbrev pub is_not_relay : Error → Bool
is_not_relay not_relay = true
is_not_relay _ = false

abbrev pub is_relay_input : Error → Bool
is_relay_input (relay_input _) = true
is_relay_input _ = false

pub Reply-cases {ℓ} :
    {A : Type ℓ} (r : Reply A) → ((a : A) × (r ≡ ok a)) ⊎ ((e : Error) × (r ≡ err e))
Reply-cases (ok a) = inl (a, refl)
Reply-cases (err e) = inr (e, refl)
