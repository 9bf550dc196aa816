-- ===== src/Relay/Codec/Laws.antt =====
-- What the codecs of the relay promise.
use Prim.Native.Nat.{digits, differ, bit_xor, bit_xor-bitwise}
use zigbeemq.Prelude.{
  if◌then◌else◌, length, get_or, Str, codes, str_eq, str_eq_iff, to_lower, to_upper, trim_space, ℕ,
  zero, suc, ◌+◌, ◌*◌, ◌/◌, ◌%◌, ◌≤◌, ◌<◌, ◌≡◌, refl, ◌∙◌, ◌↔◌, inl, inr, Bool, true, false, some,
  List, [], ◌∷◌, ◌++◌, arith,
}
use zigbeemq.Errors.{ok, Reply-cases}
use zigbeemq.Device.{Seconds}
use zigbeemq.Relay.Codec.{
  power_on_value, power_on_name, trigger_value, trigger_name, second, distance, delay_raw,
  seconds_of_raw, xor_all, inching_body, inching_bytes, inching_flags, inching_payload,
}

power_on_value-name :
    (v : ℕ) (s : Str) → power_on_name v ≡ some (to_lower (trim_space s)) → power_on_value s ≡ ok v
unfolding power_on_name power_on_value
power_on_value-name v s h =
    let t = to_lower (trim_space s) in
    ground (
      arith,
      str_eq_iff t (codes "off"),
      str_eq_iff t (codes "on"),
      str_eq_iff t (codes "toggle"),
      str_eq_iff t (codes "previous"),
    )

power_on_name-value :
    (v : ℕ) (s : Str) → power_on_value s ≡ ok v → power_on_name v ≡ some (to_lower (trim_space s))
unfolding power_on_name power_on_value
power_on_name-value v s h =
    let t = to_lower (trim_space s) in
    ground (
      arith,
      str_eq_iff t (codes "off"),
      str_eq_iff t (codes "on"),
      str_eq_iff t (codes "toggle"),
      str_eq_iff t (codes "previous"),
    )

-- A text is accepted as the power-on value `v` exactly if the text, trimmed and in lower case, is the
-- name that `v` is shown by.
power_on_names :
    (v : ℕ) (s : Str)
    → (power_on_value s ≡ ok v) ↔ (power_on_name v ≡ some (to_lower (trim_space s)))
power_on_names v s = (power_on_name-value v s, power_on_value-name v s)

trigger_value-name :
    (v : ℕ) (s : Str) → trigger_name v ≡ some (to_lower (trim_space s)) → trigger_value s ≡ ok v
unfolding trigger_name trigger_value
trigger_value-name v s h =
    let t = to_lower (trim_space s) in
    ground (
      arith,
      str_eq_iff t (codes "edge"),
      str_eq_iff t (codes "pulse"),
      str_eq_iff t (codes "following(off)"),
      str_eq_iff t (codes "following(on)"),
    )

trigger_name-value :
    (v : ℕ) (s : Str) → trigger_value s ≡ ok v → trigger_name v ≡ some (to_lower (trim_space s))
unfolding trigger_name trigger_value
trigger_name-value v s h =
    let t = to_lower (trim_space s) in
    ground (
      arith,
      str_eq_iff t (codes "edge"),
      str_eq_iff t (codes "pulse"),
      str_eq_iff t (codes "following(off)"),
      str_eq_iff t (codes "following(on)"),
    )

-- A text is accepted as the mode `v` of the external trigger exactly if the text, trimmed and in lower
-- case, is the name that `v` is shown by.
trigger_names :
    (v : ℕ) (s : Str) → (trigger_value s ≡ ok v) ↔ (trigger_name v ≡ some (to_lower (trim_space s)))
trigger_names v s = (trigger_name-value v s, trigger_value-name v s)

-- A delay is accepted as `r` half seconds exactly if it lies between 0.5 and 3599.5 seconds and twice
-- the delay is at most 0.05 away from `r`.
delay_raw_iff :
    (s : Seconds) (r : ℕ)
    → (delay_raw s ≡ ok r)
      ↔ ((second ≤ 2 * s) × (2 * s ≤ 7199 * second) × (20 * distance (2 * s) (r * second) ≤ second))
unfolding delay_raw
delay_raw_iff s r = ground arith

-- Every delay that a relay can report in its range, 1 to 7199 half seconds, is accepted when it is
-- sent back, as the same number.
delay_raw-seconds_of_raw : (r : ℕ) → 1 ≤ r → r ≤ 7199 → delay_raw (seconds_of_raw r) ≡ ok r
unfolding delay_raw
delay_raw-seconds_of_raw r p q = ground arith

differ_self : (n : ℕ) → differ n n ≡ 0
differ_self zero = refl
differ_self (suc n) = differ_self n

digits_self : (n a : ℕ) → a ≤ n → digits (λ b. b) differ n a a ≡ 0
digits_self zero zero h = refl
digits_self zero (suc a) h = absurd (omega arith)
digits_self (suc n) zero h = refl
digits_self (suc n) (suc a) h =
    omega (arith, digits_self n (suc a / 2) (omega arith), differ_self (suc a % 2))

bit_xor_self : (a : ℕ) → bit_xor a a ≡ 0
bit_xor_self a = bit_xor-bitwise a a ∙ digits_self a a (omega arith)

xor_all-append :
    (sum b : ℕ) (bytes : List ℕ) → xor_all sum (bytes ++ b ∷ []) ≡ bit_xor (xor_all sum bytes) b
unfolding xor_all
xor_all-append sum b [] = refl
xor_all-append sum b (c ∷ bytes) = xor_all-append (bit_xor sum c) b bytes

-- What an inching payload holds: the flags, the number of half seconds, the checksum.
pub record IsInching (enable on : Bool) (raw : ℕ) (bytes : List ℕ) : Type 0 where
  pub size : length bytes ≡ 11
  pub enabled : get_or bytes 4 0 / 128 ≡ (if enable then 1 else 0)
  pub switched_on : get_or bytes 4 0 % 128 ≡ (if on then 1 else 0)
  pub delay : get_or bytes 6 0 + 256 * get_or bytes 7 0 ≡ raw
  pub checksum : xor_all 0 bytes ≡ 0

inching_flags_lem :
    (enable on : Bool)
    → (inching_flags enable on / 128 ≡ (if enable then 1 else 0))
      × (inching_flags enable on % 128 ≡ (if on then 1 else 0))
inching_flags_lem true true = (refl, refl)
inching_flags_lem true false = (refl, refl)
inching_flags_lem false true = (refl, refl)
inching_flags_lem false false = (refl, refl)

checksum_zero : (bytes : List ℕ) → xor_all 0 (bytes ++ xor_all 0 bytes ∷ []) ≡ 0
checksum_zero bytes = xor_all-append 0 (xor_all 0 bytes) bytes ∙ bit_xor_self (xor_all 0 bytes)

inching_bytes-IsInching :
    (enable on : Bool) (raw : ℕ)
    → raw < 65536
    → IsInching enable on raw (inching_bytes (inching_flags enable on) raw)
unfolding inching_bytes
inching_bytes-IsInching enable on raw h = record {
  size = refl;
  enabled = (inching_flags_lem enable on).0;
  switched_on = (inching_flags_lem enable on).1;
  delay = omega arith;
  checksum = checksum_zero (inching_body (inching_flags enable on) raw);
}

abbrev pub says : Str → Str → Bool
says text word = str_eq (to_upper (trim_space text)) word

-- An inching payload that is made has eleven bytes; it carries the two flags and the accepted
-- delay, and the exclusive or of all its bytes is 0.
inching_payload-IsInching :
    (control mode : Str) (s : Seconds) (bytes : List ℕ)
    → inching_payload control mode s ≡ ok bytes
    → (raw : ℕ) × (delay_raw s ≡ ok raw)
      × IsInching (says control (codes "ENABLE")) (says mode (codes "ON")) raw bytes
unfolding inching_payload
inching_payload-IsInching control mode s bytes h = elim (Reply-cases (delay_raw s)) [
  | inr (e, refused) ↦ absurd (ground arith)
  | inl (raw, accepted) ↦
      let flags = inching_flags (says control (codes "ENABLE")) (says mode (codes "ON")) in
      let same : inching_bytes flags raw ≡ bytes = ground arith in
      (
        raw,
        accepted,
        rw (← same) (
            inching_bytes-IsInching (says control (codes "ENABLE")) (says mode (codes "ON")) raw
              (omega (arith, (delay_raw_iff s raw).0 accepted))),
      )
]

-- A text is accepted as the power-on value `v`, or as the trigger value `v`, exactly if the text,
-- trimmed and in lower case, is the name that `v` is shown by.
relay_names :
    (v : ℕ) (s : Str)
    → ((power_on_value s ≡ ok v) ↔ (power_on_name v ≡ some (to_lower (trim_space s))))
      × ((trigger_value s ≡ ok v) ↔ (trigger_name v ≡ some (to_lower (trim_space s))))
relay_names v s = (power_on_names v s, trigger_names v s)
