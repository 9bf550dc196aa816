-- ===== src/Incoming/Parse/Laws.antt =====
-- When the parsers of AF messages succeed, and what they read.
use zigbeemq.Prelude.{
  ltb, Bool-cases, length, get_or, take, length-append, length-take, take-append, ℕ, ◌+◌, ◌*◌, ◌/◌,
  ◌%◌, ◌≤◌, ◌<◌, ◌≡◌, refl, ◌≡⟨◌⟩◌, ◌∎, inl, inr, Bool, true, false, List, [], ◌∷◌, ◌++◌, arith,
}
use zigbeemq.Zigbee.{bit, Message}
use zigbeemq.Incoming.Parse.{
  Parsed, message, short, payload, panic, is_set, build, finish, af_fields, parse_af_incoming,
  af_ext_fields, parse_af_incoming_ext,
}

-- The length byte of the short form.
abbrev pub af_length : List ℕ → ℕ
af_length bytes = get_or bytes 16 0

-- The two length bytes of the extended form.
abbrev pub af_ext_length : List ℕ → ℕ
af_ext_length bytes = get_or bytes 25 0 + 256 * get_or bytes 26 0

-- How a parser ends, on a header of `header` bytes and the announced length `n`.
abbrev pub EndsBy : ℕ → ℕ → ℕ → Parsed → Type 0
EndsBy header total n (message m) = (header + n ≤ total) × (length m.body ≡ n)
EndsBy header total n short = total < header
EndsBy header total n payload = (header ≤ total) × (total < header + n)
EndsBy header total n panic = ⊥

finish-EndsBy :
    (make : List ℕ → Message) (header total n : ℕ) (rest : List ℕ)
    → ((bytes : List ℕ) → (make bytes).body ≡ bytes)
    → total ≡ header + length rest
    → EndsBy header total n (finish make n rest)
finish-EndsBy make header total n rest keep sum = elim (Bool-cases (ltb (length rest) n)) [
  | inl less ↦ rw less (omega arith, ground arith)
  | inr enough ↦
      let fits : n ≤ length rest = ground arith in
      rw enough (omega arith, rw (keep (take n rest)) (omega (arith, length-take n rest)))
]

not_short : (n k : ℕ) → k ≤ n → ltb n k ≡ false
not_short n k h = ground arith

parse_af_incoming_long :
    (bytes : List ℕ) → 17 ≤ length bytes → parse_af_incoming bytes ≡ af_fields bytes
unfolding parse_af_incoming
parse_af_incoming_long bytes h = rw (not_short (length bytes) 17 h)

parse_af_incoming_ext_long :
    (bytes : List ℕ) → 27 ≤ length bytes → parse_af_incoming_ext bytes ≡ af_ext_fields bytes
unfolding parse_af_incoming_ext
parse_af_incoming_ext_long bytes h = rw (not_short (length bytes) 27 h)

-- The short form: whatever the bytes, the parser does not read out of range. It says "short" only
-- below 17 bytes, and "payload" only from 17 bytes on where the length byte announces more than
-- follows; else it gives a message whose payload has the announced length and lies in the input.
parse_af_incoming_ends :
    (bytes : List ℕ) → EndsBy 17 (length bytes) (af_length bytes) (parse_af_incoming bytes)
unfolding parse_af_incoming
parse_af_incoming_ends (a ∷ b ∷ c ∷ d ∷ e ∷ f ∷ g ∷ h ∷ i ∷ j ∷ k ∷ l ∷ m ∷ n ∷ o ∷ p ∷ q ∷ rest) =
    let bytes : List ℕ = a ∷ b ∷ c ∷ d ∷ e ∷ f ∷ g ∷ h ∷ i ∷ j ∷ k ∷ l ∷ m ∷ n ∷ o ∷ p ∷ q ∷ rest in
    rw (parse_af_incoming_long bytes (omega arith)) (
      finish-EndsBy
        (build (a + 256 * b) (c + 256 * d) (e + 256 * f) g h i j k
          (l + 256 * m + 65536 * n + 16777216 * o) p)
        17 (length bytes) q rest (λ _. refl) (omega arith))
parse_af_incoming_ends _ = omega arith

-- The extended form: whatever the bytes, the parser does not read out of range. It says "short"
-- only below 27 bytes, and "payload" only from 27 bytes on where the two length bytes announce
-- more than follows; else it gives a message whose payload has the announced length and lies in
-- the input.
parse_af_incoming_ext_ends :
    (bytes : List ℕ) → EndsBy 27 (length bytes) (af_ext_length bytes) (parse_af_incoming_ext bytes)
unfolding parse_af_incoming_ext
parse_af_incoming_ext_ends
      (a ∷ b ∷ c ∷ d ∷ e ∷ f ∷ g ∷ h ∷ i ∷ j ∷ k ∷ l ∷ m ∷ n ∷ o ∷ p ∷ q ∷ r ∷ s ∷ t ∷ u ∷ v ∷ w ∷ x
        ∷ y ∷ z ∷ a' ∷ rest) =
    let bytes : List ℕ =
      a ∷ b ∷ c ∷ d ∷ e ∷ f ∷ g ∷ h ∷ i ∷ j ∷ k ∷ l ∷ m ∷ n ∷ o ∷ p ∷ q ∷ r ∷ s ∷ t ∷ u ∷ v ∷ w ∷ x
      ∷ y ∷ z ∷ a' ∷ rest in
    rw (parse_af_incoming_ext_long bytes (omega arith)) (
      finish-EndsBy
        (build (a + 256 * b) (c + 256 * d) (f + 256 * g) n q r s t
          (u + 256 * v + 65536 * w + 16777216 * x) y)
        27 (length bytes) (z + 256 * a') rest (λ _. refl) (omega arith))
parse_af_incoming_ext_ends _ = omega arith

-- A message in the short form, as the stick sends it.
abbrev le16 : ℕ → List ℕ → List ℕ
le16 n rest = (n % 256) ∷ (n / 256) ∷ rest

abbrev le32 : ℕ → List ℕ → List ℕ
le32 n rest = (n % 256) ∷ (n / 256 % 256) ∷ (n / 65536 % 256) ∷ (n / 16777216) ∷ rest

abbrev pub encode_af : Message → List ℕ
encode_af m = le16 m.group_id (
    le16 m.cluster_id (
      le16 m.src_addr (
        m.src_endpoint
        ∷ m.dst_endpoint
        ∷ bit m.was_broadcast
        ∷ m.link_quality
        ∷ bit m.security_use
        ∷ le32 m.timestamp (m.trans_seq_num ∷ length m.body ∷ m.body))))

-- In the extended form: the address mode, six further bytes of address and the PAN are of no account.
abbrev pub encode_af_ext : ℕ → ℕ → List ℕ → Message → List ℕ
encode_af_ext mode pan high m = le16 m.group_id (
    le16 m.cluster_id (
      mode
      ∷ le16 m.src_addr (
          high
          ++ m.src_endpoint
            ∷ le16 pan (
                m.dst_endpoint
                ∷ bit m.was_broadcast
                ∷ m.link_quality
                ∷ bit m.security_use
                ∷ le32 m.timestamp (m.trans_seq_num ∷ le16 (length m.body) m.body)))))

finish_whole :
    (make : List ℕ → Message) (n : ℕ) (body extra : List ℕ)
    → n ≡ length body
    → finish make n (body ++ extra) ≡ message (make body)
finish_whole make n body extra e = rw (
  e,
  not_short (length (body ++ extra)) (length body) (omega (arith, length-append {0} body extra)),
  take-append body extra,
)

rejoin : (n : ℕ) → n % 256 + 256 * (n / 256) ≡ n
rejoin n = omega arith

rejoin_four :
    (n : ℕ)
    → n % 256 + 256 * (n / 256 % 256) + 65536 * (n / 65536 % 256) + 16777216 * (n / 16777216) ≡ n
rejoin_four n = omega arith

is_set-bit : (b : Bool) → is_set (bit b) ≡ b
is_set-bit true = refl
is_set-bit false = refl

-- The message with its numbers put together again from their bytes.
abbrev rebuilt : Message → List ℕ → Message
rebuilt m =
    build (m.group_id % 256 + 256 * (m.group_id / 256))
      (m.cluster_id % 256 + 256 * (m.cluster_id / 256))
      (m.src_addr % 256 + 256 * (m.src_addr / 256)) m.src_endpoint m.dst_endpoint
      (bit m.was_broadcast) m.link_quality (bit m.security_use)
      (m.timestamp % 256
        + 256 * (m.timestamp / 256 % 256)
        + 65536 * (m.timestamp / 65536 % 256)
        + 16777216 * (m.timestamp / 16777216))
      m.trans_seq_num

rebuilt-body : (m : Message) → message (rebuilt m m.body) ≡ message m
rebuilt-body m = simp (rejoin, rejoin_four, is_set-bit)

-- What was encoded in the short form is read back whole, and bytes that follow are left out.
parse-encode_af :
    (m : Message) (extra : List ℕ) → parse_af_incoming (encode_af m ++ extra) ≡ message m
unfolding parse_af_incoming
parse-encode_af m extra =
    parse_af_incoming (encode_af m ++ extra)
    ≡⟨ parse_af_incoming_long (encode_af m ++ extra) (omega arith) ⟩
      af_fields (encode_af m ++ extra)
    ≡⟨ finish_whole (rebuilt m) (length m.body) m.body extra refl ⟩ message (rebuilt m m.body)
    ≡⟨ rebuilt-body m ⟩ message m ∎

-- What was encoded in the extended form, with any address mode, PAN and six further bytes of
-- address, is read back whole, and bytes that follow are left out.
parse-encode_af_ext :
    (mode pan a b c d e f : ℕ) (m : Message) (extra : List ℕ)
    → parse_af_incoming_ext (encode_af_ext mode pan (a ∷ b ∷ c ∷ d ∷ e ∷ f ∷ []) m ++ extra)
      ≡ message m
unfolding parse_af_incoming_ext
parse-encode_af_ext mode pan a b c d e f m extra =
    let bytes = encode_af_ext mode pan (a ∷ b ∷ c ∷ d ∷ e ∷ f ∷ []) m ++ extra in
    parse_af_incoming_ext bytes
    ≡⟨ parse_af_incoming_ext_long bytes (omega arith) ⟩ af_ext_fields bytes
    ≡⟨ finish_whole (rebuilt m) (length m.body % 256 + 256 * (length m.body / 256)) m.body extra
        (rejoin (length m.body)) ⟩
      message (rebuilt m m.body)
    ≡⟨ rebuilt-body m ⟩ message m ∎

-- Whatever the bytes, neither parser reads out of range. The short form says "short" only below 17
-- bytes, the extended form only below 27, and "payload" only from there on where the announced
-- length, of one byte or of two, is more than what follows; else a parser gives a message whose
-- payload has the announced length and lies in the input.
pub parsers_end :
    (bytes : List ℕ)
    → EndsBy 17 (length bytes) (af_length bytes) (parse_af_incoming bytes)
      × EndsBy 27 (length bytes) (af_ext_length bytes) (parse_af_incoming_ext bytes)
parsers_end bytes = (parse_af_incoming_ends bytes, parse_af_incoming_ext_ends bytes)

-- A message that was encoded in the short form, or in the extended form with any address mode, PAN
-- and six further bytes of address, is read back whole, and bytes that follow are left out.
pub parse-encode :
    (mode pan a b c d e f : ℕ) (m : Message) (extra : List ℕ)
    → (parse_af_incoming (encode_af m ++ extra) ≡ message m)
      × (parse_af_incoming_ext (encode_af_ext mode pan (a ∷ b ∷ c ∷ d ∷ e ∷ f ∷ []) m ++ extra)
          ≡ message m)
parse-encode mode pan a b c d e f m extra =
    (parse-encode_af m extra, parse-encode_af_ext mode pan a b c d e f m extra)
