-- ===== src/Incoming/Parse.antt =====
-- The two parsers of AF messages (internal/hub/incoming.go).
pub mod Laws
use zigbeemq.Prelude.{
  ltb, ◌==◌, if◌then◌else◌, length, take, ℕ, zero, suc, ◌+◌, ◌*◌, Bool, not, Option, none, some,
  List, [], ◌∷◌,
}
use zigbeemq.Zigbee.{Message}

-- What a parser returns: a message, one of its two errors, or a panic of the Go run time, for an
-- index out of range.
pub data Parsed : Type 0 where
  message : Message → Parsed
  short payload panic : Parsed

-- Reading from the bytes that are left; `none` is an index out of range.
abbrev Reader : Type 0 → Type 0
Reader A = List ℕ → Option (A × List ℕ)

infixl 5 ◌>>=◌ ◌>>◌
abbrev ◌>>=◌ : {A : Type 0} → Reader A → (A → List ℕ → Parsed) → List ℕ → Parsed
◌>>=◌ m k bytes = elim (m bytes) [ none ↦ panic | some (a, rest) ↦ k a rest ]

abbrev ◌>>◌ : Reader (Unit {0}) → (List ℕ → Parsed) → List ℕ → Parsed
m >> k = m >>= λ _. k

-- `u8`, `u16` and the reading of a uint32, little end first.
u8 : Reader ℕ
u8 (a ∷ rest) = some (a, rest)
u8 [] = none

u16 : Reader ℕ
u16 (a ∷ b ∷ rest) = some (a + 256 * b, rest)
u16 _ = none

u32 : Reader ℕ
u32 (a ∷ b ∷ c ∷ d ∷ rest) = some (a + 256 * b + 65536 * c + 16777216 * d, rest)
u32 _ = none

-- `off += n`.
skip : ℕ → Reader (Unit {0})
skip zero rest = some (tt, rest)
skip (suc n) (a ∷ rest) = skip n rest
skip (suc n) [] = none

abbrev is_set : ℕ → Bool
is_set n = not (n == 0)

-- The message that both parsers build.
abbrev build : ℕ → ℕ → ℕ → ℕ → ℕ → ℕ → ℕ → ℕ → ℕ → ℕ → List ℕ → Message
build group cluster src src_ep dst_ep bcast lqi sec ts trans bytes = record {
  group_id = group;
  cluster_id = cluster;
  src_addr = src;
  src_endpoint = src_ep;
  dst_endpoint = dst_ep;
  was_broadcast = is_set bcast;
  link_quality = lqi;
  security_use = is_set sec;
  timestamp = ts;
  trans_seq_num = trans;
  body = bytes;
}

-- The check of the announced length, and the copy of the payload.
abbrev finish : (List ℕ → Message) → ℕ → List ℕ → Parsed
finish make n rest = if ltb (length rest) n then payload else message (make (take n rest))

af_fields : List ℕ → Parsed
unfolding u8 u16 u32
af_fields = do
  group ← u16
  cluster ← u16
  src ← u16
  src_ep ← u8
  dst_ep ← u8
  bcast ← u8
  lqi ← u8
  sec ← u8
  ts ← u32
  trans ← u8
  n ← u8
  finish
      (λ bytes. record {
        group_id = group;
        cluster_id = cluster;
        src_addr = src;
        src_endpoint = src_ep;
        dst_endpoint = dst_ep;
        was_broadcast = is_set bcast;
        link_quality = lqi;
        security_use = is_set sec;
        timestamp = ts;
        trans_seq_num = trans;
        body = bytes;
      })
      n

-- `parseAFIncoming`.
pub parse_af_incoming : List ℕ → Parsed
unfolding af_fields
parse_af_incoming bytes = if ltb (length bytes) 17 then short else af_fields bytes

-- The source address is read in place, and eight bytes are passed over.
ext_source : Reader ℕ
unfolding u16
ext_source bytes = elim (u16 bytes) [
  | none ↦ none
  | some (src, _) ↦ elim (skip 8 bytes) [ none ↦ none | some (_, rest) ↦ some (src, rest) ]
]

af_ext_fields : List ℕ → Parsed
unfolding u8 u16 u32 skip ext_source
af_ext_fields = do
  group ← u16
  cluster ← u16
  mode ← u8
  src ← ext_source
  src_ep ← u8
  pan ← u16
  dst_ep ← u8
  bcast ← u8
  lqi ← u8
  sec ← u8
  ts ← u32
  trans ← u8
  n ← u16
  finish
      (λ bytes. record {
        group_id = group;
        cluster_id = cluster;
        src_addr = src;
        src_endpoint = src_ep;
        dst_endpoint = dst_ep;
        was_broadcast = is_set bcast;
        link_quality = lqi;
        security_use = is_set sec;
        timestamp = ts;
        trans_seq_num = trans;
        body = bytes;
      })
      n

-- `parseAFIncomingExt`.
pub parse_af_incoming_ext : List ℕ → Parsed
unfolding af_ext_fields
parse_af_incoming_ext bytes = if ltb (length bytes) 27 then short else af_ext_fields bytes
