-- ===== src/Mq.antt =====
-- The MQTT bridge (internal/mq/bridge.go): its topics, and brightness in its messages.
pub mod Laws
pub mod Publish
pub mod Run
pub mod Set
use zigbeemq.Prelude.{
  ltb, if◌then◌else◌, Str, codes, str_eq, has_prefix, trim_prefix, has_suffix, trim_suffix,
  contains, ℕ, ◌+◌, ◌*◌, ◌/◌, ◌||◌, not, Option, none, some, [], ◌++◌,
}

abbrev pub slash : Str
slash = codes "/"

abbrev pub set_suffix : Str
set_suffix = codes "/set"

-- The prefix of the topics, in `setName`.
abbrev pub topic_prefix : Str → Str
topic_prefix base = trim_suffix base slash ++ slash

-- What `setName` makes of the text between the prefix and "/set".
abbrev plain_name : Str → Option Str
plain_name mid = if str_eq mid [] || contains mid slash then none else some mid

-- `setName`: the name of the device in a topic that ends in "/set".
pub set_name : Str → Str → Option Str
set_name base topic =
    let prefix = topic_prefix base in
    let rest = trim_prefix topic prefix in
    if not (has_prefix topic prefix) || not (has_suffix topic set_suffix)
    then none
    else if not (has_suffix rest set_suffix)
    then none
    else plain_name (trim_suffix rest set_suffix)

-- `int(math.Round(float64(percent) / 100 * 254))`, the level that `publishDevice` sends.
pub published_level : ℕ → ℕ
published_level percent = (2 * (percent * 254) + 100) / 200

-- `uint8(math.Round(clamp(level, 0, 254) / 254 * 100))` in `parseSet`, for a whole number that is not
-- negative.
pub received_percent : ℕ → ℕ
received_percent level =
    let clamped = if ltb 254 level then 254 else level in (2 * (clamped * 100) + 254) / 508
