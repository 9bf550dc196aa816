-- ===== src/Mq/Laws.antt =====
-- The bridge understands its own topics and its own messages.
use mathlib.Core.List.{append_assoc}
use zigbeemq.Prelude.{
  if◌then◌else◌, Bool-cases, Option-cases, has_prefix-append, trim_prefix-append, has_suffix-append,
  trim_suffix-append, append-trim_prefix, append-trim_suffix, trim_suffix_none, Str, str_eq,
  has_prefix, trim_prefix, has_suffix, trim_suffix, contains, ℕ, ◌≤◌, ◌≡◌, refl, sym, ap, ◌∙◌, ◌↔◌,
  inl, inr, true, false, none, some, [], ◌++◌, arith,
}
use zigbeemq.Mq.{slash, set_suffix, topic_prefix, set_name, published_level, received_percent}

set_name_parts :
    (base topic name : Str)
    → set_name base topic ≡ some name
    → (topic ≡ topic_prefix base ++ (name ++ set_suffix))
      × (str_eq name [] ≡ false)
      × (contains name slash ≡ false)
unfolding set_name
set_name_parts base topic name h =
    let rest = trim_prefix topic (topic_prefix base) in
    let starts : has_prefix topic (topic_prefix base) ≡ true = ground arith in
    let ends : has_suffix rest set_suffix ≡ true = ground arith in
    let mid : trim_suffix rest set_suffix ≡ name = ground arith in
    (
      sym (append-trim_prefix topic (topic_prefix base) starts)
          ∙ ap (λ t. topic_prefix base ++ t)
              (sym (append-trim_suffix rest set_suffix ends) ∙ ap (λ t. t ++ set_suffix) mid),
      ground arith,
      ground arith,
    )

pub set_name_of_parts :
    (base name : Str)
    → str_eq name [] ≡ false
    → contains name slash ≡ false
    → set_name base (topic_prefix base ++ (name ++ set_suffix)) ≡ some name
unfolding set_name
set_name_of_parts base name full plain =
    let prefix = topic_prefix base in
    let topic = prefix ++ (name ++ set_suffix) in
    let whole : has_suffix topic set_suffix ≡ true =
      rw (← append_assoc prefix name set_suffix) (has_suffix-append (prefix ++ name) set_suffix) in
    ground (
      arith,
      whole,
      has_prefix-append prefix (name ++ set_suffix),
      trim_prefix-append prefix (name ++ set_suffix),
      has_suffix-append name set_suffix,
      trim_suffix-append name set_suffix,
    )

-- A topic names the device `name` exactly if it is the base, without one slash at its end, a slash, the
-- name and "/set", and the name is not empty and has no slash.
set_name_iff :
    (base topic name : Str)
    → (set_name base topic ≡ some name) ↔ (
        (topic ≡ topic_prefix base ++ (name ++ set_suffix))
        × (str_eq name [] ≡ false)
        × (contains name slash ≡ false))
set_name_iff base topic name = (
  set_name_parts base topic name,
  λ parts. rw parts.0 (set_name_of_parts base name parts.1 parts.2),
)

-- A brightness that the bridge publishes for at most 100 per cent is a level of at most 254, and
-- setting this level asks for the same per cent.
received_percent-published_level :
    (p : ℕ) → p ≤ 100 → (published_level p ≤ 254) × (received_percent (published_level p) ≡ p)
unfolding received_percent published_level
received_percent-published_level p h = (omega arith, ground arith)

slashed : (name : Str) → contains (slash ++ name) slash ≡ true
unfolding contains has_prefix
slashed name = refl

-- The topics that `Run` subscribes to are the base, a slash, one level and "/set". Where the base
-- itself ends in a slash, `setName` takes none of them for a device; else it takes each whose level is
-- not empty and has no slash for the device of this name.
pub set_name_subscribed :
    (base name : Str)
    → str_eq name [] ≡ false
    → contains name slash ≡ false
    → set_name base (base ++ (slash ++ (name ++ set_suffix)))
      ≡ (if has_suffix base slash then none else some name)
set_name_subscribed base name full clean = elim (Bool-cases (has_suffix base slash)) [
  | inr bare ↦
      let same : topic_prefix base ++ (name ++ set_suffix)
          ≡ base ++ (slash ++ (name ++ set_suffix)) =
        ap (λ b. (b ++ slash) ++ (name ++ set_suffix)) (trim_suffix_none base slash bare)
        ∙ append_assoc base slash (name ++ set_suffix) in
      rw bare (ap (set_name base) (sym same) ∙ set_name_of_parts base name full clean)
  | inl ends ↦
      let topic = base ++ (slash ++ (name ++ set_suffix)) in
      let prefix = topic_prefix base in
      let whole : prefix ≡ base = append-trim_suffix base slash ends in
      rw ends (elim (Option-cases (set_name base topic)) [
        | inl unnamed ↦ unnamed
        | inr (n, named) ↦
            let (is, filled, plain) = set_name_parts base topic n named in
            let rest : slash ++ (name ++ set_suffix) ≡ n ++ set_suffix =
              sym (trim_prefix-append base (slash ++ (name ++ set_suffix)))
              ∙ (ap (λ t. trim_prefix t base) (is ∙ ap (λ b. b ++ (n ++ set_suffix)) whole)
                  ∙ trim_prefix-append base (n ++ set_suffix)) in
            let level : slash ++ name ≡ n =
              sym (trim_suffix-append (slash ++ name) set_suffix)
              ∙ (ap (λ t. trim_suffix t set_suffix) (append_assoc slash name set_suffix ∙ rest)
                  ∙ trim_suffix-append n set_suffix) in
            ground (arith, plain, slashed name, level)
      ])
]
