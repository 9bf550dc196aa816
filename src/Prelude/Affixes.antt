-- ===== src/Prelude/Affixes.antt =====
-- Prefixes and suffixes of texts.
use mathlib.Core.Path.{◌≡◌, refl, sym, ap, ◌≡⟨◌⟩◌, ◌∎}
use mathlib.Core.Bool.{true, false}
use mathlib.Core.List.{[], ◌∷◌, ◌++◌, reverse, reverse-append, reverse-reverse}
use native.Mathlib.Omega.{arith}
use zigbeemq.Prelude.Tests.{==_iff}
use zigbeemq.Prelude.Text.{Str, has_prefix, after, trim_prefix, has_suffix, trim_suffix}

pub has_prefix-append : (p t : Str) → has_prefix (p ++ t) p ≡ true
unfolding has_prefix
has_prefix-append [] [] = refl
has_prefix-append [] (c ∷ t) = refl
has_prefix-append (c ∷ p) t = ground (arith, has_prefix-append p t)

after-append : (p t : Str) → after (p ++ t) p ≡ t
after-append [] [] = refl
after-append [] (c ∷ t) = refl
after-append (c ∷ p) t = after-append p t

pub trim_prefix-append : (p t : Str) → trim_prefix (p ++ t) p ≡ t
unfolding trim_prefix
trim_prefix-append p t = rw (has_prefix-append p t) (after-append p t)

pub has_suffix-append : (s q : Str) → has_suffix (s ++ q) q ≡ true
unfolding has_suffix
has_suffix-append s q = rw (reverse-append s q) (has_prefix-append (reverse q) (reverse s))

pub trim_suffix-append : (s q : Str) → trim_suffix (s ++ q) q ≡ s
unfolding trim_suffix
trim_suffix-append s q =
    rw (reverse-append s q, trim_prefix-append (reverse q) (reverse s)) (reverse-reverse s)

append-after : (s p : Str) → has_prefix s p ≡ true → p ++ after s p ≡ s
unfolding has_prefix
append-after [] [] h = refl
append-after (c ∷ s) [] h = refl
append-after [] (d ∷ p) h = absurd (ground arith)
append-after (c ∷ s) (d ∷ p) h = ground (arith, append-after s p, ==_iff c d)

pub append-trim_prefix : (s p : Str) → has_prefix s p ≡ true → p ++ trim_prefix s p ≡ s
unfolding trim_prefix
append-trim_prefix s p h = rw h (append-after s p h)

pub append-trim_suffix : (s q : Str) → has_suffix s q ≡ true → trim_suffix s q ++ q ≡ s
unfolding trim_suffix has_suffix
append-trim_suffix s q h =
    let rest = trim_prefix (reverse s) (reverse q) in
    reverse rest ++ q
    ≡⟨ ap (λ t. reverse rest ++ t) (sym (reverse-reverse q)) ⟩ reverse rest ++ reverse (reverse q)
    ≡⟨ sym (reverse-append (reverse q) rest) ⟩ reverse (reverse q ++ rest)
    ≡⟨ ap reverse (append-trim_prefix (reverse s) (reverse q) h) ⟩ reverse (reverse s)
    ≡⟨ reverse-reverse s ⟩ s ∎

pub trim_suffix_none : (s q : Str) → has_suffix s q ≡ false → trim_suffix s q ≡ s
unfolding has_suffix trim_suffix trim_prefix
trim_suffix_none s q h = rw h (reverse-reverse s)
