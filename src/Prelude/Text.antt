-- ===== src/Prelude/Text.antt =====
-- Texts as lists of ASCII codes, with the functions of Go's package `strings` that the program
-- calls. Case mapping and white space outside ASCII are not modelled.
use Prim.Native.Nat.{ℕ, zero, suc, ◌+◌, ◌-◌, ◌/◌, ◌%◌}
use Prim.Native.Char.{code}
use Prim.Native.String.{String}
use mathlib.Core.Path.{◌≡◌, refl}
use mathlib.Core.Logic.{◌↔◌}
use mathlib.Core.Bool.{Bool, true, false, ◌&&◌, ◌||◌}
use mathlib.Core.List.{List, [], ◌∷◌, ◌++◌, reverse}
use native.Mathlib.Omega.{arith}
use zigbeemq.Prelude.Tests.{ltb, leb, ◌==◌, if◌then◌else◌}

abbrev pub Str : Type 0
Str = List ℕ

-- The text of a literal.
abbrev pub codes : String → Str
codes String.[] = []
codes (String.◌∷◌ c s) = code c ∷ codes s

unfoldable pub str_eq : Str → Str → Bool
str_eq [] [] = true
str_eq [] (_ ∷ _) = false
str_eq (_ ∷ _) [] = false
str_eq (x ∷ xs) (y ∷ ys) = x == y && str_eq xs ys

pub str_eq_refl : (s : Str) → str_eq s s ≡ true
unfolding str_eq
str_eq_refl [] = refl
str_eq_refl (x ∷ xs) = ground (arith, str_eq_refl xs)

str_eq_sound : (s t : Str) → str_eq s t ≡ true → s ≡ t
unfolding str_eq
str_eq_sound [] [] h = refl
str_eq_sound [] (_ ∷ _) h = cc
str_eq_sound (_ ∷ _) [] h = cc
str_eq_sound (x ∷ xs) (y ∷ ys) h = ground (arith, str_eq_sound xs ys)

pub str_eq_iff : (s t : Str) → (str_eq s t ≡ true) ↔ (s ≡ t)
str_eq_iff s t = (str_eq_sound s t, λ e. rw e (str_eq_refl t))

abbrev pub lower : ℕ → ℕ
lower c = if leb b'A' c && leb c b'Z' then c + 32 else c

abbrev upper : ℕ → ℕ
upper c = if leb b'a' c && leb c b'z' then c - 32 else c

-- `strings.ToLower` and `strings.ToUpper`.
unfoldable pub to_lower : Str → Str
to_lower [] = []
to_lower (c ∷ s) = lower c ∷ to_lower s

unfoldable pub to_upper : Str → Str
to_upper [] = []
to_upper (c ∷ s) = upper c ∷ to_upper s

-- `strings.HasPrefix s p`.
unfoldable pub has_prefix : Str → Str → Bool
has_prefix s [] = true
has_prefix [] (_ ∷ _) = false
has_prefix (c ∷ s) (d ∷ p) = c == d && has_prefix s p

abbrev pub after : Str → Str → Str
after s [] = s
after [] (_ ∷ _) = []
after (c ∷ s) (_ ∷ p) = after s p

-- `strings.TrimPrefix s p`.
unfoldable pub trim_prefix : Str → Str → Str
unfolding has_prefix
trim_prefix s p = if has_prefix s p then after s p else s

-- `strings.HasSuffix` and `strings.TrimSuffix`.
unfoldable pub has_suffix : Str → Str → Bool
unfolding has_prefix
has_suffix s p = has_prefix (reverse s) (reverse p)

unfoldable pub trim_suffix : Str → Str → Str
unfolding trim_prefix
trim_suffix s p = reverse (trim_prefix (reverse s) (reverse p))

-- `strings.Contains s p`.
unfoldable pub contains : Str → Str → Bool
unfolding has_prefix
contains [] p = has_prefix [] p
contains (c ∷ s) p = has_prefix (c ∷ s) p || contains s p

-- `strings.ReplaceAll s d ""` at a text `d` of one character.
unfoldable pub remove_all : ℕ → Str → Str
remove_all d [] = []
remove_all d (c ∷ s) = let rest = remove_all d s in if c == d then rest else c ∷ rest

abbrev is_space : ℕ → Bool
is_space c = c == 32 || (leb 9 c && leb c 13)

trim_left : Str → Str
trim_left [] = []
trim_left (c ∷ s) = let rest = trim_left s in if is_space c then rest else c ∷ s

-- `strings.TrimSpace`.
unfoldable pub trim_space : Str → Str
unfolding trim_left
trim_space s = reverse (trim_left (reverse (trim_left s)))

abbrev hex_digit : ℕ → ℕ
hex_digit n = if ltb n 10 then 48 + n else 55 + n

-- `%02X` of a number below 256 and `%04X` of one below 65536.
unfoldable pub hex2 : ℕ → Str
hex2 n = hex_digit (n / 16 % 16) ∷ hex_digit (n % 16) ∷ []

unfoldable pub hex4 : ℕ → Str
hex4 n =
    hex_digit (n / 4096 % 16)
    ∷ hex_digit (n / 256 % 16)
    ∷ hex_digit (n / 16 % 16)
    ∷ hex_digit (n % 16)
    ∷ []

-- The decimal digits of `n`, before the text `later`; a number has at most as many digits as the
-- fuel `n + 1`.
decimal_digits : ℕ → ℕ → Str → Str
decimal_digits zero n later = later
decimal_digits (suc fuel) n later =
    let rest = decimal_digits fuel (n / 10) ((48 + n % 10) ∷ later) in
    if ltb n 10 then (48 + n) ∷ later else rest

-- `%d`.
unfoldable pub decimal : ℕ → Str
unfolding decimal_digits
decimal n = decimal_digits (suc n) n []

-- `strings.Join l ","`.
unfoldable pub join_commas : List Str → Str
join_commas [] = []
join_commas (s ∷ []) = s
join_commas (s ∷ t ∷ l) = s ++ (codes "," ++ join_commas (t ∷ l))
