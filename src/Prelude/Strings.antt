-- ===== src/Prelude/Strings.antt =====
-- Texts that the program passes on: tests and the functions of package strings.
use Prim.Native.Nat.{ℕ, zero, suc, ◌-◌, ◌/◌, ◌%◌}
use Prim.Native.Char.{Char, code}
use Prim.Native.String
use Prim.Native.String.{String, len, slice}
use mathlib.Core.Bool.{Bool, true, false, ◌||◌, ◌&&◌}
use mathlib.Core.List.{List, [], ◌∷◌}
use text.Mathlib.Text.{starts_with}
use crew_im.Prelude.Tests.{if◌then◌else◌, leb, ltb, ◌==◌}

abbrev pub is_empty : String → Bool
is_empty String.[] = true
is_empty (String.◌∷◌ c s) = false

-- `strings.Join`
unfoldable pub join : String → List String → String
join sep [] = ""
join sep (s ∷ []) = s
join sep (s ∷ t ∷ ts) = String.◌++◌ s (String.◌++◌ sep (join sep (t ∷ ts)))

-- A text written behind another.
infixr 65 ◌<>◌
abbrev pub ◌<>◌ : String → String → String
s <> t = String.◌++◌ s t

digit : ℕ → String
digit n =
    if n == 0
    then "0"
    else if n == 1
    then "1"
    else if n == 2
    then "2"
    else if n == 3
    then "3"
    else if n == 4
    then "4"
    else if n == 5
    then "5"
    else if n == 6
    then "6"
    else if n == 7
    then "7"
    else if n == 8
    then "8"
    else "9"

decimal_loop : ℕ → ℕ → String
unfolding digit
decimal_loop zero n = digit (n % 10)
decimal_loop (suc f) n =
    let front = decimal_loop f (n / 10) in if ltb n 10 then digit n else front <> digit (n % 10)

-- `%d`
unfoldable pub decimal : ℕ → String
unfolding decimal_loop
decimal n = decimal_loop n n

-- `unicode.IsSpace`
abbrev pub is_space : ℕ → Bool
is_space c =
    (leb 9 c && leb c 13)
    || c == 32
    || c == 0x85
    || c == 0xA0
    || c == 0x1680
    || (leb 0x2000 c && leb c 0x200a)
    || c == 0x2028
    || c == 0x2029
    || c == 0x202f
    || c == 0x205f
    || c == 0x3000

trim_left : String → String
trim_left String.[] = String.[]
trim_left (String.◌∷◌ c s) =
    let rest = trim_left s in if is_space (code c) then rest else String.◌∷◌ c s

trim_right : String → String
trim_right String.[] = String.[]
trim_right (String.◌∷◌ c s) = keep_unless_blank c (trim_right s)
  where
    keep_unless_blank : Char → String → String
    keep_unless_blank c String.[] = if is_space (code c) then String.[] else String.◌∷◌ c String.[]
    keep_unless_blank c (String.◌∷◌ d t) = String.◌∷◌ c (String.◌∷◌ d t)

-- `strings.TrimSpace`
unfoldable pub trim_space : String → String
unfolding trim_left trim_right
trim_space s = trim_left (trim_right s)

-- `strings.TrimPrefix` and `strings.TrimSuffix`
unfoldable pub trim_prefix : String → String → String
trim_prefix s p = if starts_with s p then slice s (len p) (len s) else s

unfoldable pub ends_with : String → String → Bool
ends_with s p = leb (len p) (len s) && starts_with (slice s (len s - len p) (len s)) p

unfoldable pub trim_suffix : String → String → String
unfolding ends_with
trim_suffix s p = if ends_with s p then slice s 0 (len s - len p) else s

onto_first : String → List String → List String
onto_first c [] = c ∷ []
onto_first c (s ∷ ss) = (c <> s) ∷ ss

-- `strings.Split` at a character.
unfoldable pub split : ℕ → String → List String
unfolding onto_first
split k String.[] = "" ∷ []
split k (String.◌∷◌ c s) =
    let rest = split k s in
    if code c == k then "" ∷ rest else onto_first (String.◌∷◌ c String.[]) rest
