-- ===== src/Common/Text.antt =====
-- What the code uses of Python's `str`: the decimal text of a number, and truth values.
pub mod Lines
use git_hub_engineering_work.Common.Tests.{if◌then◌else◌, nat_eq, ltb, leb}
use Prim.Native.Nat.{ℕ, zero, suc, ◌+◌, ◌/◌, ◌%◌}
use Prim.Native.Char.{code}
use Prim.Native.String.{String, ◌++◌ as ◌<>◌}
use mathlib.Core.Bool.{Bool, true, false, not, ◌&&◌, ◌||◌}
use mathlib.Core.List.{List, [], ◌∷◌, map}
use mathlib.Core.Option.{Option, none, some}
use text.Mathlib.Text.{◌==◌}

digit : ℕ → String
digit d =
    if nat_eq d 0
    then "0"
    else if nat_eq d 1
    then "1"
    else if nat_eq d 2
    then "2"
    else if nat_eq d 3
    then "3"
    else if nat_eq d 4
    then "4"
    else if nat_eq d 5
    then "5"
    else if nat_eq d 6
    then "6"
    else if nat_eq d 7
    then "7"
    else if nat_eq d 8
    then "8"
    else "9"

-- One digit less at each round, so more rounds than the number itself are never needed.
digits_of : ℕ → ℕ → String
digits_of zero n = ""
digits_of (suc rounds) n =
    let rest = digits_of rounds (n / 10) in if ltb n 10 then digit n else rest <> digit (n % 10)

-- `str(n)` of a natural number
unfoldable pub decimal : ℕ → String
unfolding digits_of digit
decimal n = digits_of (n + 1) n

-- `bool(s)` of a text
abbrev pub truthy : String → Bool
truthy s = not (s == "")

-- `bool(o)` of `str | None`
abbrev pub truthy? : Option String → Bool
truthy? none = false
truthy? (some s) = truthy s

-- `o or d`
abbrev pub or_else : Option String → String → String
or_else none d = d
or_else (some s) d = if truthy s then s else d

-- the code points of a text
abbrev pub codes : String → List ℕ
codes String.[] = []
codes (String.◌∷◌ c s) = code c ∷ codes s

abbrev pub same_codes : List ℕ → List ℕ → Bool
same_codes [] [] = true
same_codes (a ∷ s) (b ∷ t) = nat_eq a b && same_codes s t
same_codes _ _ = false

abbrev pub lower_code : ℕ → ℕ
lower_code c = if leb 65 c && leb c 90 then c + 32 else c

-- `s.lower() == t`, for a text `t` of the letters o, p, e and n: no character outside ASCII has one
-- of these as its lower case.
abbrev pub lower_is : String → String → Bool
lower_is s t = same_codes (map lower_code (codes s)) (codes t)

-- `c.isspace()` of Python, by code point
abbrev is_space : ℕ → Bool
is_space c =
    (leb 9 c && leb c 13)
    || (leb 28 c && leb c 32)
    || nat_eq c 133
    || nat_eq c 160
    || nat_eq c 5760
    || (leb 8192 c && leb c 8202)
    || nat_eq c 8232
    || nat_eq c 8233
    || nat_eq c 8239
    || nat_eq c 8287
    || nat_eq c 12288

strip_left : String → String
strip_left String.[] = ""
strip_left (String.◌∷◌ c s) =
    let rest = strip_left s in if is_space (code c) then rest else String.◌∷◌ c s

-- `s.rstrip()`
unfoldable pub strip_right : String → String
strip_right String.[] = ""
strip_right (String.◌∷◌ c s) =
    let rest = strip_right s in if rest == "" && is_space (code c) then "" else String.◌∷◌ c rest

-- `s.strip()`
unfoldable pub strip : String → String
unfolding strip_left strip_right
strip s = strip_right (strip_left s)

-- `s.split()`: the words between runs of white space. `word` is the word that is being read.
words_from : String → String → List String
words_from word String.[] = if word == "" then [] else word ∷ []
words_from word (String.◌∷◌ c s) =
    let here = is_space (code c) in
    let rest = words_from (if here then "" else word <> String.◌∷◌ c "") s in
    if here && not (word == "") then word ∷ rest else rest

unfoldable pub split_words : String → List String
unfolding words_from
split_words s = words_from "" s
