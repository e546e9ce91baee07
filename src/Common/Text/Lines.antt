-- ===== src/Common/Text/Lines.antt =====
-- What the code uses of `str` line by line: `splitlines`, `split`, prefixes, suffixes and parts.
use git_hub_engineering_work.Common.Tests.{if◌then◌else◌, nat_eq, leb, Bool-cases}
use Prim.Native.Nat.{ℕ, zero, suc, ◌≤◌}
use Prim.Native.Char.{Char, code}
use Prim.Native.String.{String, ◌++◌ as ◌<>◌}
use mathlib.Core.Path.{◌≡◌, refl, ap, ◌∙◌}
use mathlib.Core.Logic.{inl, inr}
use mathlib.Core.Bool.{Bool, true, false, not, ◌&&◌, ◌||◌}
use mathlib.Core.Option.{Option, none, some}
use mathlib.Core.List.{List, [], ◌∷◌}
use native.Mathlib.Omega.{arith}
use text.Mathlib.Text.{◌==◌, find?}
use text.Mathlib.TextEquality.{eq_iff}
use text.Mathlib.TextPositions.{eq_refl}
use text.Mathlib.TextLemmas.{nil-append, cons-append}
use git_hub_engineering_work.Common.Text.{codes}
use git_hub_engineering_work.Common.Lists.{length}

-- where `splitlines` ends a line, by code point
abbrev pub is_break : ℕ → Bool
is_break c =
    (leb 10 c && leb c 13)
    || (leb 28 c && leb c 30)
    || nat_eq c 133
    || nat_eq c 8232
    || nat_eq c 8233

-- one more character in front of the first line
abbrev pub widen : Char → List String → List String
widen c [] = String.◌∷◌ c "" ∷ []
widen c (line ∷ lines) = String.◌∷◌ c line ∷ lines

-- whether the text goes on with a line feed, so that a carriage return before it ends no line
abbrev pub before_feed : String → Bool
before_feed String.[] = false
before_feed (String.◌∷◌ c s) = nat_eq (code c) 10

-- `s.splitlines()`
unfoldable pub splitlines : String → List String
splitlines String.[] = []
splitlines (String.◌∷◌ c s) =
    let rest = splitlines s in
    if not (is_break (code c))
    then widen c rest
    else if nat_eq (code c) 13 && before_feed s
    then rest
    else "" ∷ rest

-- `s.split(sep)` for a separator of one character
unfoldable pub split_at : ℕ → String → List String
split_at sep String.[] = "" ∷ []
split_at sep (String.◌∷◌ c s) =
    let rest = split_at sep s in if nat_eq (code c) sep then "" ∷ rest else widen c rest

-- `s.split(sep, 1)`, and `s.partition(sep)` without the separator: the text behind it where there is one
unfoldable pub cut : ℕ → String → String × Option String
cut sep String.[] = ("", none)
cut sep (String.◌∷◌ c s) =
    let rest = cut sep s in
    if nat_eq (code c) sep then ("", some s) else (String.◌∷◌ c rest.0, rest.1)

-- `s[n:]`
abbrev pub drop : ℕ → String → String
drop zero s = s
drop (suc n) String.[] = ""
drop (suc n) (String.◌∷◌ c s) = drop n s

-- `s[:n]`
abbrev pub take : ℕ → String → String
take zero s = ""
take (suc n) String.[] = ""
take (suc n) (String.◌∷◌ c s) = String.◌∷◌ c (take n s)

-- the code point of the last character
abbrev pub last_code : String → Option ℕ
last_code String.[] = none
last_code (String.◌∷◌ c s) = elim (last_code s) [ none ↦ some (code c) | some d ↦ some d ]

-- `s[:-1]`
abbrev pub init : String → String
init String.[] = ""
init (String.◌∷◌ c s) = let rest = init s in if s == "" then "" else String.◌∷◌ c rest

-- `s.startswith(t)`
unfoldable pub begins : String → String → Bool
begins s String.[] = true
begins String.[] (String.◌∷◌ d t) = false
begins (String.◌∷◌ c s) (String.◌∷◌ d t) = nat_eq (code c) (code d) && begins s t

-- `s.split(t, 1)[1]`, where `t` has `n` characters and occurs in the text
unfoldable pub behind : String → ℕ → String → String
unfolding begins
behind t n String.[] = ""
behind t n (String.◌∷◌ c s) =
    let rest = behind t n s in if begins (String.◌∷◌ c s) t then drop n (String.◌∷◌ c s) else rest

-- `"".join(c for c in s if p(c))`
abbrev pub keep_chars : (Char → Bool) → String → String
keep_chars p String.[] = ""
keep_chars p (String.◌∷◌ c s) = let rest = keep_chars p s in if p c then String.◌∷◌ c rest else rest

-- `t in s`
abbrev pub has : String → String → Bool
has s t = elim (find? s t) [ none ↦ false | some at ↦ true ]

-- `s.removesuffix(t)`, for a text `t` that is not empty
unfoldable pub removesuffix : String → String → String
removesuffix String.[] t = ""
removesuffix (String.◌∷◌ c s) t =
    let rest = removesuffix s t in if String.◌∷◌ c s == t then "" else String.◌∷◌ c rest

-- `sep.join(parts)`
unfoldable pub join : String → List String → String
join sep [] = ""
join sep (s ∷ []) = s
join sep (s ∷ t ∷ rest) = s <> (sep <> join sep (t ∷ rest))

length_codes : String → ℕ
length_codes s = length (codes s)

length_codes-append : (s t : String) → length_codes t ≤ length_codes (s <> t)
unfolding length_codes
length_codes-append String.[] t = omega (arith, ap length_codes (nil-append t))
length_codes-append (String.◌∷◌ c s) t =
    omega (arith, length_codes-append s t, ap length_codes (cons-append c s t))

too_long : (c : Char) (s t : String) → ¬ (length_codes (String.◌∷◌ c (s <> t)) ≡ length_codes t)
unfolding length_codes
too_long c s t e = omega (arith, length_codes-append s t, e)

longer : (c : Char) (s t : String) → (String.◌∷◌ c (s <> t) == t) ≡ false
longer c s t = elim (Bool-cases (String.◌∷◌ c (s <> t) == t)) [
  | inr other ↦ other
  | inl same ↦ absurd (too_long c s t (ap length_codes ((eq_iff _ t).0 same)))
]

-- What was appended is what `removesuffix` takes away.
pub removesuffix-append :
    (s : String) (c : Char) (t : String) → removesuffix (s <> String.◌∷◌ c t) (String.◌∷◌ c t) ≡ s
unfolding removesuffix
removesuffix-append String.[] c t =
    ap (λ u. removesuffix u (String.◌∷◌ c t)) (nil-append (String.◌∷◌ c t)) ∙ rw eq_refl refl
removesuffix-append (String.◌∷◌ d s) c t =
    ap (λ u. removesuffix u (String.◌∷◌ c t)) (cons-append d s (String.◌∷◌ c t))
    ∙ rw (longer d s (String.◌∷◌ c t)) (ap (String.◌∷◌ d) (removesuffix-append s c t))
