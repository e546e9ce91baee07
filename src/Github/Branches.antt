-- ===== src/Github/Branches.antt =====
-- github/branches/service.py: the names of issue branches.
use git_hub_engineering_work.Common.{
  ℕ, String, ◌<>◌, ◌==◌, Bool, true, false, ◌&&◌, ◌||◌, nat_eq, leb, if◌then◌else◌, zero, suc,
}
use git_hub_engineering_work.Common.Text.{truthy}
use Prim.Native.Char.{code}

-- the class `[a-z0-9._-]`
abbrev pub is_safe : ℕ → Bool
is_safe c =
    (leb 97 c && leb c 122) || (leb 48 c && leb c 57) || nat_eq c 46 || nat_eq c 95 || nat_eq c 45

-- `re.sub(r"[^a-z0-9._-]+", "-", s)`; `inside` tells that a run is being replaced
unfoldable pub replace_runs : Bool → String → String
replace_runs inside String.[] = ""
replace_runs inside (String.◌∷◌ c s) =
    let safe = replace_runs false s in
    let unsafe = replace_runs true s in
    if is_safe (code c) then String.◌∷◌ c safe else if inside then unsafe else "-" <> unsafe

strip_dash_left : String → String
strip_dash_left String.[] = ""
strip_dash_left (String.◌∷◌ c s) =
    let rest = strip_dash_left s in if nat_eq (code c) 45 then rest else String.◌∷◌ c s

strip_dash_right : String → String
strip_dash_right String.[] = ""
strip_dash_right (String.◌∷◌ c s) =
    let rest = strip_dash_right s in
    if rest == "" && nat_eq (code c) 45 then "" else String.◌∷◌ c rest

-- `s[:n]`
unfoldable pub take : ℕ → String → String
take zero s = ""
take (suc n) String.[] = ""
take (suc n) (String.◌∷◌ c s) = String.◌∷◌ c (take n s)

-- The slug of a title that is already in lower case.
unfoldable pub slug : String → String
unfolding replace_runs strip_dash_left strip_dash_right take
slug lowered =
    let cut = take 48 (strip_dash_right (strip_dash_left (replace_runs false lowered))) in
    if truthy cut then cut else "work"
