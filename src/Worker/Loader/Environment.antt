-- ===== src/Worker/Loader/Environment.antt =====
-- runtime/configuration/environment.py: the parser of a .env file that is used without python-dotenv.
use git_hub_engineering_work.Common.{
  ℕ, String, ◌==◌, eq_iff, ◌≡◌, refl, sym, ap, ◌∙◌, Bool, true, false, not, ◌&&◌, ◌||◌, Option,
  none, some, List, [], ◌∷◌, nat_eq, Option-cases, inl, inr, arith, if◌then◌else◌,
}
use Prim.Native.Char.{code}
use git_hub_engineering_work.Common.Text.{truthy, strip}
use git_hub_engineering_work.Common.Text.Lines.{splitlines, begins, cut, init, last_code}
use git_hub_engineering_work.Worker.Loader.{Environment}

abbrev quoted_by : ℕ → Option ℕ → Bool
quoted_by c none = false
quoted_by c (some d) = nat_eq c d && (nat_eq c 34 || nat_eq c 39)

-- `_clean_value`: of a text of one character, nothing stands behind the first
unfoldable pub clean_value : String → String
clean_value String.[] = ""
clean_value (String.◌∷◌ c s) = if quoted_by (code c) (last_code s) then init s else String.◌∷◌ c s

-- the key and the value of a line that is cut at its first `=`
abbrev assigned : String × Option String → Option (String × String)
assigned (key, none) = none
assigned (key, some value) =
    if truthy (strip key) then some (strip key, clean_value (strip value)) else none

unfoldable pub assignment : String → Option (String × String)
unfolding clean_value cut begins strip
assignment raw_line =
    let line = strip raw_line in
    if not (truthy line) || begins line "#" then none else assigned (cut 61 line)

abbrev pub is_set : Option String → Bool
is_set none = false
is_set (some value) = true

-- `os.environ[key] = value`, unless the key is there and is not to be overridden
unfoldable pub set : Bool → Option (String × String) → Environment → Environment
set override none env = env
set override (some (key, value)) env =
    if not override && is_set (env key) then env else λ k. if key == k then some value else env k

-- `_load_env_fallback`, on the lines of the file
unfoldable pub load_lines : Bool → List String → Environment → Environment
load_lines override [] env = env
load_lines override (line ∷ lines) env =
    load_lines override lines (set override (assignment line) env)

unfoldable pub load_env_fallback : Bool → String → Environment → Environment
unfolding splitlines
load_env_fallback override text env = load_lines override (splitlines text) env

-- the value of the key in the first line that assigns it
abbrev pub value_in : String → Option (String × String) → Option String
value_in k none = none
value_in k (some (key, value)) = if key == k then some value else none

abbrev pub or_value : Option String → Option String → Option String
or_value none o = o
or_value (some v) o = some v

abbrev pub first_value : String → List String → Option String
first_value k [] = none
first_value k (line ∷ lines) = or_value (value_in k (assignment line)) (first_value k lines)

or_value-none : (o : Option String) → or_value o none ≡ o
or_value-none none = refl
or_value-none (some v) = refl

or_value_assoc : (a b c : Option String) → or_value (or_value a b) c ≡ or_value a (or_value b c)
or_value_assoc none b c = refl
or_value_assoc (some v) b c = refl

set-kept :
    (k : String) (o : Option (String × String)) (env : Environment)
    → set false o env k ≡ or_value (env k) (value_in k o)
unfolding set
set-kept k none env = sym (or_value-none (env k))
set-kept k (some (key, value)) env = elim (Option-cases (env key)) [
  | inl absent ↦
      ground (arith, eq_iff key k, λ (e : key ≡ k). ap env (sym e) ∙ absent, or_value-none (env k))
  | inr (v, held) ↦
      ground (arith, eq_iff key k, λ (e : key ≡ k). ap env (sym e) ∙ held, or_value-none (env k))
]

load_lines-first :
    (lines : List String) (env : Environment) (k : String)
    → load_lines false lines env k ≡ or_value (env k) (first_value k lines)
unfolding load_lines
load_lines-first [] env k = sym (or_value-none (env k))
load_lines-first (line ∷ lines) env k =
    load_lines-first lines (set false (assignment line) env) k
    ∙ ap (λ o. or_value o (first_value k lines)) (set-kept k (assignment line) env)
    ∙ or_value_assoc (env k) (value_in k (assignment line)) (first_value k lines)

-- Without `override`, a key that the process has keeps its value, and any other key gets the value of
-- the first line of the file that assigns it, if there is one.
pub load_env_fallback_lem :
    (text : String) (env : Environment) (k : String)
    → load_env_fallback false text env k ≡ or_value (env k) (first_value k (splitlines text))
unfolding load_env_fallback
load_env_fallback_lem text env k = load_lines-first (splitlines text) env k
