-- ===== src/Common/Json/Codec.antt =====
-- What the JSON of several records shares: texts, lists of texts, numbers and times.
use Prim.Native.Nat.{ℕ}
use Prim.Native.String.{String}
use mathlib.Core.Path.{◌≡◌, refl}
use mathlib.Core.Bool.{true}
use mathlib.Core.Option.{Option, none, some}
use mathlib.Core.List.{List, [], ◌∷◌}
use git_hub_engineering_work.Common.Text.{truthy}
use git_hub_engineering_work.Common.Json.{
  Value, null, num, str, arr, obj, Items, nil, cons, Fields, end, Loaded, ok, err, outside, ◌>>=◌,
}

-- `datetime.isoformat` and `datetime.fromisoformat` of the standard library.
pub record Iso : Type 0 where
  pub isoformat : ℕ → String
  pub fromisoformat : String → Option ℕ
  pub iso_back : (t : ℕ) → fromisoformat (isoformat t) ≡ some t
  pub iso_truthy : (t : ℕ) → truthy (isoformat t) ≡ true

abbrev pub optional : Option String → Value
optional none = null
optional (some s) = str s

abbrev pub texts : List String → Items
texts [] = nil
texts (s ∷ rest) = cons (str s) (texts rest)

-- the values that `str | None` admits
abbrev pub as_optional : Option Value → Loaded (Option String)
as_optional none = ok none
as_optional (some null) = ok none
as_optional (some (str s)) = ok (some s)
as_optional (some _) = err outside

abbrev pub as_text : Value → Loaded String
as_text (str s) = ok s
as_text _ = err outside

abbrev pub as_number : Value → Loaded ℕ
as_number (num n) = ok n
as_number _ = err outside

abbrev pub items_as_texts : Items → Loaded (List String)
items_as_texts nil = ok []
items_as_texts (cons (str s) rest) = items_as_texts rest >>= λ l. ok (s ∷ l)
items_as_texts (cons _ rest) = err outside

-- `tuple(data.get("labels", ()))`
abbrev pub as_texts : Option Value → Loaded (List String)
as_texts none = ok []
as_texts (some (arr xs)) = items_as_texts xs
as_texts (some _) = err outside

-- `data.get("metadata", {})`
abbrev pub as_mapping : Option Value → Loaded Fields
as_mapping none = ok end
as_mapping (some (obj fs)) = ok fs
as_mapping (some _) = err outside

-- `int(data.get("attempts", 0))`
abbrev pub number_or_zero : Option Value → Loaded ℕ
number_or_zero none = ok 0
number_or_zero (some v) = as_number v

pub optional-back : (o : Option String) → as_optional (some (optional o)) ≡ ok o
optional-back none = refl
optional-back (some s) = refl

pub texts-back : (l : List String) → items_as_texts (texts l) ≡ ok l
texts-back [] = refl
texts-back (s ∷ rest) = rw (texts-back rest)
