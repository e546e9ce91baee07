-- ===== src/Common/Json/Sorted.antt =====
-- `sort_keys=True` of `json.dumps`: the entries of every object in the order of their keys.
use git_hub_engineering_work.Common.Tests.{if◌then◌else◌, nat_eq, ltb, Bool-cases}
use Prim.Native.Nat.{ℕ}
use Prim.Native.String.{String}
use mathlib.Core.Path.{◌≡◌, refl, ap, sym, ◌∙◌}
use mathlib.Core.Logic.{inl, inr}
use mathlib.Core.Bool.{Bool, true, false, ◌&&◌, ◌||◌}
use mathlib.Core.Option
use mathlib.Core.Option.{Option, none, some}
use mathlib.Core.List.{List, [], ◌∷◌}
use native.Mathlib.Omega.{arith}
use text.Mathlib.Text.{◌==◌}
use text.Mathlib.TextEquality.{eq_iff}
use git_hub_engineering_work.Common.Text.{codes}
use git_hub_engineering_work.Common.Json.Codec.{texts, optional}
use git_hub_engineering_work.Common.Json.{
  Value, str, arr, obj, Items, nil, cons, Fields, end, field, get,
}

-- `a <= b` of texts, by their code points
abbrev codes_le : List ℕ → List ℕ → Bool
codes_le [] t = true
codes_le (a ∷ s) [] = false
codes_le (a ∷ s) (b ∷ t) = ltb a b || (nat_eq a b && codes_le s t)

abbrev pub text_le : String → String → Bool
text_le s t = codes_le (codes s) (codes t)

codes_le_refl : (s : List ℕ) → codes_le s s ≡ true
codes_le_refl [] = refl
codes_le_refl (a ∷ s) = ground (arith, codes_le_refl s)

unfoldable pub insert_field : String → Value → Fields → Fields
insert_field k v end = field k v end
insert_field k v (field j w rest) =
    if text_le k j then field k v (field j w rest) else field j w (insert_field k v rest)

unfoldable mutual
  unfolding insert_field

  pub sorted : Value → Value
  sorted (obj fs) = obj (sorted_fields fs)
  sorted (arr xs) = arr (sorted_items xs)
  sorted v = v

  pub sorted_fields : Fields → Fields
  sorted_fields end = end
  sorted_fields (field k v rest) = insert_field k (sorted v) (sorted_fields rest)

  pub sorted_items : Items → Items
  sorted_items nil = nil
  sorted_items (cons v rest) = cons (sorted v) (sorted_items rest)

pub text_le_refl : (s : String) → text_le s s ≡ true
text_le_refl s = codes_le_refl (codes s)

get-insert_field :
    (k : String) (v : Value) (fs : Fields) (j : String)
    → get (insert_field k v fs) j ≡ (if k == j then some v else get fs j)
unfolding insert_field get
get-insert_field k v end j = refl
get-insert_field k v (field i w rest) j = ground (
  arith,
  eq_iff k j,
  eq_iff i j,
  eq_iff k i,
  get-insert_field k v rest j,
  λ (e : k ≡ i). ap (λ x. text_le k x) (sym e) ∙ codes_le_refl (codes k),
)

-- Sorting does not change what a key holds, but for the sorting inside of it.
pub get-sorted_fields :
    (fs : Fields) (j : String) → get (sorted_fields fs) j ≡ Option.map sorted (get fs j)
unfolding get sorted_fields
get-sorted_fields end j = refl
get-sorted_fields (field k v rest) j =
    get-insert_field k (sorted v) (sorted_fields rest) j ∙ elim (Bool-cases (k == j)) [
      | inl same ↦ rw same refl
      | inr other ↦ rw other (get-sorted_fields rest j)
    ]

pub sorted_items-texts : (l : List String) → sorted_items (texts l) ≡ texts l
unfolding sorted_items
sorted_items-texts [] = refl
sorted_items-texts (s ∷ l) = ap (cons (str s)) (sorted_items-texts l)

pub sorted-optional : (o : Option String) → sorted (optional o) ≡ optional o
unfolding sorted
sorted-optional none = refl
sorted-optional (some s) = refl
