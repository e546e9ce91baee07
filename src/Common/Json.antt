-- ===== src/Common/Json.antt =====
-- JSON documents as trees. `json.dumps` and `json.loads` go between a text and its tree; a file is
-- modelled by the tree in it, where the code wrote it.
pub mod Codec
pub mod Sorted
use git_hub_engineering_work.Common.Tests.{if◌then◌else◌}
use Prim.Native.Nat.{ℕ}
use Prim.Native.String.{String}
use mathlib.Core.Bool.{Bool}
use mathlib.Core.Option.{Option, none, some}
use text.Mathlib.Text.{◌==◌}

mutual
  -- the entries of an object, in their order
  pub data Fields : Type 0 where
    field : String → Value → Fields → Fields
    end : Fields

  pub data Value : Type 0 where
    obj : Fields → Value
    arr : Items → Value
    str : String → Value
    num : ℕ → Value
    -- any other number, as it is written
    other_number : String → Value
    boolean : Bool → Value
    null : Value

  -- the entries of an array
  pub data Items : Type 0 where
    cons : Value → Items → Items
    nil : Items

-- `d.get(key)`
unfoldable pub get : Fields → String → Option Value
get end key = none
get (field k v rest) key = if k == key then some v else get rest key

-- What reading a document may raise. `outside` stands for a value of a type that the annotations
-- of the code exclude.
pub data LoadError : Type 0 where
  key_error : String → LoadError
  outside : LoadError

pub data Loaded {ℓ} (A : Type ℓ) : Type ℓ where
  ok : A → Loaded A
  err : LoadError → Loaded A

infixl 5 ◌>>=◌
abbrev pub ◌>>=◌ {ℓ κ} : {A : Type ℓ} {B : Type κ} → Loaded A → (A → Loaded B) → Loaded B
ok a >>= f = f a
err e >>= f = err e

-- `d[key]`
unfoldable pub require : Fields → String → Loaded Value
unfolding get
require d key = elim (get d key) [ none ↦ err (key_error key) | some v ↦ ok v ]
