-- ===== src/Confidence/Double.antt =====
-- The operations on doubles that the confidence engine uses. `F` stands for the finite doubles:
-- no value of the engine is infinite or a NaN. Numbers are exact up to 2 ^ 53, and each operation
-- rounds monotonically, as IEEE 754 says.
use git_hub_engineering_work.Common.{
  ℕ, ◌+◌, ◌-◌, ◌≤◌, ◌≡◌, ◌⊎◌, Bool, true, if◌then◌else◌, List, [], ◌∷◌, arith, leb, le→leb, nat_eq,
}
use Prim.Native.Nat.{◌*◌, ◌/◌, ◌^◌}

pub record Floats (F : Type 0) : Type 0 where
  pub of_ℕ : ℕ → F
  -- the double nearest to n / 10
  pub tenths : ℕ → F
  pub le : F → F → Bool
  pub add : F → F → F
  pub sub : F → F → F
  pub mul : F → F → F
  pub div : F → F → F
  -- `sum` of a sequence, which compensates for rounding
  pub sum : List F → F
  -- `round(x, 2)`
  pub round_cents : F → F
  pub is_zero : F → Bool

module _ {F : Type 0} ⦃f : Floats F⦄ where
  infix 4 ◌≼◌
  abbrev pub ◌≼◌ : F → F → Type 0
  x ≼ y = f.le x y ≡ true

  -- `max(a, b)` and `min(a, b)` of Python
  abbrev pub max_f : F → F → F
  max_f a b = if f.le b a then a else b

  abbrev pub min_f : F → F → F
  min_f a b = if f.le a b then a else b

pub record Laws (F : Type 0) ⦃f : Floats F⦄ : Type 0 where
  pub le_refl : (x : F) → x ≼ x
  pub le_trans : (x y z : F) → x ≼ y → y ≼ z → x ≼ z
  pub le_total : (x y : F) → (x ≼ y) ⊎ (y ≼ x)
  pub of_mono : (m n : ℕ) → m ≤ n → f.of_ℕ m ≼ f.of_ℕ n
  pub add_exact : (m n : ℕ) → m + n ≤ 2 ^ 53 → f.add (f.of_ℕ m) (f.of_ℕ n) ≡ f.of_ℕ (m + n)
  pub add_mono : (x y z : F) → y ≼ z → f.add x y ≼ f.add x z
  pub sub_mono : (x y z : F) → y ≼ z → f.sub x z ≼ f.sub x y
  pub sub_le : (x y : F) → f.of_ℕ 0 ≼ y → f.sub x y ≼ x
  pub mul_mono : (m n k : ℕ) → m ≤ n → f.mul (f.of_ℕ m) (f.of_ℕ k) ≼ f.mul (f.of_ℕ n) (f.of_ℕ k)
  pub mul_nonneg : (m k : ℕ) → f.of_ℕ 0 ≼ f.mul (f.of_ℕ m) (f.of_ℕ k)
  pub round_mono : (x y : F) → x ≼ y → f.round_cents x ≼ f.round_cents y
  pub round_of : (n : ℕ) → n ≤ 2 ^ 53 → f.round_cents (f.of_ℕ n) ≡ f.of_ℕ n

-- The laws can be met: hundredths as natural numbers, with subtraction that stops at 0.
abbrev total_of : List ℕ → ℕ
total_of [] = 0
total_of (x ∷ xs) = x + total_of xs

instance abbrev pub hundredths : Floats ℕ
hundredths = record {
  of_ℕ = λ n. n * 100;
  tenths = λ n. n * 10;
  le = leb;
  add = λ a b. a + b;
  sub = λ a b. a - b;
  mul = λ a b. a * b / 100;
  div = λ a b. a * 100 / b;
  sum = total_of;
  round_cents = λ a. a;
  is_zero = λ a. nat_eq a 0;
}

scaled_mono : (m n k : ℕ) → m ≤ n → m * 100 * (k * 100) / 100 ≤ n * 100 * (k * 100) / 100
scaled_mono m n k h = let p : m * 100 * (k * 100) ≤ n * 100 * (k * 100) = grind arith in omega arith

pub hundredths-Laws : Laws ℕ
hundredths-Laws = record {
  le_refl = λ x. ground arith;
  le_trans = λ x y z p q. ground arith;
  le_total = λ x y. grind arith;
  of_mono = λ m n h. ground arith;
  add_exact = λ m n h. omega arith;
  add_mono = λ x y z h. ground arith;
  sub_mono = λ x y z h. ground arith;
  sub_le = λ x y h. ground arith;
  mul_mono = λ m n k h. le→leb _ _ (scaled_mono m n k h);
  mul_nonneg = λ m k. ground arith;
  round_mono = λ x y h. h;
  round_of = λ n h. omega arith;
}
