-- ===== src/Engineering/Patch/Validator/Names.antt =====
-- engineering/patch/validator.py: the names and the lines that a diff is read for.
use git_hub_engineering_work.Common.{
  ℕ, suc, ◌+◌, ◌≤◌, String, ◌==◌, eq_iff, ◌≡◌, refl, sym, ap, subst, ◌∙◌, ◌↔◌, Bool, true, false,
  not, ◌&&◌, List, [], ◌∷◌, All, any, map, length, ltb, Bool-cases, inl, inr, arith, keep,
  if◌then◌else◌,
}
use git_hub_engineering_work.Common.Text.{truthy}
use git_hub_engineering_work.Common.Text.Lines.{split_at, splitlines, begins, drop}
use git_hub_engineering_work.Engineering.Patch.Validator.{
  count, named_lines, from_keys, repeated, files_of, changed_lines,
}

-- how many lines start with a sign, but not with the sign of a file's header
abbrev pub signed : String → String → String → ℕ
signed sign header diff =
    length (keep (λ line. begins line sign && not (begins line header)) (splitlines diff))

-- the names behind `+++ b/`, line by line
abbrev pub names_in : String → List String
names_in diff =
    map (drop 6) (keep (λ line. begins line "+++ b/" && truthy (drop 6 line)) (split_at 10 diff))

-- the number of different names
abbrev pub distinct : List String → ℕ
distinct [] = 0
distinct (f ∷ l) = let rest = distinct l in if any (λ g. g == f) l then rest else suc rest

count-keep_self : (s : String) (l : List String) → count s (keep (λ t. not (t == s)) l) ≡ 0
count-keep_self s [] = refl
count-keep_self s (t ∷ l) = ground (arith, count-keep_self s l)

pub changed_lines-signed :
    (sign header : String) (lines : List String)
    → changed_lines sign header lines
      ≡ length (keep (λ line. begins line sign && not (begins line header)) lines)
changed_lines-signed sign header [] = refl
changed_lines-signed sign header (line ∷ lines) =
    ground (arith, changed_lines-signed sign header lines)

pub named_lines-map :
    (lines : List String)
    → named_lines lines
      ≡ map (drop 6) (keep (λ line. begins line "+++ b/" && truthy (drop 6 line)) lines)
named_lines-map [] = refl
named_lines-map (line ∷ lines) = ground (arith, named_lines-map lines)

keep-in :
    (p : String → Bool) (f : String) (l : List String) → p f ≡ true → keep p (f ∷ l) ≡ f ∷ keep p l
keep-in p f l h = ground arith

keep-out :
    (p : String → Bool) (f : String) (l : List String) → p f ≡ false → keep p (f ∷ l) ≡ keep p l
keep-out p f l h = ground arith

All-keep : (P : String → Type 0) (p : String → Bool) (l : List String) → All P l → All P (keep p l)
All-keep P p [] h = tt
All-keep P p (f ∷ l) (own, others) = elim (Bool-cases (p f)) [
  | inl kept ↦ subst (All P) (sym (keep-in p f l kept)) (own, All-keep P p l others)
  | inr out ↦ subst (All P) (sym (keep-out p f l out)) (All-keep P p l others)
]

All-kept :
    (P : String → Type 0) (s : String) (l : List String)
    → P s
    → All P (keep (λ t. not (t == s)) l)
    → All P l
All-kept P s [] own h = tt
All-kept P s (t ∷ l) own h = elim (Bool-cases (t == s)) [
  | inl same ↦ (
    subst P (sym ((eq_iff t s).0 same)) own,
    All-kept P s l own (subst (All P) (keep-out (λ t. not (t == s)) t l (ap not same)) h),
  )
  | inr other ↦
      let h' = subst (All P) (keep-in (λ t. not (t == s)) t l (ap not other)) h in
      (h'.0, All-kept P s l own h'.1)
]

pub All-from_keys : (P : String → Type 0) (l : List String) → All P (from_keys l) ↔ All P l
unfolding from_keys
All-from_keys P [] = (λ h. tt, λ h. tt)
All-from_keys P (s ∷ l) =
    let rest = All-from_keys P l in
    (
      λ (own, others). (own, rest.0 (All-kept P s (from_keys l) own others)),
      λ (own, others). (own, All-keep P _ (from_keys l) (rest.1 others)),
    )

length-keep :
    (s : String) (l : List String) → length (keep (λ t. not (t == s)) l) + count s l ≡ length l
length-keep s [] = refl
length-keep s (t ∷ l) = ground (arith, length-keep s l)

count-keep_other :
    (s f : String) (l : List String)
    → (s == f) ≡ false
    → count f (keep (λ t. not (t == s)) l) ≡ count f l
count-keep_other s f [] h = refl
count-keep_other s f (t ∷ l) h =
    ground (arith, count-keep_other s f l h, eq_iff t s, eq_iff t f, eq_iff s f)

count-distinct :
    (f : String) (l : List String) → count f (from_keys l) ≡ (if any (λ g. g == f) l then 1 else 0)
unfolding from_keys
count-distinct f [] = refl
count-distinct f (s ∷ l) = elim (Bool-cases (s == f)) [
  | inl same ↦ rw same (
      ap suc (
        ap (λ x. count x (keep (λ t. not (t == s)) (from_keys l))) (sym ((eq_iff s f).0 same))
        ∙ count-keep_self s (from_keys l)))
  | inr other ↦ rw other (count-keep_other s f (from_keys l) other ∙ count-distinct f l)
]

pub length-from_keys : (l : List String) → length (from_keys l) ≡ distinct l
unfolding from_keys
length-from_keys [] = refl
length-from_keys (s ∷ l) =
    ground (arith, length-keep s (from_keys l), count-distinct s l, length-from_keys l)

count-keep-le : (f s : String) (l : List String) → count f (keep (λ t. not (t == s)) l) ≤ count f l
count-keep-le f s [] = omega arith
count-keep-le f s (t ∷ l) = ground (arith, count-keep-le f s l)

count-from_keys : (f : String) (l : List String) → count f (from_keys l) ≤ 1
unfolding from_keys
count-from_keys f [] = omega arith
count-from_keys f (s ∷ l) = elim (Bool-cases (s == f)) [
  | inl same ↦ ground (
    arith,
    ap (λ x. count x (keep (λ t. not (t == s)) (from_keys l))) ((eq_iff s f).0 same),
    count-keep_self s (from_keys l),
  )
  | inr differs ↦ ground (arith, count-keep-le f s (from_keys l), count-from_keys f l)
]

keep-none : (p : String → Bool) (l : List String) → ((f : String) → p f ≡ false) → keep p l ≡ []
keep-none p [] h = refl
keep-none p (f ∷ l) h = ground (arith, h f, keep-none p l h)

-- No diff has a repeated file: the names are unique before the validator looks for repeated ones.
pub repeated-files_of : (diff : String) → repeated (files_of diff) ≡ []
unfolding repeated files_of
repeated-files_of diff =
    let named = named_lines (split_at 10 diff) in
    keep-none (λ f. ltb 1 (count f (from_keys named))) (from_keys named)
      (λ f. ground (arith, count-from_keys f named))
