-- ===== src/Worker/Controller/Execution/Attempts.antt =====
-- worker/controller.py, the loop of `execute`: how many attempts it makes.
use git_hub_engineering_work.Common.{
  ℕ, zero, suc, ◌+◌, ◌≤◌, ◌<◌, ◌≡◌, ◌≢◌, subst, sym, ap, ◌∙◌, Bool, true, false, ◌⊎◌, inl, inr,
  Option, none, some, Bool-cases, arith,
}
use git_hub_engineering_work.Common.Int.{pos, ltb_ℤ}
use git_hub_engineering_work.Common.Outcome.{returned}
use git_hub_engineering_work.Worker.GitWorkflow.{nonempty}
use git_hub_engineering_work.Worker.GitWorkflow.Safety.{Ensures, Ensures-any, Ensures-and_then}
use git_hub_engineering_work.Worker.Controller.{Traced}
use git_hub_engineering_work.Worker.Controller.Execution.{
  EngineeringResult, Steps, Settings, attempt_loop, launch, rounds_of,
}

pub returned-Ensures {ℓ κ ι} :
    {S : Type ℓ} {A : Type κ} (P : A → Type ι) (a : A) (s : S) → P a → Ensures P (s, returned a)
unfolding Ensures
returned-Ensures P a s h = h

-- whether the last result has changed files
abbrev pub has_changes : Option EngineeringResult → Bool
has_changes none = false
has_changes (some r) = nonempty r.files_modified

-- At most one attempt more than the retries, at least one, and fewer than all only where the last
-- one has changed files.
abbrev pub IsSpent : ℕ → ℕ × Option EngineeringResult → Type 0
IsSpent n (k, last) =
    (1 ≤ k) × (k ≤ suc n) × (last ≢ none) × ((has_changes last ≡ true) ⊎ (k ≡ suc n))

not_below : (a b : ℕ) → b ≤ a → ltb_ℤ (pos a) (pos b) ≡ false
not_below a b h = ground arith

below : (a b : ℕ) → ltb_ℤ (pos a) (pos b) ≡ true → a < b
below a b h = ground arith

not-below : (a b : ℕ) → ltb_ℤ (pos a) (pos b) ≡ false → b ≤ a
not-below a b h = ground arith

module _ {ℓ} {S : Type ℓ} (steps : Steps S) (settings : Settings) (n : ℕ) where
  attempt_loop-from :
      settings.max_retries ≡ pos n
      → (rounds count : ℕ) (last : Option EngineeringResult) (t : Traced S) → count ≤ n
      → n < rounds + count
      → Ensures (IsSpent n) (attempt_loop steps settings rounds count last t)
  unfolding attempt_loop
  attempt_loop-from e zero count last t low enough = absurd (omega arith)
  attempt_loop-from e (suc rounds) count last t low enough =
      rw (ap (λ m. ltb_ℤ m (pos count)) e ∙ not_below n count low) (
        Ensures-and_then (λ _. Unit {0}) (IsSpent n) (launch steps settings t) _ (Ensures-any _)
          λ result u t. elim (Bool-cases (nonempty result.files_modified)) [
            | inl met ↦ rw met (
                returned-Ensures (IsSpent n) (suc count, some result) t
                  (omega arith, omega arith, (λ h. ground arith), inl met))
            | inr unmet ↦
                rw unmet (elim (Bool-cases (ltb_ℤ settings.max_retries (pos (suc count)))) [
                  | inl out ↦ rw out (
                      returned-Ensures (IsSpent n) (suc count, some result) t
                        (
                          omega arith,
                          omega arith,
                          (λ h. ground arith),
                          inr (
                              omega (
                                arith,
                                below n (suc count)
                                    (sym (ap (λ m. ltb_ℤ m (pos (suc count))) e) ∙ out),
                              )),
                        ))
                  | inr more ↦ rw more (
                      Ensures-and_then (λ _. Unit {0}) (IsSpent n) _ _ (Ensures-any _)
                        λ v w t.
                          attempt_loop-from e rounds (suc count) (some result) t
                            (not-below n (suc count)
                              (sym (ap (λ m. ltb_ℤ m (pos (suc count))) e) ∙ more))
                            (omega arith))
                ])
          ])

  -- With a limit of `n` retries, the loop that returns has made at least one attempt and at most
  -- `n + 1`, holds the last result, and has made fewer than `n + 1` only where the last result has
  -- changed files. The rounds that bound the loop are enough.
  pub attempt_loop_lem :
      settings.max_retries ≡ pos n
      → (t : Traced S)
      → Ensures (IsSpent n) (attempt_loop steps settings (rounds_of settings.max_retries) 0 none t)
  attempt_loop_lem e t =
      subst (λ m. Ensures (IsSpent n) (attempt_loop steps settings (rounds_of m) 0 none t)) (sym e)
        (attempt_loop-from e (suc n) 0 none t (omega arith) (omega arith))
