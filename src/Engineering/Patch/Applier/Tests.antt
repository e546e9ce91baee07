-- ===== src/Engineering/Patch/Applier/Tests.antt =====
-- engineering/patch/applier.py on a small repository.
use git_hub_engineering_work.Common.{
  String, ◌<>◌, ◌==◌, eq_iff, any, arith, ◌≡◌, refl, sym, Bool, Bool-cases, inl, inr, true, false,
  none, some, List, [], ◌∷◌, if◌then◌else◌,
}
use git_hub_engineering_work.Common.Text.Lines.{splitlines, begins}
use git_hub_engineering_work.Github.Shell.{Completed}
use git_hub_engineering_work.Engineering.Patch.Applier.{
  Disk, write, Checkout, modified_files, back_up, install, proceed, apply, rollback,
}
use git_hub_engineering_work.Engineering.Patch.Applier.Rollback.{IsLawful, write_other}

abbrev passed : Completed
passed = record { failed = false; stdout = ""; stderr = "" }

abbrev broken : Completed
broken = record { failed = true; stdout = ""; stderr = "error: patch failed\n" }

abbrev is_check : List String → Bool
is_check (a ∷ b ∷ rest) = b == "--check"
is_check _ = false

-- A git whose checks accept every diff, and which fails halfway, in the first file.
abbrev half : List String → String → Disk → Disk × Completed
half args diff d = if is_check args then (d, passed) else (write "/repo/a.py" "half" d, broken)

abbrev checkout : Checkout
checkout = record { locate = λ f. "/repo/" <> f; git = half }

abbrev diff : String
diff = "--- a/a.py\n+++ b/a.py\n@@ -1 +1 @@\n-x\n+y\n"

abbrev disk : Disk
disk p = if p == "/repo/a.py" then some "x\n" else none

named : modified_files diff ≡ "a.py" ∷ []
unfolding modified_files splitlines begins
named = refl

half_confined :
    (args : List String) (diff : String) (d : Disk) (p : String)
    → any (λ n. n == p) ("/repo/a.py" ∷ []) ≡ false
    → (half args diff d).0 p ≡ d p
half_confined args diff d p other = elim (Bool-cases (is_check args)) [
  | inl quiet ↦ rw (quiet, half) refl
  | inr loud ↦
      rw (loud, half)
        (write_other "/repo/a.py" p "half" d (λ e. ground (arith, eq_iff "/repo/a.py" p, sym e)))
]

lawful : IsLawful checkout
lawful = record {
  check_quiet = λ rest diff d. refl;
  named_paths = λ diff. "/repo/a.py" ∷ [];
  confined = half_confined;
}

-- The run fails, and leaves the copy of the file behind.
left_behind :
    let (d, r) = apply checkout diff false true disk in
    (r.errors ≡ "error: patch failed" ∷ []) × (d "/repo/a.py.gew.bak" ≡ some "x\n")
unfolding apply proceed install rollback back_up modified_files
left_behind = (refl, refl)
