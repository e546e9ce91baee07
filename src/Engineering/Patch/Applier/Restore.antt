-- ===== src/Engineering/Patch/Applier/Restore.antt =====
-- engineering/patch/applier.py: what is left on the disk where a patch is not applied.
use git_hub_engineering_work.Common.{
  String, ◌==◌, ◌≡◌, true, Option, some, List, [], ◌∷◌, any, All, if◌then◌else◌,
}
use git_hub_engineering_work.Engineering.Patch.Applier.{
  Disk, Checkout, modified_files, fallbacks, select,
}
use git_hub_engineering_work.Engineering.Patch.Applier.Rollback.{IsBackup, IsLawful}
use git_hub_engineering_work.Engineering.Patch.Applier.Copies.{ArePlain}

-- The command is a check.
abbrev IsCheck : List String → Type 0
IsCheck args = (rest : List String) × (args ≡ "apply" ∷ "--check" ∷ rest)

-- a lawful git, a diff that names no backup, be it to git or to the applier, and a file that it names
module _ (checkout : Checkout) (lawful : IsLawful checkout) (diff : String)
    (plain : ArePlain checkout (modified_files diff))
    (no_backup : All (λ p. ¬ IsBackup p) (lawful.named_paths diff)) (f text : String)
    (listed : any (λ g. g == f) (modified_files diff) ≡ true) where
  open checkout use {locate, git}

  chosen : Disk → Disk × Option (List String)
  chosen d =
      let (e, check) = git ("apply" ∷ "--check" ∷ []) diff d in
      if check.failed then select checkout diff fallbacks e else (e, some ("apply" ∷ []))
