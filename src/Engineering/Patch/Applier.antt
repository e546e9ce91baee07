-- ===== src/Engineering/Patch/Applier.antt =====
-- engineering/patch/applier.py: `git apply` behind checks, with copies of the files that the diff names.
-- A file is a text under the text of its path. Copying a file that is there and running git succeed.
pub mod Rollback
pub mod Copies
pub mod Restore
mod Tests
use git_hub_engineering_work.Common.{
  String, ◌<>◌, ◌==◌, Bool, true, false, Option, none, some, List, [], ◌∷◌, map, if◌then◌else◌,
}
use git_hub_engineering_work.Common.Text.{strip}
use git_hub_engineering_work.Common.Text.Lines.{splitlines, begins, drop, removesuffix}
use git_hub_engineering_work.Github.Shell.{Completed}
use git_hub_engineering_work.Engineering.Models.{PatchApplicationResult}

abbrev pub Disk : Type 0
Disk = String → Option String

abbrev pub write : String → String → Disk → Disk
write p text d q = if q == p then some text else d q

abbrev pub unlink : String → Disk → Disk
unlink p d q = if q == p then none else d q

pub record Checkout : Type 0 where
  -- `str(repository_path / file_name)`
  pub locate : String → String
  -- git in the repository, with the diff in the file that is its last argument
  pub git : List String → String → Disk → Disk × Completed

abbrev pub plus_lines : List String → List String
plus_lines [] = []
plus_lines (line ∷ lines) =
    let rest = plus_lines lines in if begins line "+++ b/" then drop 6 line ∷ rest else rest

unfoldable pub modified_files : String → List String
unfolding splitlines begins
modified_files diff = plus_lines (splitlines diff)

-- the second and the third pair of `check_commands`
abbrev pub fallbacks : List (List String × List String)
fallbacks =
    ("apply" ∷ "--check" ∷ "--recount" ∷ [], "apply" ∷ "--recount" ∷ [])
    ∷ (
      "apply" ∷ "--check" ∷ "--recount" ∷ "--ignore-whitespace" ∷ [],
      "apply" ∷ "--recount" ∷ "--ignore-whitespace" ∷ [],
    )
    ∷ []

-- `source.with_suffix(source.suffix + ".gew.bak")`
abbrev pub backup_of : String → String
backup_of source = source <> ".gew.bak"

-- `rollback`
unfoldable pub rollback : List String → Disk → Disk
unfolding removesuffix
rollback [] d = d
rollback (b ∷ backups) d =
    rollback backups
      (elim (d b) [ none ↦ d | some text ↦ write (removesuffix b ".gew.bak") text d ])

unfoldable pub unlink_all : List String → Disk → Disk
unlink_all [] d = d
unlink_all (b ∷ backups) d = unlink_all backups (unlink b d)

module _ (checkout : Checkout) where
  open checkout use {locate, git}

  -- the loop over the fallbacks
  unfoldable pub select :
      String → List (List String × List String) → Disk → Disk × Option (List String)
  select diff [] d = (d, none)
  select diff ((check, candidate) ∷ rest) d =
      let (e, result) = git check diff d in
      elim result.failed [ true ↦ select diff rest e | false ↦ (e, some candidate) ]

  -- the loop that copies the files; the list is `backups`
  unfoldable pub back_up : List String → Disk → Disk × List String
  back_up [] d = (d, [])
  back_up (f ∷ files) d = elim (d (locate f)) [
    | none ↦ back_up files d
    | some text ↦
        let (e, backups) = back_up files (write (backup_of (locate f)) text d) in
        (e, backup_of (locate f) ∷ backups)
  ]

  -- from the copies on
  unfoldable pub install : List String → String → Bool → Disk → Disk × PatchApplicationResult
  unfolding strip
  install args diff atomic d =
      let files = modified_files diff in
      let (copied, backups) = back_up files d in
      let (e, result) = git args diff copied in
      elim result.failed [
        | true ↦ (
          if atomic then rollback backups e else e,
          record {
            applied = false;
            dry_run = false;
            modified_files = files;
            backups = backups;
            errors = strip result.stderr ∷ [];
          },
        )
        | false ↦ (
          unlink_all backups e,
          record {
            applied = true;
            dry_run = false;
            modified_files = files;
            backups = backups;
            errors = [];
          },
        )
      ]

  -- from the choice of the command on; `check` is the first check
  unfoldable pub proceed :
      Completed → String → Bool → Bool → Disk × Option (List String) → Disk × PatchApplicationResult
  unfolding strip
  proceed check diff dry_run atomic (d, none) = (
    d,
    record {
      applied = false;
      dry_run = dry_run;
      modified_files = modified_files diff;
      backups = [];
      errors = strip check.stderr ∷ [];
    },
  )
  proceed check diff dry_run atomic (d, some args) =
      if dry_run
      then (
        d,
        record {
          applied = true;
          dry_run = true;
          modified_files = modified_files diff;
          backups = [];
          errors = [];
        },
      )
      else install args diff atomic d

  unfoldable pub apply : String → Bool → Bool → Disk → Disk × PatchApplicationResult
  apply diff dry_run atomic d =
      let (e, check) = git ("apply" ∷ "--check" ∷ []) diff d in
      proceed check diff dry_run atomic
        (if check.failed then select diff fallbacks e else (e, some ("apply" ∷ [])))
