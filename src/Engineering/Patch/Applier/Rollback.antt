-- ===== src/Engineering/Patch/Applier/Rollback.antt =====
-- engineering/patch/applier.py: how the copies of the files come back.
use git_hub_engineering_work.Common.{
  String, ◌==◌, eq_iff, eq_refl, ◌≡◌, ◌≢◌, refl, sym, ap, subst, ◌∙◌, inl, inr, true, false, none,
  some, List, [], ◌∷◌, any, All, Option-cases, Bool-cases, arith,
}
use git_hub_engineering_work.Common.Text.Lines.{removesuffix, removesuffix-append}
use git_hub_engineering_work.Engineering.Patch.Applier.{Disk, write, Checkout, backup_of, rollback}

-- The path is that of some backup.
abbrev pub IsBackup : String → Type 0
IsBackup p = (q : String) × (p ≡ backup_of q)

-- What git's documentation says of the two uses: a check changes nothing, and applying a diff leaves
-- the paths alone that the diff does not name. Which it names, old names and new ones, git tells.
pub record IsLawful (checkout : Checkout) : Type 0 where
  pub check_quiet :
      (rest : List String) (diff : String) (d : Disk)
      → (checkout.git ("apply" ∷ "--check" ∷ rest) diff d).0 ≡ d
  pub named_paths : String → List String
  pub confined :
      (args : List String) (diff : String) (d : Disk) (p : String)
      → any (λ n. n == p) (named_paths diff) ≡ false
      → (checkout.git args diff d).0 p ≡ d p

-- A path that no backup is among is not a backup's.
pub any-IsBackup :
    (l : List String) (q : String)
    → All (λ n. ¬ IsBackup n) l
    → any (λ n. n == backup_of q) l ≡ false
any-IsBackup [] q plain = refl
any-IsBackup (n ∷ l) q (first, rest) = elim (Bool-cases (n == backup_of q)) [
  | inl same ↦ absurd (first (q, (eq_iff n (backup_of q)).0 same))
  | inr differs ↦ rw differs (any-IsBackup l q rest)
]

removesuffix-backup_of : (q : String) → removesuffix (backup_of q) ".gew.bak" ≡ q
removesuffix-backup_of q = removesuffix-append q "." "gew.bak"

-- A path that is not its own stem with the ending is no backup.
pub not-IsBackup :
    (p : String) → (p == backup_of (removesuffix p ".gew.bak")) ≡ false → ¬ IsBackup p
not-IsBackup p differs (q, e) =
    ground (arith, stem, eq_iff p (backup_of (removesuffix p ".gew.bak")))
  where
    stem : p ≡ backup_of (removesuffix p ".gew.bak")
    stem = e ∙ sym (ap backup_of (ap (λ y. removesuffix y ".gew.bak") e ∙ removesuffix-backup_of q))

pub write_other : (p q text : String) (d : Disk) → q ≢ p → write p text d q ≡ d q
write_other p q text d other = ground (arith, eq_iff q p)

-- The backups are those of paths that are no backups themselves.
abbrev pub AreBackups : List String → Type 0
AreBackups backups = All (λ b. (q : String) × (b ≡ backup_of q) × ¬ IsBackup q) backups

module _ (q text : String) (plain : ¬ IsBackup q) where
  -- The file has the text, and so has its backup.
  abbrev pub Saved : Disk → Type 0
  Saved d = (d q ≡ some text) × (d (backup_of q) ≡ some text)

  same_text :
      (x t : String) (d : Disk) → d (backup_of x) ≡ some t → Saved d → x ≡ q → some t ≡ some text
  same_text x t d found saved e = sym found ∙ ap (λ y. d (backup_of y)) e ∙ saved.1

  write-Saved :
      (x t : String) (d : Disk)
      → d (backup_of x) ≡ some t
      → ¬ IsBackup x
      → Saved d
      → Saved (write x t d)
  write-Saved x t d found other saved = (
    ground (arith, eq_iff q x, same_text x t d found saved, saved.0),
    write_other x (backup_of q) t d (λ e. other (q, sym e)) ∙ saved.1,
  )

  restore_one :
      (b : String) (x : String) (d : Disk)
      → b ≡ backup_of x
      → ¬ IsBackup x
      → Saved d
      → Saved (elim (d b) [ none ↦ d | some t ↦ write (removesuffix b ".gew.bak") t d ])
  restore_one b x d e other saved = elim (Option-cases (d b)) [
    | inl absent ↦ rw absent saved
    | inr (t, found) ↦ rw found (
        subst (λ y. Saved (write y t d))
          (sym (ap (λ c. removesuffix c ".gew.bak") e ∙ removesuffix-backup_of x))
          (write-Saved x t d (ap d (sym e) ∙ found) other saved))
  ]

  rollback-Saved :
      (backups : List String) (d : Disk) → AreBackups backups → Saved d → Saved (rollback backups d)
  unfolding rollback
  rollback-Saved [] d are saved = saved
  rollback-Saved (b ∷ backups) d ((x, e, other), are) saved =
      rollback-Saved backups _ are (restore_one b x d e other saved)

  -- one turn of the loop
  abbrev turn : String → Disk → Disk
  turn b d = elim (d b) [ none ↦ d | some t ↦ write (removesuffix b ".gew.bak") t d ]

  turn-kept :
      (b x : String) (d : Disk)
      → b ≡ backup_of x
      → ¬ IsBackup x
      → d (backup_of q) ≡ some text
      → turn b d (backup_of q) ≡ some text
  turn-kept b x d e other kept = elim (Option-cases (d b)) [
    | inl absent ↦ rw (absent, turn) kept
    | inr (t, found) ↦
        rw (found, turn)
          (subst (λ y. write y t d (backup_of q) ≡ some text)
            (sym (ap (λ c. removesuffix c ".gew.bak") e ∙ removesuffix-backup_of x))
            (write_other x (backup_of q) t d (λ e. other (q, sym e)) ∙ kept))
  ]

  turn_own : (d : Disk) → d (backup_of q) ≡ some text → turn (backup_of q) d q ≡ some text
  turn_own d kept =
      rw (kept, turn) (ap (λ y. write y text d q) (removesuffix-backup_of q) ∙ rw (eq_refl q) refl)

  pub rollback_back :
      (backups : List String) (d : Disk)
      → AreBackups backups
      → any (λ b. b == backup_of q) backups ≡ true
      → d (backup_of q) ≡ some text
      → rollback backups d q ≡ some text
  unfolding rollback
  rollback_back [] d are listed kept = ground arith
  rollback_back (b ∷ backups) d ((x, e, other), are) listed kept =
      elim (Bool-cases (b == backup_of q)) [
        | inl same ↦
            let own = (eq_iff b (backup_of q)).0 same in
            (rollback-Saved backups (turn b d) are (
              subst (λ c. turn c d q ≡ some text) (sym own) (turn_own d kept),
              turn-kept b x d e other kept,
            )).0
        | inr differs ↦
            rollback_back backups (turn b d) are (ground arith) (turn-kept b x d e other kept)
      ]
