-- ===== src/Engineering/Patch/Applier/Copies.antt =====
-- engineering/patch/applier.py: the copies that are made of the files.
use git_hub_engineering_work.Common.{
  String, ◌==◌, eq_iff, eq_refl, ◌≡◌, refl, sym, ap, subst, ◌∙◌, inl, inr, true, some, List, [],
  ◌∷◌, any, All, Option-cases, Bool-cases, arith,
}
use text.Mathlib.TextLemmas.{append_cancel_right}
use git_hub_engineering_work.Engineering.Patch.Applier.{Disk, write, Checkout, backup_of, back_up}
use git_hub_engineering_work.Engineering.Patch.Applier.Rollback.{
  IsBackup, AreBackups, Saved, write_other,
}

module _ (checkout : Checkout) where
  open checkout use {locate, git}

  abbrev pub ArePlain : List String → Type 0
  ArePlain files = All (λ f. ¬ IsBackup (locate f)) files

  -- A path that is no backup keeps its file.
  back_up_other :
      (files : List String) (d : Disk) (q : String)
      → ¬ IsBackup q
      → (back_up checkout files d).0 q ≡ d q
  unfolding back_up
  back_up_other [] d q plain = refl
  back_up_other (f ∷ files) d q plain = elim (Option-cases (d (locate f))) [
    | inl absent ↦ rw (absent, back_up) (back_up_other files d q plain)
    | inr (t, found) ↦
        rw (found, back_up)
          (back_up_other files _ q plain
            ∙ write_other (backup_of (locate f)) q t d (λ e. plain (locate f, e)))
  ]

  pub back_up-AreBackups :
      (files : List String) (d : Disk) → ArePlain files → AreBackups (back_up checkout files d).1
  unfolding back_up
  back_up-AreBackups [] d plain = tt
  back_up-AreBackups (f ∷ files) d (plain, rest) = elim (Option-cases (d (locate f))) [
    | inl absent ↦ rw (absent, back_up) (back_up-AreBackups files d rest)
    | inr (t, found) ↦
        rw (found, back_up) ((locate f, refl, plain), back_up-AreBackups files _ rest)
  ]

  module _ (q text : String) (plain : ¬ IsBackup q) where
    write-Copied :
        (x t : String) (d : Disk)
        → d x ≡ some t
        → Saved q text plain d
        → Saved q text plain (write (backup_of x) t d)
    write-Copied x t d found saved = (
      write_other (backup_of x) q t d (λ e. plain (x, e)) ∙ saved.0,
      ground (
        arith,
        eq_iff (backup_of q) (backup_of x),
        saved.1,
        λ (e : backup_of q ≡ backup_of x).
            sym found ∙ ap d (sym (append_cancel_right q x ".gew.bak" e)) ∙ saved.0,
      ),
    )

    back_up-Saved :
        (files : List String) (d : Disk)
        → Saved q text plain d
        → Saved q text plain (back_up checkout files d).0
    unfolding back_up
    back_up-Saved [] d saved = saved
    back_up-Saved (f ∷ files) d saved = elim (Option-cases (d (locate f))) [
      | inl absent ↦ rw (absent, back_up) (back_up-Saved files d saved)
      | inr (t, found) ↦
          rw (found, back_up) (back_up-Saved files _ (write-Copied (locate f) t d found saved))
    ]

    write_first : (d : Disk) → d q ≡ some text → Saved q text plain (write (backup_of q) text d)
    write_first d held = (
      write_other (backup_of q) q text d (λ e. plain (q, e)) ∙ held,
      rw (eq_refl (backup_of q)) refl,
    )

  -- The file is copied, and the copy is listed.
  abbrev pub IsCopied : String → String → List String → Disk → Type 0
  IsCopied q text files d =
      ((back_up checkout files d).0 (backup_of q) ≡ some text)
      × (any (λ b. b == backup_of q) (back_up checkout files d).1 ≡ true)

  module _ (f text : String) (plain : ¬ IsBackup (locate f)) where
    IsCopied-first :
        (files : List String) (d : Disk)
        → d (locate f) ≡ some text
        → IsCopied (locate f) text (f ∷ files) d
    unfolding back_up
    IsCopied-first files d held =
        rw (held, IsCopied, back_up)
          (
            (back_up-Saved (locate f) text plain files _
                (write_first (locate f) text plain d held)).1,
            rw (eq_refl (backup_of (locate f))) refl,
          )

    IsCopied-later :
        (g : String) (files : List String) (d : Disk)
        → ((e : Disk) → e (locate f) ≡ some text → IsCopied (locate f) text files e)
        → d (locate f) ≡ some text
        → IsCopied (locate f) text (g ∷ files) d
    unfolding back_up
    IsCopied-later g files d later held = elim (Option-cases (d (locate g))) [
      | inl absent ↦ rw (absent, IsCopied, back_up) (later d held)
      | inr (t, found) ↦
          let (kept, listed) =
            later (write (backup_of (locate g)) t d) (
              write_other (backup_of (locate g)) (locate f) t d (λ e. plain (locate g, e))
              ∙ held) in
          rw (found, IsCopied, back_up) (kept, ground arith)
    ]

    pub back_up-IsCopied :
        (files : List String) (d : Disk)
        → any (λ g. g == f) files ≡ true
        → d (locate f) ≡ some text
        → IsCopied (locate f) text files d
    back_up-IsCopied [] d listed held = ground arith
    back_up-IsCopied (g ∷ files) d listed held = elim (Bool-cases (g == f)) [
      | inl same ↦
          subst (λ x. IsCopied (locate f) text (x ∷ files) d) (sym ((eq_iff g f).0 same))
            (IsCopied-first files d held)
      | inr differs ↦ IsCopied-later g files d (λ e. back_up-IsCopied files e (ground arith)) held
    ]
