-- ===== src/Common/Paths.antt =====
-- Resolved paths as their parts (`Path.parts`), and what it means to lie under a directory.
use git_hub_engineering_work.Common.Lists.{any}
use Prim.Native.String.{String}
use mathlib.Core.Path.{◌≡◌, refl, ap, ◌∙◌, sym}
use mathlib.Core.Logic.{◌↔◌}
use mathlib.Core.Bool.{Bool, true, false, ◌&&◌, ◌||◌}
use mathlib.Core.List.{List, [], ◌∷◌, ◌++◌, map}
use native.Mathlib.Omega.{arith}
use text.Mathlib.Text.{◌==◌}
use text.Mathlib.TextEquality.{eq_iff}
use text.Mathlib.TextPositions.{eq_refl}

abbrev pub PathParts : Type 0
PathParts = List String

-- `p == q`
abbrev pub same_path : PathParts → PathParts → Bool
same_path [] [] = true
same_path (a ∷ p) (b ∷ q) = a == b && same_path p q
same_path _ _ = false

-- `p.parents`, the longest first; an absolute path begins with its anchor
unfoldable pub parents : PathParts → List PathParts
parents [] = []
parents (a ∷ []) = []
parents (a ∷ b ∷ p) = map (λ q. a ∷ q) (parents (b ∷ p)) ++ ((a ∷ []) ∷ [])

-- `root in (*path.parents, path)`
unfoldable pub holds : PathParts → PathParts → Bool
unfolding parents
holds root path = any (same_path root) (parents path) || same_path root path

-- The path goes on from the root.
abbrev pub IsUnder : PathParts → PathParts → Type 0
IsUnder root path = (rest : PathParts) × (path ≡ root ++ rest)

begins_with : PathParts → PathParts → Bool
begins_with [] path = true
begins_with (a ∷ root) [] = false
begins_with (a ∷ root) (b ∷ path) = a == b && begins_with root path

begins_with-IsUnder : (root path : PathParts) → begins_with root path ≡ true → IsUnder root path
unfolding begins_with
begins_with-IsUnder [] path h = (path, refl)
begins_with-IsUnder (a ∷ root) [] h = ground arith
begins_with-IsUnder (a ∷ root) (b ∷ path) h =
    let (rest, e) = begins_with-IsUnder root path (ground arith) in
    let same : a ≡ b = (eq_iff a b).0 (ground arith) in (rest, cc (same, e))

begins_with-append : (root rest : PathParts) → begins_with root (root ++ rest) ≡ true
unfolding begins_with
begins_with-append [] rest = refl
begins_with-append (a ∷ root) rest = rw (eq_refl, begins_with-append root rest)

any-append : (f : PathParts → Bool) (l m : List PathParts) → any f (l ++ m) ≡ (any f l || any f m)
any-append f [] m = refl
any-append f (x ∷ l) m = ground (arith, any-append f l m)

any-below :
    (a : String) (r : PathParts) (b : String) (l : List PathParts)
    → any (same_path (a ∷ r)) (map (λ q. b ∷ q) l) ≡ (a == b && any (same_path r) l)
any-below a r b [] = ground arith
any-below a r b (x ∷ l) = ground (arith, any-below a r b l)

any_below-empty :
    (b : String) (l : List PathParts) → any (same_path []) (map (λ q. b ∷ q) l) ≡ false
any_below-empty b [] = refl
any_below-empty b (x ∷ l) = any_below-empty b l

any-parents :
    (r : PathParts) (a b : String) (path : PathParts)
    → any (same_path r) (parents (a ∷ b ∷ path)) ≡ (
        any (same_path r) (map (λ q. a ∷ q) (parents (b ∷ path)))
        || (same_path r (a ∷ []) || false))
unfolding parents
any-parents r a b path =
    any-append (same_path r) (map (λ q. a ∷ q) (parents (b ∷ path))) ((a ∷ []) ∷ [])

none-empty : (p : PathParts) → any (same_path []) (parents p) ≡ false
unfolding parents
none-empty [] = refl
none-empty (a ∷ []) = refl
none-empty (a ∷ b ∷ p) = any-parents [] a b p ∙ rw (any_below-empty a (parents (b ∷ p)))

holds-begins_with :
    (a : String) (root path : PathParts) → holds (a ∷ root) path ≡ begins_with (a ∷ root) path
unfolding holds begins_with parents
holds-begins_with a root [] = refl
holds-begins_with a [] (b ∷ []) = ground arith
holds-begins_with a (c ∷ root) (b ∷ []) = ground arith
holds-begins_with a [] (b ∷ d ∷ path) = ground (
  arith,
  any-parents (a ∷ []) b d path,
  any-below a [] b (parents (d ∷ path)),
  none-empty (d ∷ path),
)
holds-begins_with a (c ∷ root) (b ∷ d ∷ path) = ground (
  arith,
  any-parents (a ∷ c ∷ root) b d path,
  any-below a (c ∷ root) b (parents (d ∷ path)),
  holds-begins_with c root (d ∷ path),
)

-- The test on parents says that the path goes on from the root.
pub holds_iff :
    (a : String) (root path : PathParts) → (holds (a ∷ root) path ≡ true) ↔ IsUnder (a ∷ root) path
holds_iff a root path = (
  λ h. begins_with-IsUnder (a ∷ root) path (sym (holds-begins_with a root path) ∙ h),
  λ (rest, e).
      holds-begins_with a root path
      ∙ ap (begins_with (a ∷ root)) e
      ∙ begins_with-append (a ∷ root) rest,
)
