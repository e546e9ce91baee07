-- ===== src/Runtime/Settings/Accepts.antt =====
-- runtime/configuration/provider.py: which documents the parser accepts.
use git_hub_engineering_work.Common.{
  ℕ, ◌+◌, String, ◌≡◌, refl, false, Option, none, some, List, [], ◌∷◌, All, leb, arith, Bool-cases,
  ◌⊎◌, inl, inr,
}
use git_hub_engineering_work.Common.Int.{ℤ}
use git_hub_engineering_work.Common.Text.{strip, strip_right, truthy}
use git_hub_engineering_work.Common.Text.Lines.{splitlines, begins, cut}
use git_hub_engineering_work.Common.Outcome.{Outcome, returned, raised}
use git_hub_engineering_work.Runtime.Settings.{
  Mapping, Parser, at_start, configuration_exception, indent_of, close_dicts, set_key, key_line,
  parse_line, parse_lines, parse_simple_yaml,
}

-- The outermost open dict is the document, which stands at the indentation -1.
unfoldable IsRooted : List (ℕ × List String) → Type 0
IsRooted [] = ⊥
IsRooted ((open_at, path) ∷ []) = open_at ≡ 0
IsRooted (inner ∷ outer ∷ stack) = IsRooted (outer ∷ stack)

-- what the parser reads of a line
abbrev pub line_content : String → String
line_content raw_line = strip (strip_right (cut 35 raw_line).0)

-- a blank line, a comment, or a line with a colon that is no item of a list
unfoldable pub IsEntry : String → Type 0
IsEntry raw_line =
    (truthy (line_content raw_line) ≡ false)
    ⊎ ((begins (line_content raw_line) "- " ≡ false)
        × ((v : String) × ((cut 58 (line_content raw_line)).1 ≡ some v)))

abbrev IsGood : Outcome Parser → Type 0
IsGood o = (q : Parser) × ((o ≡ returned q) × IsRooted q.stack)

outermost : (i o : ℕ) → o ≡ 0 → leb (i + 1) o ≡ false
outermost i o e = ground arith

close_dicts-IsRooted :
    (i : ℕ) (stack : List (ℕ × List String)) → IsRooted stack → IsRooted (close_dicts i stack)
unfolding close_dicts IsRooted
close_dicts-IsRooted i [] r = elim r [ ]
close_dicts-IsRooted i ((o, path) ∷ []) r = rw (outermost i o r) r
close_dicts-IsRooted i ((o, path) ∷ y ∷ stack) r = elim (Bool-cases (leb (i + 1) o)) [
  | inl on ↦ rw on (close_dicts-IsRooted i (y ∷ stack) r)
  | inr off ↦ rw off r
]

inner-IsRooted :
    (x : ℕ × List String) (stack : List (ℕ × List String)) → IsRooted stack → IsRooted (x ∷ stack)
unfolding IsRooted
inner-IsRooted x [] r = elim r [ ]
inner-IsRooted x (y ∷ stack) r = r

module _ (int_of : String → Option ℤ) where
  set_key-IsGood :
      (i : ℕ) (key v : String) (raw : Option String) (path : List String) (p : Parser)
      → raw ≡ some v
      → IsRooted p.stack
      → IsGood (set_key int_of i key raw path p)
  unfolding set_key
  set_key-IsGood i key v none path p e r = cc
  set_key-IsGood i key v (some w) path p e r = elim (Bool-cases (truthy (strip w))) [
    | inl on ↦ rw on (_, (refl, r))
    | inr off ↦ rw off (_, (refl, inner-IsRooted _ p.stack r))
  ]

  key_line-IsGood :
      (i : ℕ) (stripped v : String) (p : Parser)
      → (cut 58 stripped).1 ≡ some v
      → IsRooted p.stack
      → IsGood (key_line int_of i stripped p)
  unfolding key_line IsRooted
  key_line-IsGood i stripped v p e r =
      from_open (close_dicts i p.stack) (close_dicts-IsRooted i p.stack r)
    where
      from_open :
          (stack : List (ℕ × List String))
          → IsRooted stack
          → IsGood (elim stack [
            | [] ↦ raised (configuration_exception "Invalid YAML indentation")
            | (open_at, path) ∷ stack ↦
                set_key int_of i
                  (cut 58 stripped).0
                  (cut 58 stripped).1
                  path
                  (record p { stack = (open_at, path) ∷ stack })
          ])
      from_open [] r = elim r [ ]
      from_open ((o, path) ∷ stack) r =
          set_key-IsGood i (cut 58 stripped).0 v (cut 58 stripped).1 path
            (record p { stack = (o, path) ∷ stack }) e r

  parse_line-IsGood :
      (raw_line : String) (p : Parser)
      → IsEntry raw_line
      → IsRooted p.stack
      → IsGood (parse_line int_of raw_line p)
  unfolding parse_line IsEntry
  parse_line-IsGood raw_line p (inl blank) r = rw blank (p, (refl, r))
  parse_line-IsGood raw_line p (inr (plain, (v, colon))) r =
      elim (Bool-cases (truthy (line_content raw_line))) [
        | inr blank ↦ rw blank (p, (refl, r))
        | inl full ↦
            rw (full, plain)
              (key_line-IsGood (indent_of (strip_right (cut 35 raw_line).0)) (line_content raw_line)
                v p colon r)
      ]

  parse_lines-IsGood :
      (lines : List String) (p : Parser)
      → All IsEntry lines
      → IsRooted p.stack
      → IsGood (parse_lines int_of lines p)
  unfolding parse_lines
  parse_lines-IsGood [] p entries r = (p, (refl, r))
  parse_lines-IsGood (line ∷ lines) p entries r =
      let (q, (e, s)) = parse_line-IsGood line p entries.0 r in
      rw e (parse_lines-IsGood lines q entries.1 s)

-- A document whose every line is blank, a comment, or has a colon and is no item of a list, is parsed, whatever
-- the indentation of its lines: none of the parser's exceptions is raised.
pub parse_simple_yaml-Accepts :
    (int_of : String → Option ℤ) (document : String)
    → All IsEntry (splitlines document)
    → (d : Mapping) × (parse_simple_yaml int_of document ≡ returned d)
unfolding parse_simple_yaml IsRooted
parse_simple_yaml-Accepts int_of document entries =
    let (q, (e, r)) = parse_lines-IsGood int_of (splitlines document) at_start entries refl in
    (q.root, rw e refl)
