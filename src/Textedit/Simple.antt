-- ===== src/Textedit/Simple.antt =====
-- addons/bootstrap/textedit/simple.go: `AppendLine`. The parameter `trim` is `strings.TrimSpace`.
use gdev.Base.{
  String, ◌≡◌, refl, ap, Bool, true, false, ◌||◌, Option, none, some, List, [], ◌∷◌, map, ◌==◌,
  if◌then◌else◌, arith, eq_iff, ◌∙◌,
}
use gdev.Base.Names.{contains}
use gdev.Textedit.Editor.{Output, emits, Editor, outputs}

pub record SimpleEditor : Type 0 where
  pub line : String
  pub line_ts : String
  pub old_lines : List String
  pub found : Bool

module _ (trim : String → String) where
  -- `none` is a panic.
  unfoldable pub append_line : String → List String → Option SimpleEditor
  append_line line old_lines =
      let line_ts = trim line in
      let olds = map trim old_lines in
      if line_ts == "" || contains olds ""
      then none
      else some (record { line = line; line_ts = line_ts; old_lines = olds; found = false })

  unfoldable pub simple_next : String → SimpleEditor → Output × SimpleEditor
  simple_next line s =
      let tsl = trim line in
      if s.found
      then (emits (line ∷ []), s)
      else if tsl == s.line_ts
      then (emits (line ∷ []), record s { found = true })
      else if contains s.old_lines tsl
      then (emits (s.line ∷ []), record s { found = true })
      else (emits (line ∷ []), s)

  unfoldable pub simple_eof : SimpleEditor → Output
  simple_eof s = if s.found then emits [] else emits (s.line ∷ [])

  abbrev pub simple_editor : Editor SimpleEditor
  simple_editor = record { next = simple_next; eof = simple_eof }

  -- What `AppendLine` promises: the first line that is the sought one stays as it is, or the first
  -- that is an old one is replaced, whichever comes first; without one the line is appended.
  abbrev pub with_line : SimpleEditor → List String → List String
  with_line s [] = s.line ∷ []
  with_line s (l ∷ ls) =
      let rest = with_line s ls in
      if trim l == s.line_ts
      then l ∷ ls
      else if contains s.old_lines (trim l)
      then s.line ∷ ls
      else l ∷ rest

  outputs-found :
      (s : SimpleEditor) (ls : List String) → s.found ≡ true → outputs simple_editor ls s ≡ some ls
  unfolding outputs simple_next simple_eof
  outputs-found s [] h = ground arith
  outputs-found s (l ∷ ls) h = ground (arith, outputs-found s ls h)

  outputs-with_line :
      (s : SimpleEditor) (ls : List String)
      → s.found ≡ false
      → outputs simple_editor ls s ≡ some (with_line s ls)
  unfolding outputs simple_next simple_eof
  outputs-with_line s [] h = ground arith
  outputs-with_line s (l ∷ ls) h =
      ground (arith, outputs-with_line s ls h, outputs-found (record s { found = true }) ls refl)

  with_line-again :
      (s : SimpleEditor) (ls : List String)
      → trim s.line ≡ s.line_ts
      → with_line s (with_line s ls) ≡ with_line s ls
  with_line-again s [] h = ground (arith, eq_iff (trim s.line) s.line_ts)
  with_line-again s (l ∷ ls) h =
      ground (arith, eq_iff (trim s.line) s.line_ts, with_line-again s ls h)

  -- A run of a fresh `AppendLine` editor never fails: it keeps the first line that is the sought one,
  -- or replaces the first old one, or else appends the line. A second run, on what the first wrote,
  -- changes nothing.
  pub append_line-outputs :
      (line : String) (old_lines : List String) (s : SimpleEditor) (ls : List String)
      → append_line line old_lines ≡ some s
      → (outputs simple_editor ls s ≡ some (with_line s ls))
        × (outputs simple_editor (with_line s ls) s ≡ some (with_line s ls))
  unfolding append_line
  append_line-outputs line old_lines s ls e =
      let (unused, same) : (s.found ≡ false) × (trim s.line ≡ s.line_ts) =
        (ground arith, ground arith) in
      (
        outputs-with_line s ls unused,
        outputs-with_line s (with_line s ls) unused ∙ ap some (with_line-again s ls same),
      )
