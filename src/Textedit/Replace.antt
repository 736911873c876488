-- ===== src/Textedit/Replace.antt =====
-- addons/bootstrap/textedit/replace-line.go: `ReplaceLine`. The parameter `trim` is
-- `strings.TrimSpace`.
pub mod Match
use gdev.Base.{
  String, ℕ, zero, suc, ◌+◌, ◌≤◌, ◌≡◌, refl, ap, sym, Bool, true, false, not, ◌&&◌, ◌||◌, Option,
  none, some, List, [], ◌∷◌, ◌++◌, map, ◌==◌, if◌then◌else◌, arith, eq_iff, ◌∙◌, All, length,
  get_elem?, eqb, ltb,
}
use gdev.Base.Names.{contains}
use gdev.Textedit.Editor.{Output, emits, fails, Editor, prepend, emitted, outputs}

pub record ReplaceEditor : Type 0 where
  pub old_line : String
  pub new_line : String
  pub previous_lines : List String
  pub must_match : Bool
  pub found : Bool
  pub prev_pos : ℕ

-- The comparison with the next previous line. An index out of range is a panic; it is
-- unreachable, and stands for no match.
unfoldable pub advance : String → ReplaceEditor → ReplaceEditor
advance tsl r =
    if ltb 0 (length r.previous_lines)
    then elim (get_elem? r.previous_lines r.prev_pos) [
      | none ↦ record r { prev_pos = 0 }
      | some p ↦
          if tsl == p then record r { prev_pos = suc r.prev_pos } else record r { prev_pos = 0 }
    ]
    else r

module _ (trim : String → String) where
  -- `none` is a panic.
  unfoldable pub replace_line : String → String → Option ReplaceEditor
  replace_line old_line new_line =
      if trim old_line == "" || trim new_line == ""
      then none
      else some (record {
        old_line = trim old_line;
        new_line = trim new_line;
        previous_lines = [];
        must_match = false;
        found = false;
        prev_pos = 0;
      })

  unfoldable pub with_previous_lines : List String → ReplaceEditor → Option ReplaceEditor
  with_previous_lines previous_lines r =
      let trimmed = map trim previous_lines in
      if contains trimmed "" then none else some (record r { previous_lines = trimmed })

  unfoldable pub must_match : ReplaceEditor → ReplaceEditor
  must_match r = record r { must_match = true }

  unfoldable pub replace_eof : ReplaceEditor → Output
  replace_eof r =
      if r.must_match && not r.found
      then fails "ReplaceLine: neither old nor new line found"
      else emits []

  unfoldable pub replace_next : String → ReplaceEditor → Output × ReplaceEditor
  unfolding advance
  replace_next line r =
      let tsl = trim line in
      if r.found
      then (emits (line ∷ []), r)
      else if eqb r.prev_pos (length r.previous_lines)
      then if tsl == r.old_line
        then (emits (r.new_line ∷ []), record r { found = true; prev_pos = 0 })
        else if tsl == r.new_line
        then (emits (line ∷ []), record r { found = true; prev_pos = 0 })
        else (emits (line ∷ []), advance tsl (record r { prev_pos = 0 }))
      else (emits (line ∷ []), advance tsl r)

  abbrev pub replace_editor : Editor ReplaceEditor
  replace_editor = record { next = replace_next; eof = replace_eof }
