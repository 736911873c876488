-- ===== src/Textedit/Tests.antt =====
-- addons/bootstrap/textedit: small files. Trimming is left out.
use Prim.Native.String.{len}
use gdev.Base.{String, ◌≡◌, refl, true, false, Bool, Option, none, some, List, [], ◌∷◌}
use gdev.Base.Dict.{Dict, lookup}
use gdev.Base.Names.{contains}
use gdev.Textedit.Editor.{outputs}
use gdev.Textedit.Simple.{SimpleEditor, simple_editor, simple_next, simple_eof}
use gdev.Textedit.Range.{RangeEditor, spliced}
use gdev.Textedit.Replace.{ReplaceEditor, replace_next, replace_eof, advance, replace_editor}
use gdev.Textedit.File.{Faults, edit, edit_lines, write_lines, edit_file}
use gdev.Textedit.File.Atomic.{IsAtomic, edit_file-IsAtomic}

abbrev same : String → String
same s = s

abbrev source : SimpleEditor
source = record { line = "new"; line_ts = "new"; old_lines = "old" ∷ []; found = false }

abbrev section : RangeEditor
section = record {
  start = "begin";
  end_ = "end";
  start_ts = "begin";
  end_ts = "end";
  content = "x" ∷ [];
  start_found = false;
  end_found = false;
}

abbrev file_lines : List String
file_lines = "a" ∷ "begin" ∷ "y" ∷ "end" ∷ "b" ∷ []

spliced-section : spliced same section file_lines ≡ "a" ∷ "begin" ∷ "x" ∷ "end" ∷ "b" ∷ []
spliced-section = refl

abbrev after_two : ReplaceEditor
after_two = record {
  old_line = "old";
  new_line = "new";
  previous_lines = "p" ∷ "q" ∷ [];
  must_match = true;
  found = false;
  prev_pos = 0;
}

outputs-after_two :
    outputs (replace_editor same) ("p" ∷ "q" ∷ "old" ∷ []) after_two ≡ some ("p" ∷ "q" ∷ "new" ∷ [])
unfolding outputs replace_next replace_eof advance
outputs-after_two = refl

-- The search does not look again at a line that breaks off the previous lines: the old line is
-- missed, though the previous lines stand right before it.
outputs-missed : outputs (replace_editor same) ("p" ∷ "p" ∷ "q" ∷ "old" ∷ []) after_two ≡ none
unfolding outputs replace_next replace_eof advance
outputs-missed = refl

abbrev one_line : String → List String × Option String
one_line text = (text ∷ [], none)

abbrev ended : String → Bool
ended text = true

abbrev no_faults : Faults
no_faults = record {
  open_ = none;
  stat = none;
  create = none;
  full = λ text. none;
  sync = none;
  close_out = none;
  close_in = none;
  unlink = none;
  move = none;
}

abbrev files : Dict String
files = ("f", "old") ∷ []

edit_file-IsAtomic_example :
    IsAtomic "f" "f.tmp" "new" none files
      (edit_file one_line ended len (simple_editor same) no_faults "f" "f.tmp" source files)
unfolding edit edit_lines write_lines simple_next simple_eof contains lookup
edit_file-IsAtomic_example =
    edit_file-IsAtomic one_line ended len (simple_editor same) no_faults "f" "f.tmp" source files
      none "new" (λ e. cc) refl
