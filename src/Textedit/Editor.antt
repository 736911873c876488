-- ===== src/Textedit/Editor.antt =====
-- addons/bootstrap/textedit/editor.go and helpers.go: what an editor is, and the lines it emits.
use gdev.Base.{String, Option, none, some, List, [], ◌∷◌, ◌++◌}

-- What `Next` and `EOF` return: lines to write (`each`, `empty`), or an error.
pub data Output : Type 0 where
  emits : List String → Output
  fails : String → Output

-- `Next` and `EOF` change the state of the editor.
pub record Editor (E : Type 0) : Type 0 where
  pub next : String → E → Output × E
  pub eof : E → Output

-- The lines before an error end the run.
abbrev pub prepend : List String → Option (List String) → Option (List String)
prepend xs none = none
prepend xs (some ys) = some (xs ++ ys)

-- All lines that an editor emits for a file of the given lines; `none` if it fails.
module _ {E : Type 0} (ed : Editor E) where
  abbrev pub emitted : Output → Option (List String) → Option (List String)
  emitted (emits xs) rest = prepend xs rest
  emitted (fails e) rest = none

  unfoldable pub outputs : List String → E → Option (List String)
  outputs [] s = emitted (ed.eof s) (some [])
  outputs (l ∷ ls) s = let (o, s') = ed.next l s in emitted o (outputs ls s')
