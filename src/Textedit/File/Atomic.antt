-- ===== src/Textedit/File/Atomic.antt =====
-- addons/bootstrap/textedit/edit-file.go: an edit replaces the file whole, or leaves it as it was.
use gdev.Base.{
  Bool-cases, inl, inr, String, ℕ, ◌≡◌, ◌≢◌, Bool, true, false, not, Option, none, some, List,
  if◌then◌else◌, arith, ◌==◌, eq_iff, ◌⊎◌,
}
use gdev.Base.Dict.{Dict, lookup, insert, remove, lookup-insert, lookup-remove}
use gdev.Textedit.Editor.{Editor}
use gdev.Textedit.File.{
  Faults, Result, returned, panicked, World, edit, edit_file, edit_file_as_root, unlink, text_of,
}

abbrev pub is_kept : Result → Bool
is_kept (returned b e) = not b
is_kept panicked = false

-- What became of the file `name`, whose edit is `out`: it was replaced, or kept with an error or none.
pub record IsAtomic (name tmp out : String) (err : Option String) (files : Dict String) (w : World)
    : Type 0 where
  pub target :
      ((w.result ≡ returned true none) × (err ≡ none) × (lookup name w.files ≡ some out))
      ⊎ ((is_kept w.result ≡ true) × (lookup name w.files ≡ lookup name files))
  pub others : (j : String) → (lookup j w.files ≡ lookup j files) ⊎ ((j ≡ name) ⊎ (j ≡ tmp))

-- A temporary file changes no other one, and its removal none.
lookup-insert_other :
    (j tmp out : String) (files : Dict String)
    → j ≢ tmp
    → lookup j (insert tmp out files) ≡ lookup j files
lookup-insert_other j tmp out files h = ground (arith, lookup-insert tmp j out files, eq_iff tmp j)

lookup-remove_other :
    (j tmp out : String) (files : Dict String)
    → j ≢ tmp
    → lookup j (remove tmp (insert tmp out files)) ≡ lookup j files
lookup-remove_other j tmp out files h = ground (
  arith,
  lookup-insert_other j tmp out files h,
  lookup-remove tmp j (insert tmp out files),
  eq_iff tmp j,
)

lookup-move :
    (j name tmp out : String) (files : Dict String)
    → j ≢ tmp
    → lookup j (insert name out (remove tmp (insert tmp out files)))
      ≡ (if name == j then some out else lookup j files)
lookup-move j name tmp out files h = ground (
  arith,
  lookup-remove_other j tmp out files h,
  lookup-insert name j out (remove tmp (insert tmp out files)),
)

elsewhere :
    {P : Type 0} (j name tmp : String) → (j ≢ name → j ≢ tmp → P) → P ⊎ ((j ≡ name) ⊎ (j ≡ tmp))
elsewhere j name tmp f = elim (Bool-cases (j == name)) [
  | inl x ↦ inr (inl (ground (arith, eq_iff j name)))
  | inr x ↦ elim (Bool-cases (j == tmp)) [
    | inl y ↦ inr (inr (ground (arith, eq_iff j tmp)))
    | inr y ↦ inl (f (ground (arith, eq_iff j name)) (ground (arith, eq_iff j tmp)))
  ]
]

module _ (scan : String → List String × Option String) (has_newline : String → Bool)
    (hash : String → ℕ) {E : Type 0} (ed : Editor E) (faults : Faults) where
  -- For a temporary name other than the file's, `EditFile` answers `true` without an error only if the
  -- edit has no error and its whole output is the new text of the file; otherwise it answers `false`,
  -- and the file is as it was. Other files than these two never change.
  pub edit_file-IsAtomic :
      (name tmp : String) (s : E) (files : Dict String) (err : Option String) (out : String)
      → name ≢ tmp
      → edit scan has_newline faults.full ed (text_of (lookup name files)) s ≡ (err, out)
      → IsAtomic name tmp out err files (edit_file scan has_newline hash ed faults name tmp s files)
  unfolding edit_file unlink
  edit_file-IsAtomic name tmp s files err out h e = record {
    target = ground (
      arith,
      lookup-insert_other name tmp out files h,
      lookup-remove_other name tmp out files h,
      lookup-move name name tmp out files h,
      eq_iff name name,
    );
    others = λ j. elsewhere j name tmp λ n m. ground (
      arith,
      lookup-insert_other j tmp out files m,
      lookup-remove_other j tmp out files m,
      lookup-move j name tmp out files m,
      eq_iff name j,
    );
  }

  -- For a temporary name other than the file's, `EditFileAsRoot` answers `true` without an error only
  -- if the edit has no error and its whole output is the new text of the file; otherwise it answers
  -- `false`, and the file is as it was. Other files than these two never change.
  pub edit_file_as_root-IsAtomic :
      (name tmp torn : String) (s : E) (files : Dict String) (err : Option String) (out : String)
      → name ≢ tmp
      → edit scan has_newline (λ t. none) ed (text_of (lookup name files)) s ≡ (err, out)
      → IsAtomic name tmp out err files
          (edit_file_as_root scan has_newline hash ed faults name tmp torn s files)
  unfolding edit_file_as_root unlink
  edit_file_as_root-IsAtomic name tmp torn s files err out h e = record {
    target = ground (
      arith,
      lookup-insert_other name tmp out files h,
      lookup-remove_other name tmp out files h,
      lookup-insert_other name tmp torn files h,
      lookup-remove_other name tmp torn files h,
      lookup-insert name name out (remove tmp files),
      lookup-remove tmp name files,
      eq_iff tmp name,
      eq_iff name name,
    );
    others = λ j. elsewhere j name tmp λ n m. ground (
      arith,
      lookup-insert_other j tmp out files m,
      lookup-remove_other j tmp out files m,
      lookup-insert_other j tmp torn files m,
      lookup-remove_other j tmp torn files m,
      lookup-insert name j out (remove tmp files),
      lookup-remove tmp j files,
      eq_iff tmp j,
      eq_iff name j,
    );
  }
