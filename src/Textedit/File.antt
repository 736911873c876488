-- ===== src/Textedit/File.antt =====
-- addons/bootstrap/textedit/edit-file.go: `Edit` and the three ways to edit a file by it.
--
-- Parameters: `scan` is `bufio.Scanner`, the lines of a text and its error; `has_newline` is
-- `strings.HasSuffix` with a newline; `hash` is the CRC-32 of a text. The file system is a map from
-- names to texts; each call of the operating system may fail as `Faults` says.
pub mod Atomic
use Prim.Native.String.{◌++◌}
use gdev.Base.{
  String, ℕ, ◌≡◌, Bool, true, false, not, ◌&&◌, ◌||◌, Option, none, some, List, [], ◌∷◌, eqb,
  is_some, if◌then◌else◌, arith,
}
use gdev.Base.Dict.{Dict, lookup, insert, remove}
use gdev.Textedit.Editor.{Output, emits, fails, Editor}

-- The errors of the calls, in the order of the calls. `full` is the error of a write, given what was
-- written.
pub record Faults : Type 0 where
  pub open_ : Option String
  pub stat : Option String
  pub create : Option String
  pub full : String → Option String
  pub sync : Option String
  pub close_out : Option String
  pub close_in : Option String
  pub unlink : Option String
  pub move : Option String

-- What an edit returns: whether it changed the file, and an error; or a panic.
pub data Result : Type 0 where
  returned : Bool → Option String → Result
  panicked : Result

pub record World : Type 0 where
  pub files : Dict String
  pub result : Result

module _ (scan : String → List String × Option String) (has_newline : String → Bool) where
  abbrev pub with_newline : String → String
  with_newline l = if has_newline l then l else l ++ "\n"

  module _ (full : String → Option String) where
    -- The loop over the lines of an output: an error, and what is written.
    unfoldable pub write_lines : List String → String → Option String × String
    write_lines [] out = (none, out)
    write_lines (l ∷ ls) out = elim (full out) [
      | some e ↦ (some e, out)
      | none ↦ write_lines ls (out ++ with_newline l)
    ]

    abbrev pub write_output : Output → String → Option String × String
    write_output (fails e) out = (some e, out)
    write_output (emits ls) out = write_lines ls out

    module _ {E : Type 0} (ed : Editor E) where
      unfoldable pub edit_lines : List String → Option String → E → String → Option String × String
      unfolding write_lines
      edit_lines [] (some e) s out = (some e, out)
      edit_lines [] none s out = write_output (ed.eof s) out
      edit_lines (l ∷ ls) err s out =
          let (o, s') = ed.next l s in
          let (e, out') = write_output o out in
          elim e [ some e' ↦ (some e', out') | none ↦ edit_lines ls err s' out' ]

      -- `Edit`.
      unfoldable pub edit : String → E → Option String × String
      unfolding edit_lines
      edit text s = let (ls, err) = scan text in edit_lines ls err s ""

-- A missing file is read as an empty one.
abbrev pub text_of : Option String → String
text_of none = ""
text_of (some t) = t

module _ (scan : String → List String × Option String) (has_newline : String → Bool)
    (hash : String → ℕ) {E : Type 0} (ed : Editor E) (faults : Faults) where
  -- `os.Remove`, and its error.
  unfoldable pub unlink : String → Dict String → Option String × Dict String
  unlink name files = elim faults.unlink [
    | some e ↦ (some e, files)
    | none ↦ (none, remove name files)
  ]

  -- Gives up with an error, after an attempt to remove the temporary file.
  abbrev abandon : String → String → Dict String → World
  abandon tmp e files = record { files = (unlink tmp files).1; result = returned false (some e) }

  -- From the check of the sums on: `out` is the new text, which stands in the temporary file.
  abbrev finish_file : String → String → String → String → Dict String → World
  finish_file name tmp in_text out files =
      if eqb (hash in_text) (hash out)
      then record { files = (unlink tmp files).1; result = returned false (unlink tmp files).0 }
      else elim faults.move [
        | some e ↦ abandon tmp e files
        | none ↦ record { files = insert name out (remove tmp files); result = returned true none }
      ]

  abbrev close_file : String → String → String → String → Dict String → World
  close_file name tmp in_text out files = elim faults.sync [
    | some e ↦ abandon tmp e files
    | none ↦ elim faults.close_out [
      | some e ↦ abandon tmp e files
      | none ↦ elim faults.close_in [
        | some e ↦ record { files = files; result = returned false (some e) }
        | none ↦ finish_file name tmp in_text out files
      ]
    ]
  ]

  -- `EditFile`, where `tmp` is the name that `os.CreateTemp` chooses.
  unfoldable pub edit_file : String → String → E → Dict String → World
  unfolding unlink edit
  edit_file name tmp s files = elim faults.open_ [
    | some e ↦ record { files = files; result = returned false (some e) }
    | none ↦ elim faults.create [
      | some e ↦ record { files = files; result = returned false (some e) }
      | none ↦
          let in_text = text_of (lookup name files) in
          let (err, out) = edit scan has_newline faults.full ed in_text s in
          let files' = insert tmp out files in
          elim err [ some e ↦ abandon tmp e files' | none ↦ close_file name tmp in_text out files' ]
    ]
  ]

  -- The direct write of `EditFileUnsafe`: the file is truncated, then written, and what an error
  -- leaves in it is not fixed: `torn` stands for it.
  abbrev overwrite : String → String → String → Dict String → World
  overwrite name torn out files = elim faults.create [
    | some e ↦ record { files = files; result = returned false (some e) }
    | none ↦ elim (faults.full "") [
      | some e ↦ record { files = insert name torn files; result = returned false (some e) }
      | none ↦ elim faults.sync [
        | some e ↦ record { files = insert name out files; result = returned false (some e) }
        | none ↦ elim faults.close_out [
          | some e ↦ record { files = insert name out files; result = returned false (some e) }
          | none ↦ record { files = insert name out files; result = returned true none }
        ]
      ]
    ]
  ]

  -- `EditFileUnsafe`. A missing file leaves `inStat` nil, whose `Size` panics.
  unfoldable pub edit_file_unsafe : String → String → E → Dict String → World
  unfolding edit
  edit_file_unsafe name torn s files = elim faults.open_ [
    | some e ↦ record { files = files; result = returned false (some e) }
    | none ↦ elim (lookup name files) [
      | none ↦ record { files = files; result = panicked }
      | some in_text ↦ elim faults.stat [
        | some e ↦ record { files = files; result = returned false (some e) }
        | none ↦
            let (err, out) = edit scan has_newline (λ t. none) ed in_text s in
            elim err [
              | some e ↦ record { files = files; result = returned false (some e) }
              | none ↦ elim faults.close_in [
                | some e ↦ record { files = files; result = returned false (some e) }
                | none ↦
                    if eqb (hash in_text) (hash out)
                    then record { files = files; result = returned false none }
                    else overwrite name torn out files
              ]
            ]
      ]
    ]
  ]

  -- Gives up as root: a failed removal adds its error.
  abbrev abandon_as_root : String → String → Dict String → World
  abandon_as_root tmp e files = record {
    files = (unlink tmp files).1;
    result =
        returned false (some (elim (unlink tmp files).0 [ none ↦ e | some e2 ↦ e ++ "\n" ++ e2 ]));
  }

  -- `EditFileAsRoot`, where `tmp` is the name made of a random number, and `torn` is what a failed
  -- write leaves there.
  unfoldable pub edit_file_as_root : String → String → String → E → Dict String → World
  unfolding unlink edit
  edit_file_as_root name tmp torn s files = elim faults.open_ [
    | some e ↦ record { files = files; result = returned false (some e) }
    | none ↦
        let in_text = text_of (lookup name files) in
        let (err, out) = edit scan has_newline (λ t. none) ed in_text s in
        elim err [
          | some e ↦ record { files = files; result = returned false (some e) }
          | none ↦ elim faults.close_in [
            | some e ↦ record { files = files; result = returned false (some e) }
            | none ↦
                if eqb (hash in_text) (hash out)
                then record { files = files; result = returned false none }
                else elim faults.create [
                  | some e ↦ abandon_as_root tmp e (insert tmp torn files)
                  | none ↦ elim faults.move [
                    | some e ↦ abandon_as_root tmp e (insert tmp out files)
                    | none ↦ record {
                      files = insert name out (remove tmp files);
                      result = returned true none;
                    }
                  ]
                ]
          ]
        ]
  ]
