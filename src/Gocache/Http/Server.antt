-- ===== src/Gocache/Http/Server.antt =====
-- addons/gocache/http/server/main.go: the handler of the server, over a directory.
--
-- `clean` is `path.Clean`, `is_abs` is `path.IsAbs`, `parse_url` tells whether the URL is absolute and its
-- path, and `name_of` is the name of a cleaned path in the directory. `Faults` has the errors of the
-- operating system that do not come from what is there. Logging is left out.
use gdev.Base.{ℕ, String, Bool, true, false, Option, none, some, if◌then◌else◌, ◌==◌}
use gdev.Base.Dict.{Dict, lookup, insert, remove}
use gdev.Gocache.Http.{Method, get, head, put, delete, move, other_method, Request, Response}

pub data FsError : Type 0 where
  not_exist permission exist is_dir failed : FsError

pub data Node : Type 0 where
  file : String → Node
  dir : Node

-- `copied` is what is in the file when the copy of a body fails.
pub record Faults : Type 0 where
  pub open_ : Option FsError
  pub stat : Option FsError
  pub mkdir : Option FsError
  pub create : Option FsError
  pub copy : Option FsError
  pub copied : String
  pub sync : Option FsError
  pub close : Option FsError
  pub remove : Option FsError
  pub rename : Option FsError

pub record Paths : Type 0 where
  pub clean : String → String
  pub is_abs : String → Bool
  pub parse_url : String → Option (Bool × String)
  pub name_of : String → String

-- The status of `errToHTTP`.
unfoldable pub error_status : FsError → ℕ
error_status not_exist = 404
error_status permission = 403
error_status exist = 409
error_status is_dir = 409
error_status failed = 500

abbrev pub answer : ℕ → Response
answer status = record { status = status; content = "" }

-- HEAD gets no content.
abbrev content_for : Method → String → String
content_for head text = ""
content_for get text = text
content_for put text = text
content_for delete text = text
content_for move text = text
content_for (other_method m) text = text

module _ (paths : Paths) where
  -- `none` is a panic.
  unfoldable pub prep_path : String → Option String
  prep_path url =
      if paths.is_abs (paths.clean url) then some (paths.name_of (paths.clean url)) else none

  module _ (f : Faults) where
    abbrev served : Method → Option Node → Response
    served m none = answer (error_status not_exist)
    served m (some n) = elim f.stat [
      | some e ↦ answer 500
      | none ↦ elim n [
        | dir ↦ answer 403
        | file text ↦ record { status = 200; content = content_for m text }
      ]
    ]

    unfoldable pub get_or_head : Method → String → Dict Node → Response
    unfolding error_status
    get_or_head m p files = elim f.open_ [
      | some e ↦ answer (error_status e)
      | none ↦ served m (lookup p files)
    ]

    abbrev is_directory : Option Node → Bool
    is_directory (some dir) = true
    is_directory (some (file text)) = false
    is_directory none = false

    -- After the file was created: the copy, the flush and the close.
    abbrev written : String → String → Dict Node → Response × Dict Node
    written p body files = elim f.copy [
      | some e ↦ (answer 500, insert p (file f.copied) files)
      | none ↦ elim f.sync [
        | some e ↦ (answer 500, insert p (file body) files)
        | none ↦ elim f.close [
          | some e ↦ (answer 500, insert p (file body) files)
          | none ↦ (answer 204, insert p (file body) files)
        ]
      ]
    ]

    unfoldable pub put_file : String → String → Dict Node → Response × Dict Node
    unfolding error_status
    put_file p body files = elim f.mkdir [
      | some e ↦ (answer (error_status e), files)
      | none ↦
          if is_directory (lookup p files)
          then (answer (error_status is_dir), files)
          else elim f.create [
            | some e ↦ (answer (error_status e), files)
            | none ↦ written p body files
          ]
    ]

    unfoldable pub delete_file : String → Dict Node → Response × Dict Node
    unfolding error_status
    delete_file p files = elim f.remove [
      | some e ↦ (answer (error_status e), files)
      | none ↦ elim (lookup p files) [
        | none ↦ (answer (error_status not_exist), files)
        | some n ↦ (answer 204, remove p files)
      ]
    ]

    -- `Root.Rename`: the source takes the place of the destination.
    unfoldable pub rename_file : String → String → Dict Node → Response × Dict Node
    unfolding error_status
    rename_file p dest files = elim f.rename [
      | some e ↦ (answer (error_status e), files)
      | none ↦ elim (lookup p files) [
        | none ↦ (answer (error_status not_exist), files)
        | some n ↦ (answer 204, insert dest n (remove p files))
      ]
    ]

    unfoldable pub move_file : String → Option String → Dict Node → Option (Response × Dict Node)
    unfolding rename_file prep_path
    move_file p none files = some (answer 400, files)
    move_file p (some url) files =
        if url == "" then some (answer 400, files) else elim (paths.parse_url url) [
          | none ↦ some (answer 400, files)
          | some (true, path) ↦ some (answer 400, files)
          | some (false, path) ↦ elim (prep_path path) [
            | none ↦ none
            | some dest ↦ some (rename_file p dest files)
          ]
        ]

    -- The switch of `ServeHTTP`.
    unfoldable pub serve_path : Request → String → Dict Node → Option (Response × Dict Node)
    unfolding get_or_head put_file delete_file move_file
    serve_path req p files = elim req.method [
      | get ↦ some (get_or_head get p files, files)
      | head ↦ some (get_or_head head p files, files)
      | put ↦ some (put_file p req.body files)
      | delete ↦ some (delete_file p files)
      | move ↦ move_file p req.destination files
      | other_method m ↦ some (answer 405, files)
    ]

    unfoldable pub serve_http : Request → Dict Node → Option (Response × Dict Node)
    unfolding serve_path prep_path
    serve_http req files = elim (prep_path req.path) [
      | none ↦ none
      | some p ↦ serve_path req p files
    ]
