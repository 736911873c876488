-- ===== src/Gocache/Disk.antt =====
-- addons/gocache/disk-storage-backend.go: the backend over a directory.
--
-- A file's name is that of an action or an output by its ID, or of the temporary file beside it. `Fs`
-- has what the file system answers: `fault` is the error of a step on a file, `size_of` the bytes of a
-- text, `full_name` the path of a name, `now` the time of a write. `print_entry` and `parse_entry` stand
-- for action-entry.go, which rests on fmt.
pub mod Store
use gdev.Base.{
  ℕ, String, Bool, true, false, not, ◌&&◌, Option, none, some, if◌then◌else◌, ◌==◌, leb, eqb, ◌⊎◌,
  inl, inr,
}
use gdev.Gocache.Backend.{
  Error, not_exist, other, wrap, join, ActionEntry, Result, ok, fails, panics, Backend,
}

pub data FileName : Type 0 where
  action_file output_file : String → FileName
  temp_file : FileName → FileName

unfoldable pub same_name : FileName → FileName → Bool
same_name (action_file a) (action_file b) = a == b
same_name (output_file a) (output_file b) = a == b
same_name (temp_file a) (temp_file b) = same_name a b
same_name _ _ = false

pub record File : Type 0 where
  pub content : String
  pub mtime : ℕ

-- `diskStorageBackend`: whether its root is there, and the files under it.
pub record Disk : Type 0 where
  pub root : Bool
  pub files : FileName → Option File

pub data FsStep : Type 0 where
  mkdir open_temp copy_body sync close_temp rename remove read_body drain close_root : FsStep

pub record Fs : Type 0 where
  pub fault : FsStep → FileName → Option Error
  pub size_of : String → ℕ
  pub full_name : FileName → String
  pub now : ℕ
  pub print_entry : ActionEntry → Error ⊎ String
  pub parse_entry : String → Error ⊎ ActionEntry

abbrev pub put_file : FileName → File → Disk → Disk
put_file name f d = record d { files = λ n. if same_name name n then some f else d.files n }

abbrev pub remove_file : FileName → Disk → Disk
remove_file name d = record d { files = λ n. if same_name name n then none else d.files n }

module _ (fs : Fs) where
  -- A step that may fail; the disk is the one before it.
  abbrev step : {A : Type 0} → FsStep → FileName → Disk → Result A × Disk → Result A × Disk
  step s name d next = elim (fs.fault s name) [ none ↦ next | some e ↦ (fails e, d) ]

  -- Each call goes through the root, which is nil after a close; an empty ID has no first byte.
  abbrev on_root : {A : Type 0} → Disk → String → Result A × Disk → Result A × Disk
  on_root d id next = if d.root && not (id == "") then next else (panics, d)

  -- The end of a write: the temporary file takes the name. When that fails an output's temporary file
  -- stays: `os.Remove` is called with its name in the root.
  abbrev rename_file : {A : Type 0} → A → Bool → FileName → String → Disk → Result A × Disk
  rename_file a cleans name content d = elim (fs.fault rename name) [
    | some e ↦ (fails e, if cleans then remove_file (temp_file name) d else d)
    | none ↦ (
      ok a,
      put_file name (record { content = content; mtime = fs.now }) (remove_file (temp_file name) d),
    )
  ]

  abbrev finish_file : {A : Type 0} → A → Bool → FileName → String → Disk → Result A × Disk
  finish_file a cleans name content d =
      step sync name d (step close_temp name d (rename_file a cleans name content d))

  abbrev temp_of : FileName → String → Disk → Disk
  temp_of name content = put_file (temp_file name) (record { content = content; mtime = fs.now })

  -- `WriteOutput`, when the file is not there with the size and time of the entry.
  unfoldable pub store_output : ActionEntry → String → Disk → Result String × Disk
  store_output a body d =
      let name = output_file a.output_id in
      let d' = temp_of name body d in
      step mkdir name d (
        step open_temp name d (
          step copy_body name d' (
            if eqb (fs.size_of body) a.size
            then finish_file (fs.full_name name) false name body d'
            else (fails (other "output file has wrong size"), d'))))

  abbrev pub is_stored : ActionEntry → Option File → Bool
  is_stored a none = false
  is_stored a (some f) = eqb (fs.size_of f.content) a.size && leb f.mtime a.time

  unfoldable pub write_output : ActionEntry → String → Disk → Result String × Disk
  unfolding store_output
  write_output a body d =
      let name = output_file a.output_id in
      on_root d a.output_id (
        if is_stored a (d.files name)
        then step drain name d (ok (fs.full_name name), d)
        else store_output a body d)

  unfoldable pub write_action_entry : ActionEntry → Disk → Result Unit × Disk
  write_action_entry a d =
      let name = action_file a.id in
      on_root d a.id (
        step mkdir name d (
          step open_temp name d (elim (fs.print_entry a) [
            | inl e ↦ (fails e, temp_of name "" d)
            | inr content ↦
                step copy_body name (temp_of name content d)
                  (finish_file tt true name content (temp_of name content d))
          ])))

  abbrev pub checked_entry : String → Error ⊎ ActionEntry → Result ActionEntry
  checked_entry id (inl e) = fails e
  checked_entry id (inr a) = if a.id == id then ok a else fails (other "bad action file format")

  abbrev pub read_entry : String → Option File → Result ActionEntry
  read_entry id none = fails not_exist
  read_entry id (some f) = checked_entry id (fs.parse_entry f.content)

  unfoldable pub read_action_entry : String → Disk → Result ActionEntry × Disk
  read_action_entry id d =
      let name = action_file id in
      on_root d id (step read_body name d (read_entry id (d.files name), d))

  abbrev pub stat_output : ActionEntry → Option File → Result String
  stat_output a none = fails not_exist
  stat_output a (some f) =
      if eqb (fs.size_of f.content) a.size
      then ok (fs.full_name (output_file a.output_id))
      else fails (other "output file has wrong size")

  unfoldable pub check_output_file : ActionEntry → Disk → Result String × Disk
  check_output_file a d =
      on_root d a.output_id (stat_output a (d.files (output_file a.output_id)), d)

  abbrev opened : Option File → Result String
  opened none = fails not_exist
  opened (some f) = ok f.content

  unfoldable pub open_output_file : ActionEntry → Disk → Result String × Disk
  open_output_file a d =
      let name = output_file a.output_id in
      on_root d a.output_id (step read_body name d (opened (d.files name), d))

  unfoldable pub close : Disk → Result Unit × Disk
  close d =
      if not d.root
      then (ok tt, d)
      else step close_root (action_file "") d (ok tt, record d { root = false })

  unfoldable pub disk_backend : Backend Disk
  unfolding read_action_entry check_output_file open_output_file write_action_entry write_output
      close
  disk_backend = record {
    read_action_entry = read_action_entry;
    check_output_file = check_output_file;
    open_output_file = open_output_file;
    write_action_entry = write_action_entry;
    write_output = write_output;
    close = close;
  }
