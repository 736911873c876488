-- ===== src/Apt/Cache/Rows.antt =====
-- addons/bootstrap/apt/state.go: the rows that `dpkg-query` prints, and when they are asked for again.
use gdev.Base.{
  ℕ, ◌≤◌, ◌<◌, ◌≡◌, refl, ap, ◌∙◌, Bool, Bool-cases, inl, false, ◌&&◌, Option, none, some, List, [],
  ◌∷◌, ◌++◌, if◌then◌else◌, ◌⊎◌, inr, arith, All,
}
use gdev.Apt.Text.{
  Text, same_text, same_text-eq, same_text_refl, join, lines_of, has_char, split-join,
  lines_of-line, has_char-join,
}
use gdev.Apt.Stanza.{Content, field}
use gdev.Apt.Cache.{
  Report, Error, ok, put_version, trim_newline, read_fields, read_rows, is_fresh, dpkg_installed,
}

pub record Row : Type 0 where
  pub name : Text
  pub version : Text
  pub want : Text
  pub status : Text
  pub eflag : Text

abbrev pub columns : Row → List Text
columns r = r.name ∷ r.version ∷ r.want ∷ r.status ∷ r.eflag ∷ []

-- No tab and no end of line stand in a column.
abbrev pub IsRow : Row → Type 0
IsRow r = All (λ t. has_char 9 t ≡ false) (columns r) × All (λ t. has_char 10 t ≡ false) (columns r)

abbrev pub print_rows : List Row → Text
print_rows [] = []
print_rows (r ∷ rs) = join 9 (columns r) ++ 10 ∷ print_rows rs

-- The package is wanted ("install"), it is there ("installed"), and nothing is wrong with it ("ok").
abbrev pub is_installed : Row → Bool
is_installed r =
    same_text r.want (105 ∷ 110 ∷ 115 ∷ 116 ∷ 97 ∷ 108 ∷ 108 ∷ [])
    && (same_text r.status (105 ∷ 110 ∷ 115 ∷ 116 ∷ 97 ∷ 108 ∷ 108 ∷ 101 ∷ 100 ∷ [])
        && same_text r.eflag (111 ∷ 107 ∷ []))

-- The versions of the packages that are installed.
abbrev pub installed_of : List Row → Content → Content
installed_of [] m = m
installed_of (r ∷ rs) m =
    installed_of rs (if is_installed r then put_version r.name r.version m else m)

trim_newline-line : (line : Text) → trim_newline (line ++ 10 ∷ []) ≡ some line
unfolding trim_newline
trim_newline-line [] = refl
trim_newline-line (c ∷ []) = refl
trim_newline-line (c ∷ d ∷ t) = rw (trim_newline-line (d ∷ t)) refl

read_fields-row :
    (line : Text) (r : Row) (m : Content)
    → read_fields line (columns r) m
      ≡ inr (if is_installed r then put_version r.name r.version m else m)
unfolding read_fields
read_fields-row line r m = ground arith

read_rows-print_rows :
    (rs : List Row) (m : Content)
    → All IsRow rs
    → read_rows (lines_of (print_rows rs)) m ≡ inr (installed_of rs m)
unfolding lines_of read_rows
read_rows-print_rows [] m h = refl
read_rows-print_rows (r ∷ rs) m ((tabs, ends), h) =
    let line = join 9 (columns r) in
    let no_end = has_char-join 10 9 (columns r) refl ends in
    let words = split-join 9 r.name (r.version ∷ r.want ∷ r.status ∷ r.eflag ∷ []) tabs in
    rw
      (
        lines_of-line line (print_rows rs) no_end,
        read_rows,
        trim_newline-line line,
        words,
        read_fields-row line r m,
      )
      (read_rows-print_rows rs _ h)

-- The version in the last row of a package that is installed; `before` if there is none.
abbrev pub version_of : Text → List Row → Option Text → Option Text
version_of k [] before = before
version_of k (r ∷ rs) before =
    version_of k rs (if is_installed r && same_text r.name k then some r.version else before)

field-put_version :
    (k name v : Text) (m : Content)
    → field k (put_version name v m) ≡ (if same_text name k then some v else field k m)
unfolding field put_version
field-put_version k name v [] = refl
field-put_version k name v ((j, old) ∷ m) = ground (
  arith,
  same_text-eq j name,
  same_text-eq name k,
  same_text-eq j k,
  same_text_refl k,
  same_text_refl name,
  field-put_version k name v m,
)

field-row :
    (k : Text) (r : Row) (m : Content)
    → field k (if is_installed r then put_version r.name r.version m else m)
      ≡ (if is_installed r && same_text r.name k then some r.version else field k m)
field-row k r m = elim (Bool-cases (is_installed r)) [
  | inl x ↦ rw x (field-put_version k r.name r.version m)
  | inr x ↦ rw x refl
]

field-installed_of :
    (k : Text) (rs : List Row) (m : Content)
    → field k (installed_of rs m) ≡ version_of k rs (field k m)
field-installed_of k [] m = refl
field-installed_of k (r ∷ rs) m =
    field-installed_of k rs (if is_installed r then put_version r.name r.version m else m)
    ∙ ap (version_of k rs) (field-row k r m)

-- The status file cannot be looked at, or was changed after the report was made.
abbrev pub IsStale : Option ℕ → Report → Type 0
IsStale none old = Unit
IsStale (some changed) old = old.timestamp < changed

stale-renewed : (mtime : Option ℕ) (old : Report) → IsStale mtime old → is_fresh mtime old ≡ false
stale-renewed none old h = refl
stale-renewed (some changed) old h = ground (arith, h)

-- If there is no report, or the status file is newer than it or cannot be looked at, the report is made
-- anew of the rows that dpkg prints: each package has the version in the last row in which it is wanted
-- installed, installed and in order. Later calls give the same, whatever dpkg would print, as long as the status file is
-- not newer than that.
pub dpkg_installed-report :
    (rows : List Row) (mtime : Option ℕ) (now : ℕ) (old : Report) (m later : ℕ)
    (query : Error ⊎ Text)
    → All IsRow rows
    → IsStale mtime old
    → m ≤ now
    → let report : Report = record { timestamp = now; versions = installed_of rows [] } in
      ((name : Text) → field name report.versions ≡ version_of name rows none)
      × (dpkg_installed mtime now (inr (print_rows rows)) none ≡ (ok report.versions, some report))
      × (dpkg_installed mtime now (inr (print_rows rows)) (some old)
          ≡ (ok report.versions, some report))
      × (dpkg_installed (some m) later query (some report) ≡ (ok report.versions, some report))
unfolding dpkg_installed field
dpkg_installed-report rows mtime now old m later query h outdated le =
    let stale = stale-renewed mtime old outdated in
    let read = read_rows-print_rows rows [] h in
    (λ name. field-installed_of name rows [], rw read refl, rw (stale, read) refl, ground arith)
