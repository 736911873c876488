-- ===== src/Apt/Stanza.antt =====
-- addons/bootstrap/apt/deb822.go: stanzas of `Key: value` lines.
--
-- A Go map is a list of entries with different keys; the parser adds at its end. `space` stands for
-- `unicode.IsSpace`, `sort` for `slices.Sort`.
pub mod Print
pub mod Parse
pub mod RoundTrip
pub mod Split
use gdev.Base.{
  ℕ, zero, suc, Bool, true, false, not, ◌&&◌, ◌||◌, Option, none, some, List, [], ◌∷◌, ◌++◌,
  if◌then◌else◌, eqb, ltb, ◌⊎◌, inl, inr, is_some,
}
use gdev.Apt.Text.{Text, same_text, is_empty, cut, lines_of, has_space, trim_space}

abbrev pub Content : Type 0
Content = List (Text × Text)

unfoldable pub field : Text → Content → Option Text
field key [] = none
field key ((k, v) ∷ content) = if same_text k key then some v else field key content

unfoldable pub has : Text → List Text → Bool
has key [] = false
has key (k ∷ ks) = same_text k key || has key ks

-- A value that is there and not empty.
abbrev pub filled : Option Text → Option Text
filled none = none
filled (some []) = none
filled (some (c ∷ t)) = some (c ∷ t)

-- The entries of the keys that have a value, as the loops of `FormatDeb822Stanza` print them.
unfoldable pub select : Content → List Text → Content
select content [] = []
select content (k ∷ ks) =
    let rest = select content ks in
    elim (filled (field k content)) [ none ↦ rest | some v ↦ (k, v) ∷ rest ]

-- The keys with a value that are not among the first ones.
unfoldable pub extra_keys : List Text → Content → List Text
extra_keys first [] = []
extra_keys first ((k, v) ∷ content) =
    let rest = extra_keys first content in
    if not (has k first) && not (is_empty v) then k ∷ rest else rest

unfoldable pub print_entries : Content → Text
print_entries [] = []
print_entries ((k, v) ∷ es) = k ++ 58 ∷ 32 ∷ v ++ 10 ∷ print_entries es

unfoldable pub format_stanza : (List Text → List Text) → Content → List Text → Text
unfolding select extra_keys print_entries
format_stanza sort content first =
    print_entries (select content first)
    ++ print_entries (select content (sort (extra_keys first content)))

pub data ParseError : Type 0 where
  not_ascii continuation_first no_colon spaced_key duplicate_key : ParseError

-- What was read, and the key of the last entry.
pub record Reading : Type 0 where
  pub content : Content
  pub last_key : Text

unfoldable pub extend_value : Text → Text → Content → Content
extend_value key more [] = (key, 32 ∷ more) ∷ []
extend_value key more ((k, v) ∷ content) =
    let rest = extend_value key more content in
    if same_text k key then (k, v ++ 32 ∷ more) ∷ content else (k, v) ∷ rest

module _ (space : ℕ → Bool) where
  abbrev add_field : Text → Text → Reading → ParseError ⊎ Reading
  add_field key value r =
      if has_space space key
      then inl spaced_key
      else if is_some (field key r.content)
      then inl duplicate_key
      else inr
          (record { content = r.content ++ (key, trim_space space value) ∷ []; last_key = key })

  abbrev read_field : Option (Text × Text) → Reading → ParseError ⊎ Reading
  read_field none r = inl no_colon
  read_field (some (key, value)) r = add_field key value r

  -- One turn of the loop.
  unfoldable pub read_line : Text → Reading → ParseError ⊎ Reading
  read_line [] r = inr r
  read_line (c ∷ t) r =
      if eqb c 35
      then inr r
      else if not (ltb c 128)
      then inl not_ascii
      else if space c
      then (if is_empty r.last_key
          then inl continuation_first
          else inr
              (record r { content = extend_value r.last_key (trim_space space (c ∷ t)) r.content }))
      else read_field (cut 58 (c ∷ t)) r

  unfoldable pub read_lines : List Text → Reading → ParseError ⊎ Reading
  read_lines [] r = inr r
  read_lines (l ∷ ls) r = elim (read_line l r) [ inl e ↦ inl e | inr r' ↦ read_lines ls r' ]

  unfoldable pub parse_stanza : Text → ParseError ⊎ Content
  unfolding read_lines lines_of
  parse_stanza text = elim (read_lines (lines_of text) (record { content = []; last_key = [] })) [
    | inl e ↦ inl e
    | inr r ↦ inr r.content
  ]
