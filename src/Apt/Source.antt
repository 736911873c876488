-- ===== src/Apt/Source.antt =====
-- addons/bootstrap/apt/source.go: an APT source, and the map of its stanza.
pub mod Laws
use gdev.Base.{
  ℕ, zero, suc, Bool, true, false, not, ◌&&◌, ◌||◌, Option, none, some, List, [], ◌∷◌, ◌++◌,
  if◌then◌else◌, ◌⊎◌, inl, inr,
}
use gdev.Apt.Text.{Text, same_text, is_empty, join, split, fields}
use gdev.Apt.Stanza.{Content}

pub record Source : Type 0 where
  pub types : List Text
  pub uris : List Text
  pub suites : List Text
  pub components : List Text
  pub architectures : List Text
  pub signed_by : Text

-- `Types`.
abbrev pub types_key : Text
types_key = 84 ∷ 121 ∷ 112 ∷ 101 ∷ 115 ∷ []

-- `URIs`.
abbrev pub uris_key : Text
uris_key = 85 ∷ 82 ∷ 73 ∷ 115 ∷ []

-- `Suites`.
abbrev pub suites_key : Text
suites_key = 83 ∷ 117 ∷ 105 ∷ 116 ∷ 101 ∷ 115 ∷ []

-- `Components`.
abbrev pub components_key : Text
components_key = 67 ∷ 111 ∷ 109 ∷ 112 ∷ 111 ∷ 110 ∷ 101 ∷ 110 ∷ 116 ∷ 115 ∷ []

-- `Architectures`.
abbrev pub architectures_key : Text
architectures_key = 65 ∷ 114 ∷ 99 ∷ 104 ∷ 105 ∷ 116 ∷ 101 ∷ 99 ∷ 116 ∷ 117 ∷ 114 ∷ 101 ∷ 115 ∷ []

-- `Signed-By`.
abbrev pub signed_by_key : Text
signed_by_key = 83 ∷ 105 ∷ 103 ∷ 110 ∷ 101 ∷ 100 ∷ 45 ∷ 66 ∷ 121 ∷ []

-- `Enabled`.
abbrev pub enabled_key : Text
enabled_key = 69 ∷ 110 ∷ 97 ∷ 98 ∷ 108 ∷ 101 ∷ 100 ∷ []

-- `yes`.
abbrev pub yes : Text
yes = 121 ∷ 101 ∷ 115 ∷ []

-- `deb`.
abbrev pub deb : Text
deb = 100 ∷ 101 ∷ 98 ∷ []

-- `deb822SourcesFirstKeys`.
abbrev pub first_keys : List Text
first_keys =
    types_key ∷ uris_key ∷ suites_key ∷ components_key ∷ architectures_key ∷ signed_by_key ∷ []

unfoldable pub with_type : List Text → Source → Source
with_type more s = record s { types = s.types ++ more }

unfoldable pub with_uri : List Text → Source → Source
with_uri more s = record s { uris = s.uris ++ more }

unfoldable pub with_suite : List Text → Source → Source
with_suite more s = record s { suites = s.suites ++ more }

unfoldable pub with_component : List Text → Source → Source
with_component more s = record s { components = s.components ++ more }

unfoldable pub with_architecture : List Text → Source → Source
with_architecture more s = record s { architectures = s.architectures ++ more }

unfoldable pub with_signed_by : Text → Source → Source
with_signed_by name s = record s { signed_by = name }

-- `defaults`, which the calls that print a source make first: it changes the source.
unfoldable pub defaults : Source → Source
defaults s = elim s.types [ [] ↦ record s { types = deb ∷ [] } | _ ∷ _ ↦ s ]

abbrev pub entry : Text → ℕ → List Text → Content
entry key sep [] = []
entry key sep (w ∷ ws) = (key, join sep (w ∷ ws)) ∷ []

abbrev pub text_entry : Text → Text → Content
text_entry key [] = []
text_entry key (c ∷ t) = (key, c ∷ t) ∷ []

-- The entries of the fields that have a value.
unfoldable pub entries : Source → Content
entries s =
    entry types_key 32 s.types
    ++ (entry uris_key 32 s.uris
        ++ (entry suites_key 32 s.suites
            ++ (entry components_key 32 s.components
                ++ (entry architectures_key 44 s.architectures
                    ++ text_entry signed_by_key s.signed_by))))

-- `ToDeb822`: the map, and the source with its defaults.
unfoldable pub to_deb822 : Source → Content × Source
unfolding defaults entries
to_deb822 s = let s' = defaults s in (entries s' ++ (enabled_key, yes) ∷ [], s')

abbrev pub empty_source : Source
empty_source = record {
  types = [];
  uris = [];
  suites = [];
  components = [];
  architectures = [];
  signed_by = [];
}

module _ (space : ℕ → Bool) where
  -- One turn of the loop of `FromDeb822`; the error is the unknown key.
  unfoldable pub set_field : Text → Text → Source → Text ⊎ Source
  set_field key value s =
      if same_text key types_key
      then inr (record s { types = fields space value })
      else if same_text key uris_key
      then inr (record s { uris = fields space value })
      else if same_text key suites_key
      then inr (record s { suites = fields space value })
      else if same_text key components_key
      then inr (record s { components = fields space value })
      else if same_text key architectures_key
      then inr (record s { architectures = split 44 value })
      else if same_text key signed_by_key
      then inr (record s { signed_by = value })
      else inl key

  unfoldable pub set_fields : Content → Source → Text ⊎ Source
  set_fields [] s = inr s
  set_fields ((key, value) ∷ content) s = elim (set_field key value s) [
    | inl e ↦ inl e
    | inr s' ↦ set_fields content s'
  ]

  unfoldable pub from_deb822 : Content → Text ⊎ Source
  unfolding set_fields
  from_deb822 content = set_fields content empty_source

abbrev is_nil : List Text → Bool
is_nil [] = true
is_nil (x ∷ xs) = false

-- `validate`: a field is missing.
unfoldable pub is_valid : Source → Bool
is_valid s = not (is_nil s.uris) && not (is_nil s.suites) && not (is_nil s.components)

unfoldable pub same_texts : List Text → List Text → Bool
same_texts [] [] = true
same_texts [] (y ∷ ys) = false
same_texts (x ∷ xs) [] = false
same_texts (x ∷ xs) (y ∷ ys) = same_text x y && same_texts xs ys

-- `Equal`.
unfoldable pub equal : Source → Source → Bool
equal a b =
    same_texts a.types b.types
    && same_texts a.uris b.uris
    && same_texts a.suites b.suites
    && same_texts a.components b.components
    && same_texts a.architectures b.architectures
    && same_text a.signed_by b.signed_by

-- `arch=` and `signed-by=`.
abbrev arch_option : Text
arch_option = 97 ∷ 114 ∷ 99 ∷ 104 ∷ 61 ∷ []

abbrev signed_by_option : Text
signed_by_option = 115 ∷ 105 ∷ 103 ∷ 110 ∷ 101 ∷ 100 ∷ 45 ∷ 98 ∷ 121 ∷ 61 ∷ []

abbrev options : Source → Text
options s =
    (if is_nil s.architectures then [] else arch_option ++ join 44 s.architectures)
    ++ (if is_empty s.signed_by
        then []
        else (if is_nil s.architectures then [] else 32 ∷ []) ++ (signed_by_option ++ s.signed_by))

abbrev bracketed : Source → Text
bracketed s =
    if is_nil s.architectures && is_empty s.signed_by then [] else 91 ∷ (options s ++ 93 ∷ 32 ∷ [])

-- One line of `ToList`.
unfoldable pub list_line : Source → Text → Text → Text → Text
list_line s type uri suite =
    type
    ++ (32
        ∷ (bracketed s
            ++ (uri
                ++ (32
                    ∷ (suite
                        ++ ((if is_nil s.components then [] else 32 ∷ join 32 s.components)
                            ++ 10 ∷ []))))))

abbrev concat_map : (Text → Text) → List Text → Text
concat_map f [] = []
concat_map f (w ∷ ws) = f w ++ concat_map f ws

-- `ToList`, with the source that has its defaults.
unfoldable pub to_list : Source → Text × Source
unfolding defaults list_line
to_list s =
    let s' = defaults s in
    (
      concat_map
          (λ t. concat_map (λ u. concat_map (λ suite. list_line s' t u suite) s'.suites) s'.uris)
          s'.types,
      s',
    )
