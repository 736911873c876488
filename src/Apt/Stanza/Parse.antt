-- ===== src/Apt/Stanza/Parse.antt =====
-- addons/bootstrap/apt/deb822.go: printed entries are read back.
use mathlib.Core.List.{append-nil, append_assoc}
use gdev.Base.{
  ℕ, ◌≡◌, refl, sym, ◌∙◌, Bool, true, false, [], ◌∷◌, ◌++◌, arith, eqb, ltb, inr, is_some, All,
}
use gdev.Apt.Text.{
  Text, cut-append, lines_of, lines_of-line, has_space, has_char, trim_right, trim_space-value,
  Spaces,
}
use gdev.Apt.Stanza.{Content, field, print_entries, Reading, read_line, read_lines, parse_stanza}

-- The keys differ from each other and from those of the content before.
abbrev pub Fresh : Content → Content → Type 0
Fresh before [] = Unit
Fresh before ((k, v) ∷ es) = (is_some (field k before) ≡ false) × Fresh (before ++ (k, v) ∷ []) es

module _ (space : ℕ → Bool) where
  -- A key that is not read as a comment, a continuation or something else.
  pub record IsKey (key : Text) : Type 0 where
    pub first : ℕ
    pub tail : Text
    pub eq : key ≡ first ∷ tail
    pub no_comment : eqb first 35 ≡ false
    pub ascii : ltb first 128 ≡ true
    pub no_space : has_space space key ≡ false
    pub no_colon : has_char 58 key ≡ false
    pub no_newline : has_char 10 key ≡ false

  -- A value on one line, with no space around it.
  pub record IsValue (value : Text) : Type 0 where
    pub first : ℕ
    pub tail : Text
    pub eq : value ≡ first ∷ tail
    pub no_space : space first ≡ false
    pub no_space_after : trim_right space value ≡ value
    pub no_newline : has_char 10 value ≡ false

  abbrev pub IsEntry : Text × Text → Type 0
  IsEntry (k, v) = IsKey k × IsValue v

module _ (space : ℕ → Bool) (spaces : Spaces space) where
  read_line-at :
      (c : ℕ) (t : Text) (d : ℕ) (u : Text) (r : Reading)
      → eqb c 35 ≡ false
      → ltb c 128 ≡ true
      → has_space space (c ∷ t) ≡ false
      → has_char 58 (c ∷ t) ≡ false
      → space d ≡ false
      → trim_right space (d ∷ u) ≡ d ∷ u
      → is_some (field (c ∷ t) r.content) ≡ false
      → read_line space (c ∷ (t ++ 58 ∷ (32 ∷ d ∷ u ++ 10 ∷ []))) r
        ≡ inr (record { content = r.content ++ (c ∷ t, d ∷ u) ∷ []; last_key = c ∷ t })
  unfolding read_line has_space
  read_line-at c t d u r h1 h2 h3 h4 h5 h6 h7 =
      let x = cut-append 58 (c ∷ t) (32 ∷ d ∷ u ++ 10 ∷ []) h4 in
      let y = trim_space-value space spaces d u h5 h6 in ground (arith, x, y)

  read_line-entry :
      (k v : Text) (r : Reading)
      → IsKey space k
      → IsValue space v
      → is_some (field k r.content) ≡ false
      → read_line space (k ++ 58 ∷ 32 ∷ v ++ 10 ∷ []) r
        ≡ inr (record { content = r.content ++ (k, v) ∷ []; last_key = k })
  read_line-entry [] v r ik iv f = absurd (ground (arith, ik.eq))
  read_line-entry (c ∷ t) [] r ik iv f = absurd (ground (arith, iv.eq))
  read_line-entry (c ∷ t) (d ∷ u) r ik iv f =
      let a : c ≡ ik.first = ground (arith, ik.eq) in
      let b : d ≡ iv.first = ground (arith, iv.eq) in
      rw (append_assoc (c ∷ t) (58 ∷ 32 ∷ d ∷ u) (10 ∷ [])) (
        read_line-at c t d u r (rw a ik.no_comment) (rw a ik.ascii) ik.no_space ik.no_colon
          (rw b iv.no_space) iv.no_space_after f)

has_char-append :
    (c : ℕ) (xs ys : Text)
    → has_char c xs ≡ false
    → has_char c ys ≡ false
    → has_char c (xs ++ ys) ≡ false
unfolding has_char
has_char-append c [] ys h k = k
has_char-append c (x ∷ xs) ys h k = ground (arith, has_char-append c xs ys)

lines_of-entry :
    (k v rest : Text)
    → has_char 10 k ≡ false
    → has_char 10 v ≡ false
    → lines_of (k ++ 58 ∷ 32 ∷ v ++ 10 ∷ rest) ≡ (k ++ 58 ∷ 32 ∷ v ++ 10 ∷ []) ∷ lines_of rest
unfolding has_char
lines_of-entry k v rest hk hv =
    lines_of-line (k ++ 58 ∷ 32 ∷ v) rest
      (has_char-append 10 k (58 ∷ 32 ∷ v) hk (ground (arith, hv)))

module _ (space : ℕ → Bool) (spaces : Spaces space) where
  read_lines-entries :
      (es : Content) (r : Reading)
      → All (IsEntry space) es
      → Fresh r.content es
      → (r' : Reading) × ((read_lines space (lines_of (print_entries es)) r ≡ inr r')
          × (r'.content ≡ r.content ++ es))
  unfolding print_entries read_lines lines_of
  read_lines-entries [] r h f = (r, (refl, sym (append-nil r.content)))
  read_lines-entries ((k, v) ∷ es) r ((ik, iv), h) (f, fs) =
      let r1 : Reading = record { content = r.content ++ (k, v) ∷ []; last_key = k } in
      let (r', (e, c)) = read_lines-entries es r1 h fs in
      (
        r',
        (
          ground (
            arith,
            lines_of-entry k v (print_entries es) ik.no_newline iv.no_newline,
            read_line-entry space spaces k v r ik iv f,
            e,
          ),
          c ∙ append_assoc r.content ((k, v) ∷ []) es,
        ),
      )

  -- Entries with different keys that print on one line each are read back as they were.
  pub parse-print_entries :
      (es : Content)
      → All (IsEntry space) es
      → Fresh [] es
      → parse_stanza space (print_entries es) ≡ inr es
  unfolding parse_stanza
  parse-print_entries es h f =
      let (r', (e, c)) = read_lines-entries es (record { content = []; last_key = [] }) h f in
      ground (arith, e, c)
