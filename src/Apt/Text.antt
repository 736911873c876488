-- ===== src/Apt/Text.antt =====
-- The string functions of Go that addons/bootstrap/apt calls, on texts as lists of code points.
-- `space` stands for `unicode.IsSpace`.
use gdev.Base.{
  ℕ, ◌≡◌, refl, Bool, true, false, ◌&&◌, ◌||◌, Option, none, some, List, [], ◌∷◌, ◌++◌,
  if◌then◌else◌, arith, eqb, All, ap, ◌∙◌,
}

abbrev pub Text : Type 0
Text = List ℕ

-- `==`.
unfoldable pub same_text : Text → Text → Bool
same_text [] [] = true
same_text [] (y ∷ ys) = false
same_text (x ∷ xs) [] = false
same_text (x ∷ xs) (y ∷ ys) = eqb x y && same_text xs ys

pub same_text_refl : (t : Text) → same_text t t ≡ true
unfolding same_text
same_text_refl [] = refl
same_text_refl (x ∷ xs) = ground (arith, same_text_refl xs)

pub same_text-eq : (a b : Text) → same_text a b ≡ true → a ≡ b
unfolding same_text
same_text-eq [] [] h = refl
same_text-eq [] (y ∷ ys) h = absurd (ground arith)
same_text-eq (x ∷ xs) [] h = absurd (ground arith)
same_text-eq (x ∷ xs) (y ∷ ys) h = ground (arith, same_text-eq xs ys)

pub same_text-sym : (a b : Text) → same_text a b ≡ same_text b a
unfolding same_text
same_text-sym [] [] = refl
same_text-sym [] (y ∷ ys) = refl
same_text-sym (x ∷ xs) [] = refl
same_text-sym (x ∷ xs) (y ∷ ys) = ground (arith, same_text-sym xs ys)

abbrev pub is_empty : Text → Bool
is_empty [] = true
is_empty (c ∷ t) = false

-- `strings.ContainsRune`.
unfoldable pub has_char : ℕ → Text → Bool
has_char c [] = false
has_char c (x ∷ xs) = eqb x c || has_char c xs

-- `strings.Cut`.
unfoldable pub cut : ℕ → Text → Option (Text × Text)
cut sep [] = none
cut sep (c ∷ t) =
    let rest = cut sep t in
    if eqb c sep
    then some ([], t)
    else elim rest [ none ↦ none | some (front, back) ↦ some (c ∷ front, back) ]

-- `strings.Join` with a separator of one character.
unfoldable pub join : ℕ → List Text → Text
join sep [] = []
join sep (w ∷ ws) = elim ws [ [] ↦ w | _ ∷ _ ↦ w ++ sep ∷ join sep ws ]

-- `strings.Split` at a separator of one character: a text without one is one part.
unfoldable pub split : ℕ → Text → List Text
split sep [] = [] ∷ []
split sep (c ∷ t) =
    let rest = split sep t in
    if eqb c sep then [] ∷ rest else elim rest [ [] ↦ (c ∷ []) ∷ [] | w ∷ ws ↦ (c ∷ w) ∷ ws ]

-- The lines with their ends, as `ReadString('\n')` gives them one after the other.
unfoldable pub lines_of : Text → List Text
lines_of [] = []
lines_of (c ∷ t) =
    let rest = lines_of t in
    if eqb c 10 then (c ∷ []) ∷ rest else elim rest [ [] ↦ (c ∷ []) ∷ [] | l ∷ ls ↦ (c ∷ l) ∷ ls ]

module _ (space : ℕ → Bool) where
  -- `strings.ContainsFunc`.
  unfoldable pub has_space : Text → Bool
  has_space [] = false
  has_space (c ∷ t) = space c || has_space t

  unfoldable pub trim_left : Text → Text
  trim_left [] = []
  trim_left (c ∷ t) = let rest = trim_left t in if space c then rest else c ∷ t

  unfoldable pub trim_right : Text → Text
  trim_right [] = []
  trim_right (c ∷ t) = let rest = trim_right t in if is_empty rest && space c then [] else c ∷ rest

  -- `strings.TrimSpace`.
  unfoldable pub trim_space : Text → Text
  unfolding trim_left trim_right
  trim_space t = trim_right (trim_left t)

  -- `strings.Fields`: the words between spaces.
  abbrev start_word : ℕ → Text → List Text → List Text
  start_word c [] ws = (c ∷ []) ∷ ws
  start_word c (d ∷ t) ws =
      if space d then (c ∷ []) ∷ ws else elim ws [ [] ↦ (c ∷ []) ∷ [] | w ∷ vs ↦ (c ∷ w) ∷ vs ]

  unfoldable pub fields : Text → List Text
  fields [] = []
  fields (c ∷ t) = let rest = fields t in if space c then rest else start_word c t rest

-- What the round trips need of `unicode.IsSpace`: a blank and the end of a line are spaces.
pub record Spaces (space : ℕ → Bool) : Type 0 where
  pub blank : space 32 ≡ true
  pub newline : space 10 ≡ true

pub lines_of-line :
    (line rest : Text)
    → has_char 10 line ≡ false
    → lines_of (line ++ 10 ∷ rest) ≡ (line ++ 10 ∷ []) ∷ lines_of rest
unfolding lines_of has_char
lines_of-line [] rest h = ground arith
lines_of-line (c ∷ line) rest h = ground (arith, lines_of-line line rest)

split-part : (sep : ℕ) (w : Text) → has_char sep w ≡ false → split sep w ≡ w ∷ []
unfolding split has_char
split-part sep [] h = refl
split-part sep (c ∷ w) h = ground (arith, split-part sep w)

split-next :
    (sep : ℕ) (w rest : Text)
    → has_char sep w ≡ false
    → split sep (w ++ sep ∷ rest) ≡ w ∷ split sep rest
unfolding split has_char
split-next sep [] rest h = ground arith
split-next sep (c ∷ w) rest h = ground (arith, split-next sep w rest)

pub split-join :
    (sep : ℕ) (w : Text) (ws : List Text)
    → All (λ a. has_char sep a ≡ false) (w ∷ ws)
    → split sep (join sep (w ∷ ws)) ≡ w ∷ ws
unfolding join
split-join sep w [] h = split-part sep w h.0
split-join sep w (v ∷ ws) h =
    split-next sep w (join sep (v ∷ ws)) h.0 ∙ ap (λ l. w ∷ l) (split-join sep v ws h.1)

pub has_char-append : (c : ℕ) (a b : Text) → has_char c (a ++ b) ≡ (has_char c a || has_char c b)
unfolding has_char
has_char-append c [] b = refl
has_char-append c (x ∷ a) b = ground (arith, has_char-append c a b)

-- No word and no separator is the character.
pub has_char-join :
    (c sep : ℕ) (ws : List Text)
    → eqb sep c ≡ false
    → All (λ w. has_char c w ≡ false) ws
    → has_char c (join sep ws) ≡ false
unfolding has_char join
has_char-join c sep [] s h = refl
has_char-join c sep (w ∷ []) s h = h.0
has_char-join c sep (w ∷ v ∷ ws) s h =
    let rest = has_char-join c sep (v ∷ ws) s h.1 in
    has_char-append c w (sep ∷ join sep (v ∷ ws)) ∙ ground (arith, h.0, s, rest)

pub cut-append :
    (sep : ℕ) (front back : Text)
    → has_char sep front ≡ false
    → cut sep (front ++ sep ∷ back) ≡ some (front, back)
unfolding cut has_char
cut-append sep [] back h = ground arith
cut-append sep (c ∷ front) back h = ground (arith, cut-append sep front back)

module _ (space : ℕ → Bool) (spaces : Spaces space) where
  trim_right-newline : (t : Text) → trim_right space (t ++ 10 ∷ []) ≡ trim_right space t
  unfolding trim_right
  trim_right-newline [] = ground (arith, spaces.newline)
  trim_right-newline (c ∷ t) = ground (arith, trim_right-newline t)

  -- A value as it is printed, with the blank before and the end of the line after it.
  pub trim_space-value :
      (c : ℕ) (t : Text)
      → space c ≡ false
      → trim_right space (c ∷ t) ≡ c ∷ t
      → trim_space space (32 ∷ (c ∷ t) ++ 10 ∷ []) ≡ c ∷ t
  unfolding trim_space trim_left
  trim_space-value c t h e = ground (arith, spaces.blank, trim_right-newline (c ∷ t))
