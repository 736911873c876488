-- ===== src/Apt/Stanza/Split.antt =====
-- addons/bootstrap/apt/deb822.go: the split of a file into stanzas.
use gdev.Base.{
  ℕ, suc, ◌≡◌, ◌≤◌, ◌+◌, refl, Bool, false, not, ◌&&◌, Option, none, some, [], ◌∷◌, if◌then◌else◌,
  arith, eqb, length, take, take_all, length-take, ap, sym, subst, Bool-cases, Option-cases, inl,
  inr,
}
use gdev.Apt.Text.{Text, is_empty}

abbrev starts_newline : Text → Bool
starts_newline [] = false
starts_newline (c ∷ t) = eqb c 10

-- `bytes.Index` of a double newline.
unfoldable pub index_break : Text → Option ℕ
index_break [] = none
index_break (c ∷ t) =
    let rest = index_break t in
    if eqb c 10 && starts_newline t
    then some 0
    else elim rest [ none ↦ none | some i ↦ some (suc i) ]

-- `Deb822SplitStanza`: how far to advance, and the token.
unfoldable pub split_stanza : Text → Bool → ℕ × Option Text
split_stanza text at_eof = elim (index_break text) [
  | none ↦ if at_eof && not (is_empty text) then (length text, some text) else (0, none)
  | some i ↦ (i + 2, some (take (suc i) text))
]

index_break-bound : (text : Text) (i : ℕ) → index_break text ≡ some i → i + 2 ≤ length text
unfolding index_break
index_break-bound [] i h = absurd (ground arith)
index_break-bound (c ∷ []) i h = absurd (ground arith)
index_break-bound (c ∷ d ∷ t) i h = elim (Option-cases (index_break (d ∷ t))) [
  | inl x ↦ ground (arith, x)
  | inr (j, x) ↦ ground (arith, x, index_break-bound (d ∷ t) j x)
]

-- What a split function promises its scanner.
pub record IsSplit (text : Text) (r : ℕ × Option Text) : Type 0 where
  pub in_bounds : r.0 ≤ length text
  pub no_token : r.1 ≡ none → r.0 ≡ 0
  pub token :
      (t : Text) → r.1 ≡ some t → (t ≡ take (length t) text) × ((1 ≤ length t) × (length t ≤ r.0))

found-IsSplit :
    (text : Text) (i : ℕ)
    → index_break text ≡ some i
    → IsSplit text (i + 2, some (take (suc i) text))
found-IsSplit text i x =
    let b = index_break-bound text i x in
    let l : length (take (suc i) text) ≡ suc i = length-take (suc i) text (omega (arith, b)) in
    record {
      in_bounds = b;
      no_token = λ e. cc;
      token = λ t e.
          let q : t ≡ take (suc i) text = ground arith in
          rw q (ap (λ n. take n text) (sym l), (omega (arith, l), omega (arith, l)));
    }

last-IsSplit : (text : Text) → is_empty text ≡ false → IsSplit text (length text, some text)
last-IsSplit [] h = absurd (ground arith)
last-IsSplit (c ∷ text) h = record {
  in_bounds = omega arith;
  no_token = λ e. cc;
  token = λ t e.
      let q : t ≡ c ∷ text = ground arith in
      rw q (sym (take_all (c ∷ text)), (omega arith, omega arith));
}

none-IsSplit : (text : Text) → IsSplit text (0, none)
none-IsSplit text = record { in_bounds = omega arith; no_token = λ e. refl; token = λ t e. cc }

-- Deb822SplitStanza never advances past the data; a token is a prefix of the data that is not empty and
-- not longer than the advance, and without a token it asks for more.
pub split_stanza-IsSplit : (text : Text) (at_eof : Bool) → IsSplit text (split_stanza text at_eof)
unfolding split_stanza
split_stanza-IsSplit text at_eof = elim (Option-cases (index_break text)) [
  | inr (i, x) ↦ subst (IsSplit text) (sym (ground (arith, x))) (found-IsSplit text i x)
  | inl x ↦ elim (Bool-cases (at_eof && not (is_empty text))) [
    | inl y ↦
        subst (IsSplit text) (sym (ground (arith, x, y))) (last-IsSplit text (ground (arith, y)))
    | inr y ↦ subst (IsSplit text) (sym (ground (arith, x, y))) (none-IsSplit text)
  ]
]
