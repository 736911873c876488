-- ===== src/Apt/Stanza/RoundTrip.antt =====
-- addons/bootstrap/apt/deb822.go: a stanza is read back as it was printed.
use mathlib.Core.Option.{some-injective}
use gdev.Base.{
  ℕ, ◌≡◌, refl, sym, ap, ◌∙◌, Bool, false, none, some, List, [], ◌∷◌, ◌++◌, if◌then◌else◌, arith,
  inl, inr, ◌⊎◌, Bool-cases, Option-cases, subst, All,
}
use gdev.Apt.Text.{Text, same_text, same_text-eq, same_text_refl, Spaces}
use gdev.Apt.Stanza.{
  Content, field, has, filled, select, extra_keys, print_entries, format_stanza, parse_stanza,
}
use gdev.Apt.Stanza.Print.{
  Differ, keys, print_entries-append, select-append, field-select, select-none, select-some,
  Differ-append, has-extra_keys, extra_keys-Differ, has-filled, has-append,
}
use gdev.Apt.Stanza.Parse.{IsKey, IsValue, IsEntry, Fresh, parse-print_entries}

-- What is needed of `slices.Sort`: the same keys, each once.
pub record Sorts (sort : List Text → List Text) : Type 0 where
  pub differ : (ks : List Text) → Differ ks → Differ (sort ks)
  pub same : (k : Text) (ks : List Text) → has k (sort ks) ≡ has k ks

-- A key that can be read, and a value that is empty or can be read.
abbrev pub IsLine : (ℕ → Bool) → Text × Text → Type 0
IsLine space (k, v) = IsKey space k × ((v ≡ []) ⊎ IsValue space v)

-- A map that can be printed: its keys differ, and its entries can be read.
pub record IsStanza (space : ℕ → Bool) (content : Content) : Type 0 where
  pub differ : Differ (keys content)
  pub lines : All (IsLine space) content

field-last :
    (before : Content) (k x v : Text)
    → field k before ≡ none
    → same_text x k ≡ false
    → field k (before ++ (x, v) ∷ []) ≡ none
unfolding field
field-last [] k x v h n = ground arith
field-last ((y, w) ∷ before) k x v h n = ground (arith, field-last before k x v)

abbrev AllNew : Content → List Text → Type 0
AllNew before = All (λ k. field k before ≡ none)

AllNew-last :
    (before : Content) (x v : Text) (ks : List Text)
    → AllNew before ks
    → has x ks ≡ false
    → AllNew (before ++ (x, v) ∷ []) ks
unfolding has
AllNew-last before x v [] h n = tt
AllNew-last before x v (k ∷ ks) (h, hs) n = (
  field-last before k x v h (ground (arith, n, same_text-eq x k, same_text_refl x)),
  AllNew-last before x v ks hs (ground arith),
)

select-Fresh :
    (content before : Content) (ks : List Text)
    → Differ ks
    → AllNew before ks
    → Fresh before (select content ks)
unfolding select
select-Fresh content before [] d h = tt
select-Fresh content before (k ∷ ks) (n, d) (h, hs) =
    elim (Option-cases (filled (field k content))) [
      | inl x ↦ rw (select-none content k ks x) (select-Fresh content before ks d hs)
      | inr (v, x) ↦ rw (select-some content k v ks x) (
        ground (arith, h),
        select-Fresh content (before ++ (k, v) ∷ []) ks d (AllNew-last before k v ks hs n),
      )
    ]

AllNew-empty : (ks : List Text) → AllNew [] ks
unfolding field
AllNew-empty [] = tt
AllNew-empty (k ∷ ks) = (refl, AllNew-empty ks)

module _ (space : ℕ → Bool) where
  filled-IsValue :
      (w v : Text) → (w ≡ []) ⊎ IsValue space w → filled (some w) ≡ some v → IsValue space v
  filled-IsValue [] v h e = absurd (ground arith)
  filled-IsValue (c ∷ w) v (inl x) e = absurd (ground arith)
  filled-IsValue (c ∷ w) v (inr x) e = subst (IsValue space) (some-injective _ _ e) x

  filled-IsEntry :
      (k v : Text) (content : Content)
      → All (IsLine space) content
      → filled (field k content) ≡ some v
      → IsEntry space (k, v)
  unfolding field
  filled-IsEntry k v [] h e = absurd (ground arith)
  filled-IsEntry k v ((x, w) ∷ content) (h, hs) e = elim (Bool-cases (same_text x k)) [
    | inl y ↦
        (subst (IsKey space) (same_text-eq x k y) h.0, filled-IsValue w v h.1 (ground (arith, y)))
    | inr y ↦ filled-IsEntry k v content hs (ground (arith, y))
  ]

  select-IsEntry :
      (content : Content) (ks : List Text)
      → All (IsLine space) content
      → All (IsEntry space) (select content ks)
  unfolding select
  select-IsEntry content [] h = tt
  select-IsEntry content (k ∷ ks) h = elim (Option-cases (filled (field k content))) [
    | inl x ↦ rw (select-none content k ks x) (select-IsEntry content ks h)
    | inr (v, x) ↦
        rw (select-some content k v ks x)
          (filled-IsEntry k v content h x, select-IsEntry content ks h)
  ]

module _ (space : ℕ → Bool) (sort : List Text → List Text) (spaces : Spaces space)
    (sorts : Sorts sort) where
  abbrev printed_keys : Content → List Text → List Text
  printed_keys content first = first ++ sort (extra_keys first content)

  format-entries :
      (content : Content) (first : List Text)
      → format_stanza sort content first
        ≡ print_entries (select content (printed_keys content first))
  unfolding format_stanza
  format-entries content first = sym (
      ap print_entries (select-append content first (sort (extra_keys first content)))
      ∙ print_entries-append (select content first)
          (select content (sort (extra_keys first content))))

  printed_keys-Differ :
      (content : Content) (first : List Text)
      → Differ (keys content)
      → Differ first
      → Differ (printed_keys content first)
  printed_keys-Differ content first dc df =
      Differ-append first (sort (extra_keys first content)) df
        (sorts.differ (extra_keys first content) (extra_keys-Differ first content dc))
        (λ k m.
          (has-extra_keys first k content (sym (sorts.same k (extra_keys first content)) ∙ m)).0)

  printed-all :
      (content : Content) (first : List Text) (k : Text)
      → (if has k (printed_keys content first) then filled (field k content) else none)
        ≡ filled (field k content)
  printed-all content first k = elim (Option-cases (filled (field k content))) [
    | inl x ↦ ground (arith, x)
    | inr (v, x) ↦ ground (
      arith,
      x,
      has-append k first (sort (extra_keys first content)),
      sorts.same k (extra_keys first content),
      has-filled first k v content x,
    )
  ]

  -- A map of keys and one-line values that is printed reads back as its entries with a value.
  pub parse-format_stanza :
      (content : Content) (first : List Text)
      → IsStanza space content
      → Differ first
      → (parsed : Content) × ((parse_stanza space (format_stanza sort content first) ≡ inr parsed)
          × ((k : Text) → field k parsed ≡ filled (field k content)))
  parse-format_stanza content first st d = (
    select content (printed_keys content first),
    (
      ap (parse_stanza space) (format-entries content first)
          ∙ parse-print_entries space spaces (select content (printed_keys content first))
              (select-IsEntry space content (printed_keys content first) st.lines)
              (select-Fresh content [] (printed_keys content first)
                (printed_keys-Differ content first st.differ d)
                (AllNew-empty (printed_keys content first))),
      λ k. field-select content k (printed_keys content first) ∙ printed-all content first k,
    ),
  )
