-- ===== src/Apt/Stanza/Print.antt =====
-- addons/bootstrap/apt/deb822.go: what `FormatDeb822Stanza` prints of a map.
use mathlib.Core.List.{append_assoc}
use gdev.Base.{
  ◌≡◌, refl, sym, ap, ◌∙◌, true, false, not, ◌&&◌, ◌||◌, none, some, List, [], ◌∷◌, ◌++◌, map,
  if◌then◌else◌, arith, inl, inr, Bool-cases,
}
use gdev.Apt.Text.{Text, same_text, same_text-eq, same_text_refl, is_empty}
use gdev.Apt.Stanza.{Content, field, has, filled, select, extra_keys, print_entries}

-- The keys differ from each other.
abbrev pub Differ : List Text → Type 0
Differ [] = Unit
Differ (k ∷ ks) = (has k ks ≡ false) × Differ ks

abbrev pub keys : Content → List Text
keys = map (λ e. e.0)

pub print_entries-append :
    (a b : Content) → print_entries (a ++ b) ≡ print_entries a ++ print_entries b
unfolding print_entries
print_entries-append [] b = refl
print_entries-append ((k, v) ∷ a) b =
    ap (λ z. k ++ 58 ∷ 32 ∷ v ++ 10 ∷ z) (print_entries-append a b)
    ∙ sym (append_assoc (k ++ 58 ∷ 32 ∷ v) (10 ∷ print_entries a) (print_entries b))

pub select-none :
    (content : Content) (k : Text) (ks : List Text)
    → filled (field k content) ≡ none
    → select content (k ∷ ks) ≡ select content ks
unfolding select
select-none content k ks e = ground (arith, e)

pub select-some :
    (content : Content) (k v : Text) (ks : List Text)
    → filled (field k content) ≡ some v
    → select content (k ∷ ks) ≡ (k, v) ∷ select content ks
unfolding select
select-some content k v ks e = ground (arith, e)

pub select-append :
    (content : Content) (xs ys : List Text)
    → select content (xs ++ ys) ≡ select content xs ++ select content ys
unfolding select
select-append content [] ys = refl
select-append content (k ∷ xs) ys = ground (arith, select-append content xs ys)

pub field-select :
    (content : Content) (k : Text) (ks : List Text)
    → field k (select content ks) ≡ (if has k ks then filled (field k content) else none)
unfolding select field has
field-select content k [] = refl
field-select content k (x ∷ ks) = elim (Bool-cases (same_text x k)) [
  | inl e ↦ let q = same_text-eq x k e in ground (arith, e, q, field-select content k ks)
  | inr e ↦ ground (arith, e, field-select content k ks)
]

pub has-append : (k : Text) (xs ys : List Text) → has k (xs ++ ys) ≡ (has k xs || has k ys)
unfolding has
has-append k [] ys = refl
has-append k (x ∷ xs) ys = ground (arith, has-append k xs ys)

has-same : (a b : Text) (ks : List Text) → same_text a b ≡ true → has a ks ≡ has b ks
has-same a b ks h = ap (λ k. has k ks) (same_text-eq a b h)

pub Differ-append :
    (xs ys : List Text)
    → Differ xs
    → Differ ys
    → ((k : Text) → has k ys ≡ true → has k xs ≡ false)
    → Differ (xs ++ ys)
unfolding has
Differ-append [] ys dx dy h = dy
Differ-append (x ∷ xs) ys (n, dx) dy h = (
  ground (arith, has-append x xs ys, h x, same_text_refl x),
  Differ-append xs ys dx dy (λ k m. ground (arith, h k m)),
)

module _ (first : List Text) where
  -- The other keys are not among the first ones, are keys of the content, and have a value.
  pub has-extra_keys :
      (k : Text) (content : Content)
      → has k (extra_keys first content) ≡ true
      → (has k first ≡ false) × (has k (keys content) ≡ true)
  unfolding has extra_keys
  has-extra_keys k [] h = absurd (ground arith)
  has-extra_keys k ((x, v) ∷ content) h =
      ground (arith, has-extra_keys k content, has-same x k first)

  pub extra_keys-Differ :
      (content : Content) → Differ (keys content) → Differ (extra_keys first content)
  unfolding extra_keys
  extra_keys-Differ [] d = tt
  extra_keys-Differ ((x, v) ∷ content) (n, d) =
      elim (Bool-cases (not (has x first) && not (is_empty v))) [
        | inl e ↦ rw e (
          elim (Bool-cases (has x (extra_keys first content))) [
            | inl y ↦ absurd (ground (arith, y, n, has-extra_keys x content y))
            | inr y ↦ y
          ],
          extra_keys-Differ content d,
        )
        | inr e ↦ rw e (extra_keys-Differ content d)
      ]

  -- Each key with a value is among the first ones or the others.
  pub has-filled :
      (k v : Text) (content : Content)
      → filled (field k content) ≡ some v
      → has k first ≡ false
      → has k (extra_keys first content) ≡ true
  unfolding has extra_keys field
  has-filled k v [] h n = absurd (ground arith)
  has-filled k v ((x, []) ∷ content) h n =
      ground (arith, has-filled k v content, has-same x k first)
  has-filled k v ((x, c ∷ t) ∷ content) h n =
      ground (arith, has-filled k v content, has-same x k first)
