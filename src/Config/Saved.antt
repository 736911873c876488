-- ===== src/Config/Saved.antt =====
-- lib/config: what is saved is loaded again.
use mathlib.Core.Option
use gdev.Base.{
  String, ◌≡◌, refl, sym, ap, subst, ◌∙◌, true, Option, none, some, [], ◌∷◌, if◌then◌else◌, is_some,
  inl, inr, arith, ◌==◌, eq_iff, Option-cases, Bool-cases, Sum-cases,
}
use gdev.Base.Dict.{Dict, lookup, lookup-insert}
use gdev.Config.{
  Key, Config, ok, Yaml, Faults, text, copy_values, fresh_values, all_known, new_values, load,
  initialize, to_save, save,
}

abbrev pub or_else : {A : Type 0} → Option A → Option A → Option A
or_else none b = b
or_else (some a) b = some a

-- No name stands twice.
abbrev pub Distinct : {A : Type 0} → Dict A → Type 0
Distinct [] = Unit
Distinct ((name, a) ∷ rest) = (lookup name rest ≡ none) × Distinct rest

module _ {V : Type 0} where
  lookup-copy_values :
      (name : String) (new values : Dict V)
      → lookup name (copy_values new values) ≡ or_else (lookup name new) (lookup name values)
  unfolding copy_values lookup
  lookup-copy_values name [] values = refl
  lookup-copy_values name ((other, v) ∷ new) values = ground (
    arith,
    lookup-insert other name v (copy_values new values),
    lookup-copy_values name new values,
  )

module _ {V R : Type 0} (raw : V → R) where
  -- The file of a map of values.
  abbrev pub raws : Dict V → Dict R
  raws [] = []
  raws ((name, v) ∷ values) = (name, raw v) ∷ raws values

  -- A key reads what it wrote, and only its own fresh value is a default.
  abbrev pub IsKept : Key V R → Type 0
  IsKept k =
      ((v : V) → k.new_from (raw v) ≡ inr v) × ((v : V) → k.is_default v ≡ true → v ≡ k.fresh)

  -- Values for the registered keys, and for no others.
  abbrev pub IsFor : Dict (Key V R) → Dict V → Type 0
  IsFor keys values = (name : String) → is_some (lookup name values) ≡ is_some (lookup name keys)

  abbrev pub AllKept : Dict (Key V R) → Type 0
  AllKept keys = (name : String) (k : Key V R) → lookup name keys ≡ some k → IsKept k

  abbrev keeps : Option (Key V R) → Option V → Option V
  keeps none o = none
  keeps (some k) none = none
  keeps (some k) (some v) = if k.is_default v then none else some v

  -- A saved entry: its key, and what is saved of the rest.
  abbrev Entry : Dict (Key V R) → String → V → Dict V → Dict V → Type 0
  Entry keys name v values saved =
      (k : Key V R) × (lookup name keys ≡ some k)
      × ((rest : Dict V) × (to_save keys values ≡ some rest)
          × (saved ≡ (if k.is_default v then rest else (name, v) ∷ rest)))

  to_save-cons :
      (keys : Dict (Key V R)) (name : String) (v : V) (values saved : Dict V)
      → to_save keys ((name, v) ∷ values) ≡ some saved
      → Entry keys name v values saved
  unfolding to_save
  to_save-cons keys name v values saved e = elim (Option-cases (lookup name keys)) [
    | inl a ↦ absurd (ground (arith, a, e))
    | inr (k, a) ↦ elim (Option-cases (to_save keys values)) [
      | inl b ↦ absurd (ground (arith, a, b, e))
      | inr (rest, b) ↦ (k, a, (rest, b, ground (arith, a, b, e)))
    ]
  ]

  lookup-to_save :
      (keys : Dict (Key V R)) (values saved : Dict V) (name : String)
      → Distinct values
      → to_save keys values ≡ some saved
      → lookup name saved ≡ keeps (lookup name keys) (lookup name values)
  unfolding to_save lookup
  lookup-to_save keys [] saved name d e = ground (arith, e)
  lookup-to_save keys ((other, v) ∷ values) saved name d e =
      let (k, found, (rest, left, is_eq)) = to_save-cons keys other v values saved e in
      let again = lookup-to_save keys values rest name d.1 left in
      elim (Bool-cases (other == name)) [
        | inl same ↦
            let same' : other ≡ name = (eq_iff other name).0 same in
            let found' : lookup name keys ≡ some k =
              subst (λ n. lookup n keys ≡ some k) same' found in
            let gone : lookup name values ≡ none = subst (λ n. lookup n values ≡ none) same' d.0 in
            let none_left : lookup name rest ≡ none = rw (found', gone) at again in
            rw (same, found', is_eq)
              (elim (Bool-cases (k.is_default v)) [
                | inl drop ↦ rw drop none_left
                | inr keep ↦ rw (keep, lookup, same) refl
              ])
        | inr differs ↦ rw differs (ground (arith, is_eq, again, differs))
      ]

  new_values-raws :
      (keys : Dict (Key V R)) (values saved : Dict V)
      → AllKept keys
      → to_save keys values ≡ some saved
      → (new_values keys (raws saved) ≡ ok saved) × (all_known keys (raws saved) ≡ true)
  unfolding to_save new_values all_known
  new_values-raws keys [] saved kept e =
      let e' : [] ≡ saved = ground (arith, e) in
      subst (λ s. (new_values keys (raws s) ≡ ok s) × (all_known keys (raws s) ≡ true)) e'
        (refl, refl)
  new_values-raws keys ((other, v) ∷ values) saved kept e =
      let (k, found, (rest, left, is_eq)) = to_save-cons keys other v values saved e in
      let (read, known) = new_values-raws keys values rest kept left in
      let kept_v = (kept other k found).0 v in
      rw is_eq (elim (Bool-cases (k.is_default v)) [
        | inl drop ↦ rw drop (read, known)
        | inr keep ↦ rw keep (ground (arith, found, kept_v, read), ground (arith, found, known))
      ])

  lookup-fresh_values :
      (keys : Dict (Key V R)) (name : String)
      → lookup name (fresh_values keys) ≡ Option.map (λ (k : Key V R). k.fresh) (lookup name keys)
  unfolding fresh_values lookup
  lookup-fresh_values [] name = refl
  lookup-fresh_values ((other, k) ∷ keys) name = ground (arith, lookup-fresh_values keys name)

  merged :
      (o : Option (Key V R)) (v : Option V)
      → ((k : Key V R) → o ≡ some k → IsKept k)
      → is_some v ≡ is_some o
      → or_else (keeps o v) (Option.map (λ (k : Key V R). k.fresh) o) ≡ v
  merged none none kept e = refl
  merged none (some v) kept e = cc
  merged (some k) none kept e = cc
  merged (some k) (some v) kept e = elim (Bool-cases (k.is_default v)) [
    | inl d ↦ rw d (ap some (sym ((kept k refl).1 v d)))
    | inr d ↦ rw d refl
  ]

  module _ (yaml : Yaml V R) where
    save-ok :
        (f : Faults) (c : Config V R) (values : Dict V) (t : String)
        → c.values ≡ some values
        → save yaml f c ≡ ok t
        → (saved : Dict V) × (to_save c.keys values ≡ some saved) × (yaml.encode saved ≡ inr t)
    unfolding save
    save-ok f c values t e s = elim (Option-cases (to_save c.keys values)) [
      | inl a ↦ absurd (ground (arith, a, e, s))
      | inr (saved, a) ↦ elim (Sum-cases (yaml.encode saved)) [
        | inl (x, b) ↦ absurd (ground (arith, a, b, e, s))
        | inr (u, b) ↦ (saved, a, ground (arith, a, b, e, s))
      ]
    ]

    -- If a save has no error, the library reads what it wrote, and each key reads the values that it wrote,
    -- then the next start with that file and the same keys has the value of every key again, whichever of
    -- them were not saved because they are defaults.
    pub initialize-save :
        (f : Faults) (c : Config V R) (values : Dict V) (t : String)
        → AllKept c.keys
        → IsFor c.keys values
        → Distinct values
        → ((m : Dict V) (u : String) → yaml.encode m ≡ inr u → yaml.decode u ≡ inr (raws m))
        → c.values ≡ some values
        → save yaml f c ≡ ok t
        → (now : Dict V) × ((initialize yaml (text t) (record c { values = none })).0 ≡ ok tt)
          × ((initialize yaml (text t) (record c { values = none })).1.values ≡ some now)
          × ((name : String) → lookup name now ≡ lookup name values)
    unfolding initialize load
    initialize-save f c values t kept for d reads e s =
        let (saved, kept_all, printed) = save-ok f c values t e s in
        let (read, known) = new_values-raws c.keys values saved kept kept_all in
        let decoded = reads saved t printed in
        (
          copy_values saved (fresh_values c.keys),
          rw (decoded, load, known, read) refl,
          rw (decoded, load, known, read) refl,
          λ name.
              lookup-copy_values name saved (fresh_values c.keys)
              ∙ rw
                  (
                    lookup-to_save c.keys values saved name d kept_all,
                    lookup-fresh_values c.keys name,
                  )
                  (merged (lookup name c.keys) (lookup name values) (kept name) (for name)),
        )
