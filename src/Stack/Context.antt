-- ===== src/Stack/Context.antt =====
-- resource/context.go: the context that carries one value of each registered type.
--
-- A type is named by its key. `V` holds a value of any type. An initializer answers with a value or an
-- error; the outer `none` is a panic. The order of the entries is that of the iteration over the map.
use gdev.Base.{
  String, ◌≡◌, refl, Bool, true, false, Option, none, some, List, [], ◌∷◌, is_some, if◌then◌else◌,
  arith, ◌⊎◌, inl, inr, eq_iff, Option-cases,
}
use gdev.Base.Dict.{Dict, lookup, insert, lookup-insert}

pub record ResourceContext (V : Type 0) : Type 0 where
  pub entries : Dict V
  pub dry_run : Bool

abbrev pub Initializer : Type 0 → Type 0
Initializer V = ResourceContext V → String ⊎ V

pub data ResourceOption (V : Type 0) : Type 0 where
  with_dry_run : ResourceOption V
  with_value : String → V → ResourceOption V

module _ {V : Type 0} where
  -- `AddContextEntry`.
  unfoldable pub add_context_entry :
      String → Initializer V → Dict (Initializer V) → Option (Dict (Initializer V))
  add_context_entry key f registered =
      if is_some (lookup key registered) then none else some (insert key f registered)

  unfoldable pub apply_resource_option :
      ResourceOption V → ResourceContext V → Option (ResourceContext V)
  apply_resource_option with_dry_run c = some (record c { dry_run = true })
  apply_resource_option (with_value key v) c =
      if is_some (lookup key c.entries)
      then none
      else some (record c { entries = insert key v c.entries })

  abbrev apply_all : List (ResourceOption V) → ResourceContext V → Option (ResourceContext V)
  apply_all [] c = some c
  apply_all (o ∷ os) c = elim (apply_resource_option o c) [
    | none ↦ none
    | some c' ↦ apply_all os c'
  ]

  unfoldable pub new_empty_context : List (ResourceOption V) → Option (ResourceContext V)
  new_empty_context opts = apply_all opts (record { entries = []; dry_run = false })

  unfoldable pub initialize_all :
      Dict (Initializer V) → ResourceContext V → String ⊎ ResourceContext V
  initialize_all [] c = inr c
  initialize_all ((key, f) ∷ registered) c = elim (f c) [
    | inl e ↦ inl e
    | inr v ↦ initialize_all registered (record c { entries = insert key v c.entries })
  ]

  -- `NewContext`.
  unfoldable pub new_resource_context :
      Dict (Initializer V) → List (ResourceOption V) → Option (String ⊎ ResourceContext V)
  new_resource_context registered opts = elim (new_empty_context opts) [
    | none ↦ none
    | some c ↦ some (initialize_all registered c)
  ]

  -- `ContextValue`, on a resource context: a value that is not there yet is made and kept.
  unfoldable pub context_value :
      Dict (Initializer V) → String → ResourceContext V → Option (V × ResourceContext V)
  context_value registered key c = elim (lookup key c.entries) [
    | some v ↦ some (v, c)
    | none ↦ elim (lookup key registered) [
      | none ↦ none
      | some f ↦ elim (f c) [
        | inl e ↦ none
        | inr v ↦ some (v, record c { entries = insert key v c.entries })
      ]
    ]
  ]

  abbrev with_entry : String → V → ResourceContext V → ResourceContext V
  with_entry key v c = record c { entries = insert key v c.entries }

  initialize_all-first :
      (key : String) (f : Initializer V) (registered : Dict (Initializer V))
      (c c' : ResourceContext V)
      → initialize_all ((key, f) ∷ registered) c ≡ inr c'
      → (v : V) × (initialize_all registered (with_entry key v c) ≡ inr c')
  unfolding initialize_all
  initialize_all-first key f registered c c' e = split (f c) refl
    where
      split :
          (r : String ⊎ V)
          → f c ≡ r
          → (v : V) × (initialize_all registered (with_entry key v c) ≡ inr c')
      split (inl err) x = absurd (ground (arith, x))
      split (inr v) x = (v, ground (arith, x))

  has_entry-insert :
      (key other : String) (v : V) (d : Dict V)
      → (key ≡ other) ⊎ (is_some (lookup other d) ≡ true)
      → is_some (lookup other (insert key v d)) ≡ true
  has_entry-insert key other v d h = ground (arith, lookup-insert key other v d, eq_iff key other)

  -- A key has a value once it was given one or is still to be initialized.
  initialize_all-has :
      (registered : Dict (Initializer V)) (key : String) (c c' : ResourceContext V)
      → initialize_all registered c ≡ inr c'
      → (is_some (lookup key registered) ≡ true) ⊎ (is_some (lookup key c.entries) ≡ true)
      → is_some (lookup key c'.entries) ≡ true
  unfolding initialize_all lookup
  initialize_all-has [] key c c' e h = ground arith
  initialize_all-has ((k, f) ∷ registered) key c c' e h =
      let (v, x) = initialize_all-first k f registered c c' e in
      initialize_all-has registered key (with_entry k v c) c' x
        (ground (arith, has_entry-insert k key v c.entries, eq_iff k key))

  -- In a context that NewContext made without an error each registered type has a value, and
  -- ContextValue answers with it: it neither panics nor initializes anything again.
  pub context_value-new_context :
      (registered : Dict (Initializer V)) (opts : List (ResourceOption V)) (key : String)
      (c : ResourceContext V)
      → new_resource_context registered opts ≡ some (inr c)
      → is_some (lookup key registered) ≡ true
      → (v : V) × (context_value registered key c ≡ some (v, c))
  unfolding new_resource_context context_value
  context_value-new_context registered opts key c e h =
      elim (Option-cases (new_empty_context opts)) [
        | inl x ↦ absurd (ground (arith, x))
        | inr (start, x) ↦
            found key (initialize_all-has registered key start c (ground (arith, x)) (inl h))
      ]
    where
      found :
          (k : String)
          → is_some (lookup k c.entries) ≡ true
          → (v : V) × (context_value registered k c ≡ some (v, c))
      found k has = elim (Option-cases (lookup k c.entries)) [
        | inl x ↦ absurd (ground (arith, x))
        | inr (v, x) ↦ (v, ground (arith, x))
      ]
