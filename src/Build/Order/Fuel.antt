-- ===== src/Build/Order/Fuel.antt =====
-- addons/build/addon.go: the search for cycles ends.
use gdev.Base.{
  ℕ, zero, suc, ◌≤◌, ◌<◌, String, ◌≡◌, ◌≢◌, refl, ap, subst, true, false, List, [], ◌∷◌, ◌++◌, map,
  length, All, All-In, In, inl, inr, Bool-cases, arith, eq_iff,
}
use gdev.Base.Dict.{Dict}
use gdev.Base.Names.{contains, contains-append, without}
use gdev.Build.Strategy.{
  Strategy, State, Visit, ok, cycle, no_fuel, visit_list, after_visit, visit, placed, superseded_by,
  resolve_strategy_order,
}

length-without_more :
    (xs path : List String) (n : String)
    → length (without xs (path ++ n ∷ [])) ≤ length (without xs path)
unfolding without contains
length-without_more [] path n = omega arith
length-without_more (x ∷ xs) path n =
    ground (arith, contains-append path (n ∷ []) x, length-without_more xs path n)

length-without_less :
    (xs path : List String) (n : String)
    → In n xs
    → contains path n ≡ false
    → length (without xs (path ++ n ∷ [])) < length (without xs path)
unfolding without contains
length-without_less [] path n m h = elim m [ ]
length-without_less (x ∷ xs) path n (inl e) h = ground (
  arith,
  contains-append path (n ∷ []) x,
  length-without_more xs path n,
  eq_iff n x,
  ap (contains path) e,
)
length-without_less (x ∷ xs) path n (inr m) h =
    ground (arith, contains-append path (n ∷ []) x, length-without_less xs path n m h)

length-without_nil : (xs : List String) → length (without xs []) ≡ length xs
unfolding without contains
length-without_nil [] = refl
length-without_nil (x ∷ xs) = ground (arith, length-without_nil xs)

module _ (sup : String → List String) (all : List String)
    (closed : (n : String) → All (λ m. In m all) (sup n)) where
  abbrev Ends : (String → List String → State → Visit) → List String → Type 0
  Ends v path = (n : String) (st : State) → In n all → v n path st ≢ no_fuel

  after_visit-Ends :
      (next : State → Visit) (v : Visit)
      → v ≢ no_fuel
      → ((st : State) → next st ≢ no_fuel)
      → after_visit next v ≢ no_fuel
  after_visit-Ends next (ok st) h k = k st
  after_visit-Ends next (cycle p) h k = λ e. cc
  after_visit-Ends next no_fuel h k = absurd (h refl)

  placed-ends : (name : String) (v : Visit) → v ≢ no_fuel → placed name v ≢ no_fuel
  placed-ends name (ok st) h = λ e. cc
  placed-ends name (cycle p) h = λ e. cc
  placed-ends name no_fuel h = absurd (h refl)

  visit_list-Ends :
      (v : String → List String → State → Visit) (path : List String)
      → Ends v path
      → (ns : List String) (st : State) → All (λ m. In m all) ns
      → visit_list v ns path st ≢ no_fuel
  unfolding visit_list
  visit_list-Ends v path k [] st h = λ e. cc
  visit_list-Ends v path k (n ∷ ns) st h =
      after_visit-Ends (visit_list v ns path) (v n path st) (k n st h.0)
        λ st'. visit_list-Ends v path k ns st' h.1

  visit-Ends :
      (fuel : ℕ) (path : List String)
      → length (without all path) < fuel
      → Ends (visit sup fuel) path
  unfolding visit
  visit-Ends zero path b n st m = elim b [ ]
  visit-Ends (suc fuel) path b n st m = elim (Bool-cases (contains path n)) [
    | inl x ↦ λ e. ground arith
    | inr x ↦
        let rest = placed-ends n _ (
          visit_list-Ends (visit sup fuel) (path ++ n ∷ [])
            (visit-Ends fuel (path ++ n ∷ []) (omega (arith, length-without_less all path n m x)))
            (sup n) (record st { seen = n ∷ st.seen }) (closed n)) in
        elim (Bool-cases (contains st.seen n)) [
          | inl y ↦ λ e. ground arith
          | inr y ↦ λ e. rest (ground arith)
        ]
  ]

names_of : {B : Type 0} → Dict (Strategy B) → List String
names_of = map (λ s. s.0)

length-names_of : {B : Type 0} (ss : Dict (Strategy B)) → length (names_of ss) ≡ length ss
unfolding names_of
length-names_of [] = refl
length-names_of (s ∷ ss) = ap suc (length-names_of ss)

superseded_by-In :
    {B : Type 0} (ss : Dict (Strategy B)) (name n : String)
    → In n (superseded_by ss name)
    → In n (names_of ss)
unfolding superseded_by names_of
superseded_by-In [] name n m = m
superseded_by-In ((k, s) ∷ ss) name n m = elim (Bool-cases (contains s.supersedes name)) [
  | inl x ↦
      let q : In n (k ∷ superseded_by ss name) = subst (In n) (yes x) m in
      elim q [ inl e ↦ inl e | inr o ↦ inr (superseded_by-In ss name n o) ]
  | inr x ↦
      let q : In n (superseded_by ss name) = subst (In n) (nope x) m in
      inr (superseded_by-In ss name n q)
]
  where
    yes :
        contains s.supersedes name ≡ true
        → superseded_by ((k, s) ∷ ss) name ≡ k ∷ superseded_by ss name
    yes x = ground arith

    nope :
        contains s.supersedes name ≡ false
        → superseded_by ((k, s) ∷ ss) name ≡ superseded_by ss name
    nope x = ground arith

-- With a sort that keeps the members of a list, the search always ends: with an order or a cycle.
pub resolve_strategy_order-ends :
    {B : Type 0} (sort : List String → List String) (ss : Dict (Strategy B))
    → ((xs : List String) (n : String) → In n (sort xs) → In n xs)
    → resolve_strategy_order sort ss ≢ no_fuel
unfolding resolve_strategy_order names_of
resolve_strategy_order-ends sort ss h =
    let sup : String → List String = λ n. sort (superseded_by ss n) in
    let all = names_of ss in
    let closed : (n : String) → All (λ m. In m all) (sup n) =
      λ n. All-In _ (sup n) (λ m k. superseded_by-In ss n m (h _ m k)) in
    visit_list-Ends sup all closed (visit sup (suc (length ss))) []
      (visit-Ends sup all closed (suc (length ss)) []
        (omega (arith, length-without_nil all, length-names_of ss)))
      (sort all) (record { seen = []; order = [] }) (All-In _ (sort all) (λ m k. h all m k))
