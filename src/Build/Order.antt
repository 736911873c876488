-- ===== src/Build/Order.antt =====
-- addons/build/addon.go: the order of the strategies.
pub mod Fuel
use gdev.Base.{
  ℕ, zero, suc, String, ◌≡◌, refl, ap, sym, ◌∙◌, subst, Bool, true, false, Option, none, some, List,
  [], ◌∷◌, ◌++◌, map, if◌then◌else◌, length, All, All-In, All-at, In, In-append, inl, inr, ◌⊎◌,
  Bool-cases, arith,
}
use gdev.Base.Dict.{Dict}
use gdev.Base.Names.{contains, contains_of_In, In-of_contains, not-In_of_contains}
use gdev.Build.Strategy.{
  Strategy, State, Visit, ok, cycle, no_fuel, visit_list, after_visit, visit, placed, superseded_by,
  resolve_strategy_order,
}

In-append_left : (a : String) (xs ys : List String) → In a xs → In a (xs ++ ys)
In-append_left a [] ys m = elim m [ ]
In-append_left a (x ∷ xs) ys (inl e) = inl e
In-append_left a (x ∷ xs) ys (inr m) = inr (In-append_left a xs ys m)

In-append_last : (a : String) (xs : List String) → In a (xs ++ a ∷ [])
In-append_last a [] = inl refl
In-append_last a (x ∷ xs) = inr (In-append_last a xs)

after_visit-ok :
    (next : State → Visit) (v : Visit) (st : State)
    → after_visit next v ≡ ok st
    → (mid : State) × (v ≡ ok mid) × (next mid ≡ ok st)
after_visit-ok next (ok mid) st e = (mid, refl, e)
after_visit-ok next (cycle p) st e = cc
after_visit-ok next no_fuel st e = cc

placed-ok :
    (name : String) (v : Visit) (st : State)
    → placed name v ≡ ok st
    → (mid : State) × (v ≡ ok mid) × (st ≡ record mid { order = mid.order ++ name ∷ [] })
placed-ok name (ok mid) st e = (mid, refl, ground (arith, e))
placed-ok name (cycle p) st e = cc
placed-ok name no_fuel st e = cc

module _ (sup : String → List String) where
  -- Each name comes after all the names that supersede it.
  pub data IsSorted : List String → Type 0 where
    nil : IsSorted []
    snoc :
        {ns : List String} (n : String)
        → IsSorted ns
        → All (λ m. In m ns) (sup n)
        → IsSorted (ns ++ n ∷ [])

  record IsPartial (path : List String) (st : State) : Type 0 where
    sorted : IsSorted st.order
    seen : (n : String) → In n st.seen → In n st.order ⊎ In n path

  -- What a visit of `names` has done.
  record Visited (names path : List String) (st st' : State) : Type 0 where
    partial : IsPartial path st'
    there : All (λ n. In n st'.order) names
    kept : (n : String) → In n st.order → In n st'.order

  abbrev Keeps : (String → List String → State → Visit) → Type 0
  Keeps v =
      (n : String) (path : List String) (st st' : State)
      → IsPartial path st
      → v n path st ≡ ok st'
      → Visited (n ∷ []) path st st'

  visit_list-Visited :
      (v : String → List String → State → Visit)
      → Keeps v
      → (ns path : List String) (st st' : State) → IsPartial path st
      → visit_list v ns path st ≡ ok st'
      → Visited ns path st st'
  unfolding visit_list
  visit_list-Visited v k [] path st st' h e =
      subst (Visited [] path st) (ground arith)
        (record { partial = h; there = tt; kept = λ n m. m })
  visit_list-Visited v k (n ∷ ns) path st st' h e =
      let (mid, x, rest) = after_visit-ok (visit_list v ns path) (v n path st) st' e in
      let a = k n path st mid h x in
      let b = visit_list-Visited v k ns path mid st' a.partial rest in
      record {
        partial = b.partial;
        there = (b.kept n a.there.0, b.there);
        kept = λ i m. b.kept i (a.kept i m);
      }

  enter-IsPartial :
      (name : String) (path : List String) (st : State)
      → IsPartial path st
      → IsPartial (path ++ name ∷ []) (record st { seen = name ∷ st.seen })
  enter-IsPartial name path st h = record {
    sorted = h.sorted;
    seen = λ n m. elim m [
      | inl e ↦ inr (subst (λ k. In k (path ++ name ∷ [])) e (In-append_last name path))
      | inr old ↦ elim (h.seen n old) [
        | inl o ↦ inl o
        | inr p ↦ inr (In-append_left n path (name ∷ []) p)
      ]
    ];
  }

  placed-Visited :
      (name : String) (path : List String) (st mid : State)
      → Visited (sup name) (path ++ name ∷ []) (record st { seen = name ∷ st.seen }) mid
      → Visited (name ∷ []) path st (record mid { order = mid.order ++ name ∷ [] })
  placed-Visited name path st mid h = record {
    partial = record {
      sorted = snoc name h.partial.sorted h.there;
      seen = λ n m. elim (h.partial.seen n m) [
        | inl o ↦ inl (In-append_left n mid.order (name ∷ []) o)
        | inr p ↦ elim (In-append n path (name ∷ []) p) [
          | inl q ↦ inr q
          | inr last ↦ elim last [
            | inl e ↦
                inl (subst (λ k. In k (mid.order ++ name ∷ [])) e (In-append_last name mid.order))
            | inr none_left ↦ elim none_left [ ]
          ]
        ]
      ];
    };
    there = (In-append_last name mid.order, tt);
    kept = λ n m. In-append_left n mid.order (name ∷ []) (h.kept n m);
  }

  seen-Visited :
      (name : String) (path : List String) (st : State)
      → IsPartial path st
      → In name st.seen
      → ¬ In name path
      → Visited (name ∷ []) path st st
  seen-Visited name path st h m k = record {
    partial = h;
    there = (elim (h.seen name m) [ inl o ↦ o | inr p ↦ absurd (k p) ], tt);
    kept = λ n o. o;
  }

  visit-Keeps : (fuel : ℕ) → Keeps (visit sup fuel)
  unfolding visit
  visit-Keeps zero name path st st' h e = cc
  visit-Keeps (suc fuel) name path st st' h e = elim (Bool-cases (contains path name)) [
    | inl x ↦ absurd (ground arith)
    | inr x ↦ elim (Bool-cases (contains st.seen name)) [
      | inl y ↦ subst (Visited (name ∷ []) path st) (ground arith) (
          seen-Visited name path st h (In-of_contains st.seen name y)
            (not-In_of_contains path name x))
      | inr y ↦
          let st1 = record st { seen = name ∷ st.seen } in
          let path1 = path ++ name ∷ [] in
          let (mid, q, r) =
            placed-ok name (visit_list (visit sup fuel) (sup name) path1 st1) st' (ground arith) in
          subst (Visited (name ∷ []) path st) (sym r) (
            placed-Visited name path st mid (
              visit_list-Visited (visit sup fuel) (visit-Keeps fuel) (sup name) path1 st1 mid
                (enter-IsPartial name path st h) q))
    ]
  ]

-- An order of names in which each comes after every strategy whose list of superseded names has it.
pub data IsOrder {B : Type 0} (ss : Dict (Strategy B)) : List String → Type 0 where
  empty : IsOrder ss []
  later :
      {ns : List String} (n : String)
      → IsOrder ss ns
      → ((by : String) (s : Strategy B) → In (by, s) ss → In n s.supersedes → In by ns)
      → IsOrder ss (ns ++ n ∷ [])

superseded_by_complete :
    {B : Type 0} (ss : Dict (Strategy B)) (n by : String) (s : Strategy B)
    → In (by, s) ss
    → In n s.supersedes
    → In by (superseded_by ss n)
unfolding superseded_by
superseded_by_complete [] n by s m c = elim m [ ]
superseded_by_complete ((k, t) ∷ ss) n by s (inl e) c =
    let same : t ≡ s = ap (λ p. p.1) e in
    let has =
      contains_of_In t.supersedes n (subst (λ (q : Strategy _). In n q.supersedes) (sym same) c) in
    rw (has, superseded_by) (inl (ap (λ p. p.0) e))
superseded_by_complete ((k, t) ∷ ss) n by s (inr m) c =
    let rest = superseded_by_complete ss n by s m c in
    elim (Bool-cases (contains t.supersedes n)) [
      | inl x ↦ rw (x, superseded_by) (inr rest)
      | inr x ↦ rw (x, superseded_by) rest
    ]

-- A sort that loses no element.
abbrev pub KeepsAll : (List String → List String) → Type 0
KeepsAll sort = (xs : List String) (a : String) → In a xs → In a (sort xs)

IsSorted-IsOrder :
    {B : Type 0} (sort : List String → List String) (ss : Dict (Strategy B)) {ns : List String}
    → KeepsAll sort
    → IsSorted (λ n. sort (superseded_by ss n)) ns
    → IsOrder ss ns
IsSorted-IsOrder sort ss keeps nil = empty
IsSorted-IsOrder sort ss keeps (snoc {ns} n h all) =
    later n (IsSorted-IsOrder sort ss keeps h) (λ by s m c.
      All-at (λ k. In k ns) (sort (superseded_by ss n)) all
        (keeps (superseded_by ss n) by (superseded_by_complete ss n by s m c)))

In-names :
    {B : Type 0} (ss : Dict (Strategy B)) (n : String) (s : Strategy B)
    → In (n, s) ss
    → In n (map (λ t. t.0) ss)
In-names [] n s m = elim m [ ]
In-names (t ∷ ss) n s (inl e) = inl (ap (λ p. p.0) e)
In-names (t ∷ ss) n s (inr m) = inr (In-names ss n s m)

-- If the sort loses no name, an order that is resolved has every strategy, and each name in it comes after
-- all the strategies that list it as superseded.
pub resolve_strategy_order-IsSorted :
    {B : Type 0} (sort : List String → List String) (ss : Dict (Strategy B)) (st : State)
    → KeepsAll sort
    → resolve_strategy_order sort ss ≡ ok st
    → IsOrder ss st.order × ((n : String) (s : Strategy B) → In (n, s) ss → In n st.order)
unfolding resolve_strategy_order
resolve_strategy_order-IsSorted sort ss st keeps e =
    let sup : String → List String = λ n. sort (superseded_by ss n) in
    let v =
      visit_list-Visited sup (visit sup (suc (length ss))) (visit-Keeps sup (suc (length ss)))
        (sort (map (λ s. s.0) ss)) [] (record { seen = []; order = [] }) st
        (record { sorted = nil; seen = λ n m. elim m [ ] }) e in
    (
      IsSorted-IsOrder sort ss keeps v.partial.sorted,
      λ n s m.
          All-at (λ k. In k st.order) (sort (map (λ s. s.0) ss)) v.there
            (keeps _ n (In-names ss n s m)),
    )
