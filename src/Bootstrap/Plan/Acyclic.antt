-- ===== src/Bootstrap/Plan/Acyclic.antt =====
-- addons/bootstrap/plan.go: `Ready` succeeds for constraints that have no cycle and name known steps.
use gdev.Base.{
  ℕ, zero, suc, ◌<◌, String, ◌≡◌, refl, ap, true, false, List, [], ◌∷◌, ◌++◌, arith, All, All-In,
  All-at, In, In-append, inl, inr, ◌⊎◌, Bool-cases, length,
}
use gdev.Base.Names.{contains, In-of_contains, without-All}
use gdev.Bootstrap.Step.{Step}
use gdev.Bootstrap.Plan.{
  Plan, names, blocked_by, can_place, resolve, try_resolve_all, ready, is_nil,
}
use gdev.Bootstrap.Plan.Order.{Picked, Removed, here, there, Removed-All, resolve_ind, pick-none}
use gdev.Bootstrap.Plan.Ready.{resolve-stuck}

module _ {S : Type 0} where
  not-blocked_by :
      (ss : List (Step S)) (n : String) → All (λ u. ¬ In n u.before) ss → blocked_by ss n ≡ false
  unfolding blocked_by
  not-blocked_by [] n h = refl
  not-blocked_by (s ∷ ss) n h = elim (Bool-cases (contains s.before n)) [
    | inl x ↦ absurd (h.0 (In-of_contains s.before n x))
    | inr x ↦ rw x (not-blocked_by ss n h.1)
  ]

  In-names :
      (ss : List (Step S)) (n : String) → In n (names ss) → (u : Step S) × In u ss × (u.name ≡ n)
  In-names [] n m = elim m [ ]
  In-names (s ∷ ss) n (inl e) = (s, inl refl, e)
  In-names (s ∷ ss) n (inr m) = let (u, k, e) = In-names ss n m in (u, inr k, e)

  -- `rank` puts every step above the steps it comes after and below the steps it comes before.
  pub record IsRanked (rank : String → ℕ) (known : List String) (s : Step S) : Type 0 where
    pub after : All (λ n. In n known × (rank n < rank s.name)) s.after
    pub before : All (λ n. rank s.name < rank n) s.before

  module _ (rank : String → ℕ) (known : List String) (o q : List (Step S))
      (covered : (n : String) → In n known → In n (names o) ⊎ In n (names q))
      (ranked : All (IsRanked rank known) q) where
    least_can_place :
        (s : Step S)
        → In s q
        → ((u : Step S) → In u q → ¬ (rank u.name < rank s.name))
        → can_place o q s ≡ true
    unfolding can_place
    least_can_place s m least =
        rw
          (
            without-All s.after (names o) (All-In _ s.after after_placed),
            not-blocked_by q s.name
                (All-In _ q λ u k b. least u k (All-at _ u.before (All-at _ q ranked k).before b)),
          )
          refl
      where
        after_placed : (n : String) → In n s.after → In n (names o)
        after_placed n k =
            let (kn, lt) = All-at _ s.after (All-at _ q ranked m).after k in
            elim (covered n kn) [
              | inl done ↦ done
              | inr waits ↦ let (u, ku, e) = In-names q n waits in absurd (least u ku (rw e lt))
            ]

    none_left :
        All (λ s. can_place o q s ≡ false) q
        → (bound : ℕ) (s : Step S) → In s q
        → ¬ (rank s.name < bound)
    none_left stuck zero s m lt = elim lt [ ]
    none_left stuck (suc bound) s m lt = cc (
      least_can_place s m (λ u k lt'. none_left stuck bound u k (omega arith)),
      All-at _ q stuck m,
    )

  Removed-names :
      {t : Step S} {ss rest : List (Step S)} (n : String)
      → Removed t ss rest
      → In n (names ss)
      → (t.name ≡ n) ⊎ In n (names rest)
  Removed-names n here m = m
  Removed-names n (there r) (inl e) = inr (inl e)
  Removed-names n (there r) (inr m) = elim (Removed-names n r m) [
    | inl e ↦ inl e
    | inr k ↦ inr (inr k)
  ]

  In-names_left : (xs ys : List (Step S)) (n : String) → In n (names xs) → In n (names (xs ++ ys))
  In-names_left [] ys n m = elim m [ ]
  In-names_left (x ∷ xs) ys n (inl e) = inl e
  In-names_left (x ∷ xs) ys n (inr m) = inr (In-names_left xs ys n m)

  In-names_last :
      (xs : List (Step S)) (t : Step S) (n : String) → t.name ≡ n → In n (names (xs ++ t ∷ []))
  In-names_last [] t n e = inl e
  In-names_last (x ∷ xs) t n e = inr (In-names_last xs t n e)

  empty-of_no_member : (q : List (Step S)) → ((s : Step S) → ¬ In s q) → q ≡ []
  empty-of_no_member [] h = refl
  empty-of_no_member (s ∷ q) h = absurd (h s (inl refl))

  -- What holds while the steps are placed.
  record Covers (rank : String → ℕ) (known : List String) (o q : List (Step S)) : Type 0 where
    ranked : All (IsRanked rank known) q
    covered : (n : String) → In n known → In n (names o) ⊎ In n (names q)

  place-Covers :
      (rank : String → ℕ) (known : List String) (o q : List (Step S)) (t : Step S)
      (rest : List (Step S))
      → Covers rank known o q
      → Picked o q q t rest
      → Covers rank known (o ++ t ∷ []) rest
  place-Covers rank known o q t rest h k = record {
    ranked = (Removed-All (IsRanked rank known) k.removed h.ranked).1;
    covered = λ n m. elim (h.covered n m) [
      | inl old ↦ inl (In-names_left o (t ∷ []) n old)
      | inr new ↦ elim (Removed-names n k.removed new) [
        | inl e ↦ inl (In-names_last o t n e)
        | inr left ↦ inr left
      ]
    ];
  }

  -- If a rank puts each pending step above the steps that it comes after, which are all in the plan,
  -- and below those it comes before, then `Ready` orders every step.
  pub ready_of_IsRanked :
      (rank : String → ℕ) (p : Plan S)
      → All (IsRanked rank (names p.ordered ++ names p.pending)) p.pending
      → ((ready p).0 ≡ true) × ((ready p).1.pending ≡ [])
  unfolding ready try_resolve_all
  ready_of_IsRanked rank p h =
      let known = names p.ordered ++ names p.pending in
      let n = length p.pending in
      let c =
        resolve_ind (Covers rank known) (place-Covers rank known) n p.ordered p.pending (record {
          ranked = h;
          covered = λ k m. In-append k (names p.ordered) (names p.pending) m;
        }) in
      let stuck = pick-none _ _ _ (resolve-stuck n p.ordered p.pending (omega arith)) in
      let e = empty-of_no_member (resolve n p.ordered p.pending).1 λ s m.
        none_left rank known _ _ c.covered c.ranked stuck (suc (rank s.name)) s m (omega arith) in
      (ap is_nil e, e)
