-- ===== src/Bootstrap/Plan/Order.antt =====
-- addons/bootstrap/plan.go: `tryResolveAll` orders the steps as their constraints say.
use mathlib.Core.Option.{some-injective}
use mathlib.Core.List.{Perm, append-nil, append_assoc, map-append}
use mathlib.Core.List.Perm
use gdev.Base.{
  ℕ, zero, suc, String, ◌≡◌, refl, ap, sym, Bool, true, false, Option, none, some, List, [], ◌∷◌,
  ◌++◌, arith, All, All-In, All-at, All-zip, In-append, In, inl, inr, Option-cases, subst, length,
}
use gdev.Base.Names.{not-In_of_contains, without-nil}
use gdev.Bootstrap.Step.{Step}
use gdev.Bootstrap.Plan.{names, blocked_by, can_place, pick, pick_step, resolve, is_nil}

pub is_nil-eq {ℓ} : {A : Type ℓ} (xs : List A) → is_nil xs ≡ true → xs ≡ []
is_nil-eq [] h = refl
is_nil-eq (x ∷ xs) h = cc

module _ {S : Type 0} where
  -- `P seen s` holds of each step, where `seen` are the names of the steps before it.
  abbrev pub Chain : (List String → Step S → Type 0) → List String → List (Step S) → Type 0
  Chain P seen [] = Unit
  Chain P seen (s ∷ ss) = P seen s × Chain P (seen ++ s.name ∷ []) ss

  Chain-snoc :
      (P : List String → Step S → Type 0) (xs : List (Step S)) (seen : List String) (s : Step S)
      → Chain P seen xs
      → P (seen ++ names xs) s
      → Chain P seen (xs ++ s ∷ [])
  Chain-snoc P [] seen s h p = (subst (λ l. P l s) (append-nil seen) p, tt)
  Chain-snoc P (x ∷ xs) seen s h p = (
    h.0,
    Chain-snoc P xs (seen ++ x.name ∷ []) s h.1
        (subst (λ l. P l s) (sym (append_assoc seen _ _)) p),
  )

  -- The steps that `s` comes after are there already; those that it comes before are not.
  abbrev pub AfterAll : List String → Step S → Type 0
  AfterAll seen s = All (λ n. In n seen) s.after

  abbrev pub BeforeAll : List String → Step S → Type 0
  BeforeAll seen s = All (λ n. ¬ In n seen) s.before

  pub record IsOrdered (ordered pending : List (Step S)) : Type 0 where
    pub after : Chain AfterAll [] ordered
    pub before : Chain BeforeAll [] ordered
    pub free : All (BeforeAll (names ordered)) pending

  blocked_by-none :
      (ss : List (Step S)) (n : String) → blocked_by ss n ≡ false → All (λ s. ¬ In n s.before) ss
  unfolding blocked_by
  blocked_by-none [] n h = tt
  blocked_by-none (s ∷ ss) n h =
      (not-In_of_contains s.before n (ground arith), blocked_by-none ss n (ground arith))

  -- `rest` is the list without one occurrence of `t`.
  pub data Removed (t : Step S) : List (Step S) → List (Step S) → Type 0 where
    here : {ss : List (Step S)} → Removed t (t ∷ ss) ss
    there :
        {s : Step S} {ss rest : List (Step S)} → Removed t ss rest → Removed t (s ∷ ss) (s ∷ rest)

  pub Removed-perm : {t : Step S} {ss rest : List (Step S)} → Removed t ss rest → Perm ss (t ∷ rest)
  Removed-perm here = Perm.rfl
  Removed-perm (there {s = s} r) = Perm.trans (Perm.cons s (Removed-perm r)) (Perm.swap _ _ _)

  pub Removed-All :
      (P : Step S → Type 0) {t : Step S} {ss rest : List (Step S)}
      → Removed t ss rest
      → All P ss
      → P t × All P rest
  Removed-All P here a = a
  Removed-All P (there r) a = let (x, y) = Removed-All P r a.1 in (x, (a.0, y))

  pub Removed-length :
      {t : Step S} {ss rest : List (Step S)} → Removed t ss rest → length ss ≡ suc (length rest)
  Removed-length here = refl
  Removed-length (there r) = ap suc (Removed-length r)

  pub record Picked (o p ss : List (Step S)) (t : Step S) (rest : List (Step S)) : Type 0 where
    pub removed : Removed t ss rest
    pub placed : can_place o p t ≡ true

  pick_step-Picked :
      (o p : List (Step S)) (s : Step S) (ss : List (Step S)) (b : Bool)
      (later : Option (Step S × List (Step S))) (t : Step S) (rest : List (Step S))
      → can_place o p s ≡ b
      → ((u : Step S) (r : List (Step S)) → later ≡ some (u, r) → Picked o p ss u r)
      → pick_step s ss b later ≡ some (t, rest)
      → Picked o p (s ∷ ss) t rest
  pick_step-Picked o p s ss true later t rest x ih h =
      subst (λ (q : Step S × List (Step S)). Picked o p (s ∷ ss) q.0 q.1) (some-injective _ _ h)
        (record { removed = here; placed = x })
  pick_step-Picked o p s ss false none t rest x ih h = cc
  pick_step-Picked o p s ss false (some (u, r)) t rest x ih h =
      subst (λ (q : Step S × List (Step S)). Picked o p (s ∷ ss) q.0 q.1) (some-injective _ _ h)
        (record { removed = there (ih u r refl).removed; placed = (ih u r refl).placed })

  pub pick-Picked :
      (o p ss : List (Step S)) (t : Step S) (rest : List (Step S))
      → pick o p ss ≡ some (t, rest)
      → Picked o p ss t rest
  unfolding pick
  pick-Picked o p [] t rest h = cc
  pick-Picked o p (s ∷ ss) t rest h =
      pick_step-Picked o p s ss (can_place o p s) (pick o p ss) t rest refl (pick-Picked o p ss) h

  -- Nothing can be placed.
  pub pick-none :
      (o p ss : List (Step S)) → pick o p ss ≡ none → All (λ s. can_place o p s ≡ false) ss
  unfolding pick
  pick-none o p [] h = tt
  pick-none o p (s ∷ ss) h = ground (arith, pick-none o p ss)

  names-snoc : (o : List (Step S)) (t : Step S) → names (o ++ t ∷ []) ≡ names o ++ t.name ∷ []
  names-snoc o t = map-append _ o _

  BeforeAll-snoc :
      (o : List (Step S)) (t u : Step S)
      → BeforeAll (names o) u
      → ¬ In t.name u.before
      → BeforeAll (names (o ++ t ∷ [])) u
  BeforeAll-snoc o t u h k = All-In _ u.before λ n m q.
      elim (In-append n (names o) (t.name ∷ []) (rw names-snoc at q)) [
        | inl old ↦ All-at _ u.before h m old
        | inr new ↦ elim new [ inl e ↦ k (rw (← e) at m) | inr none_left ↦ none_left ]
      ]

  pub place-IsOrdered :
      (o p : List (Step S)) (t : Step S) (rest : List (Step S))
      → IsOrdered o p
      → Picked o p p t rest
      → IsOrdered (o ++ t ∷ []) rest
  unfolding can_place
  place-IsOrdered o p t rest h k =
      let free = Removed-All (BeforeAll (names o)) k.removed h.free in
      let open_ =
        Removed-All (λ s. ¬ In t.name s.before) k.removed
          (blocked_by-none p t.name (ground arith)) in
      record {
        after =
            Chain-snoc AfterAll o [] t h.after
              (without-nil t.after (names o) (is_nil-eq _ (ground arith)));
        before = Chain-snoc BeforeAll o [] t h.before free.0;
        free = All-zip rest (BeforeAll-snoc o t) free.1 open_.1;
      }

  -- What every placement keeps, `resolve` keeps.
  pub resolve_ind :
      (P : List (Step S) → List (Step S) → Type 0)
      → ((o p : List (Step S)) (t : Step S) (rest : List (Step S))
          → P o p
          → Picked o p p t rest
          → P (o ++ t ∷ []) rest)
      → (fuel : ℕ) (o p : List (Step S)) → P o p
      → P (resolve fuel o p).0 (resolve fuel o p).1
  unfolding resolve
  resolve_ind P keep zero o p h = h
  resolve_ind P keep (suc fuel) o p h = elim (Option-cases (pick o p p)) [
    | inl x ↦ rw (x, resolve) h
    | inr ((t, rest), x) ↦
        rw (x, resolve)
          (resolve_ind P keep fuel (o ++ t ∷ []) rest
            (keep o p t rest h (pick-Picked o p p t rest x)))
  ]
