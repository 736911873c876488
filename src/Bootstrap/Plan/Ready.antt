-- ===== src/Bootstrap/Plan/Ready.antt =====
-- addons/bootstrap/plan.go: what `Ready` makes of the plan, and when it succeeds.
use mathlib.Core.List.{Perm, append_assoc}
use mathlib.Core.List.Perm
use gdev.Base.{
  ℕ, zero, suc, ◌≡◌, refl, false, none, List, [], ◌∷◌, ◌++◌, arith, All, inl, inr, Option-cases,
  length, ◌≤◌,
}
use gdev.Bootstrap.Step.{Step}
use gdev.Bootstrap.Plan.{Plan, can_place, pick, resolve, try_resolve_all, ready, is_nil}
use gdev.Bootstrap.Plan.Order.{
  Picked, Removed-perm, Removed-length, pick-Picked, pick-none, IsOrdered, place-IsOrdered,
  resolve_ind,
}

module _ {S : Type 0} where
  resolve-perm :
      (fuel : ℕ) (o p : List (Step S))
      → Perm ((resolve fuel o p).0 ++ (resolve fuel o p).1) (o ++ p)
  resolve-perm fuel o p = resolve_ind (λ a b. Perm (a ++ b) (o ++ p)) keep fuel o p Perm.rfl
    where
      keep :
          (a b : List (Step S)) (t : Step S) (rest : List (Step S))
          → Perm (a ++ b) (o ++ p)
          → Picked a b b t rest
          → Perm ((a ++ t ∷ []) ++ rest) (o ++ p)
      keep a b t rest h k =
          rw append_assoc (Perm.trans (Perm.append_left a (Perm.symm (Removed-perm k.removed))) h)

  -- With fuel for each pending step the loop ends where nothing can be placed.
  pub resolve-stuck :
      (fuel : ℕ) (o p : List (Step S))
      → length p ≤ fuel
      → pick (resolve fuel o p).0 (resolve fuel o p).1 (resolve fuel o p).1 ≡ none
  unfolding resolve
  resolve-stuck zero o [] h = refl
  resolve-stuck zero o (t ∷ p) h = absurd (omega arith)
  resolve-stuck (suc fuel) o p h = elim (Option-cases (pick o p p)) [
    | inl x ↦ rw (x, resolve) x
    | inr ((t, rest), x) ↦
        rw (x, resolve)
          (resolve-stuck fuel (o ++ t ∷ []) rest
            (omega (arith, Removed-length (pick-Picked o p p t rest x).removed)))
  ]

  -- `Ready` only moves steps from pending to ordered, keeps the ordering constraints, and stops when
  -- no pending step can be placed; it answers whether none is left.
  pub ready-IsOrdered :
      (p : Plan S)
      → IsOrdered p.ordered p.pending
      → IsOrdered (ready p).1.ordered (ready p).1.pending
        × Perm ((ready p).1.ordered ++ (ready p).1.pending) (p.ordered ++ p.pending)
        × All (λ s. can_place (ready p).1.ordered (ready p).1.pending s ≡ false) (ready p).1.pending
        × ((ready p).0 ≡ is_nil (ready p).1.pending)
  unfolding ready try_resolve_all
  ready-IsOrdered p h = (
    resolve_ind IsOrdered place-IsOrdered (length p.pending) p.ordered p.pending h,
    resolve-perm (length p.pending) p.ordered p.pending,
    pick-none _ _ _ (resolve-stuck (length p.pending) p.ordered p.pending (omega arith)),
    refl,
  )
