-- ===== src/Base/Names.antt =====
-- Lists of names: membership as a test, and what it decides.
use Prim.Native.String.{String}
use mathlib.Core.Path.{◌≡◌, refl}
use mathlib.Core.Logic.{inl, inr}
use mathlib.Core.Bool.{Bool, true, false, ◌||◌}
use mathlib.Core.List.{List, [], ◌∷◌, ◌++◌}
use native.Mathlib.Omega.{arith}
use text.Mathlib.Text.{◌==◌}
use text.Mathlib.TextEquality.{eq_iff}
use gdev.Base.Lists.{In, All}
use gdev.Base.Tests.{if◌then◌else◌}

-- `slices.Contains`, and the presence of a key in a set.
unfoldable pub contains : List String → String → Bool
contains [] k = false
contains (x ∷ xs) k = x == k || contains xs k

pub In-of_contains : (xs : List String) (k : String) → contains xs k ≡ true → In k xs
unfolding contains
In-of_contains [] k h = absurd (ground arith)
In-of_contains (x ∷ xs) k h = ground (arith, eq_iff x k, In-of_contains xs k)

pub contains_of_In : (xs : List String) (k : String) → In k xs → contains xs k ≡ true
unfolding contains
contains_of_In [] k m = elim m [ ]
contains_of_In (x ∷ xs) k (inl e) = ground (arith, eq_iff x k)
contains_of_In (x ∷ xs) k (inr m) = ground (arith, contains_of_In xs k m)

pub not-In_of_contains : (xs : List String) (k : String) → contains xs k ≡ false → ¬ In k xs
not-In_of_contains xs k h m = cc (contains_of_In xs k m)

pub contains-append :
    (xs ys : List String) (k : String) → contains (xs ++ ys) k ≡ (contains xs k || contains ys k)
unfolding contains
contains-append [] ys k = refl
contains-append (x ∷ xs) ys k = ground (arith, contains-append xs ys k)

-- The members of the first list that are not in the second: a set less what was deleted from it.
unfoldable pub without : List String → List String → List String
without [] seen = []
without (x ∷ xs) seen = let rest = without xs seen in if contains seen x then rest else x ∷ rest

pub without-nil : (xs seen : List String) → without xs seen ≡ [] → All (λ n. In n seen) xs
unfolding without
without-nil [] seen h = tt
without-nil (x ∷ xs) seen h = ground (arith, In-of_contains seen x, without-nil xs seen)

pub without-All : (xs seen : List String) → All (λ n. In n seen) xs → without xs seen ≡ []
unfolding without
without-All [] seen h = refl
without-All (x ∷ xs) seen h = ground (arith, contains_of_In seen x h.0, without-All xs seen h.1)
