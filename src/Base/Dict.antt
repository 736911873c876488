-- ===== src/Base/Dict.antt =====
-- Go maps with string keys as association lists. `remove` is `delete(m, k)`, `insert` is
-- `m[k] = v`, `lookup` is `v, ok := m[k]`.
use Prim.Native.String.{String}
use mathlib.Core.Path.{◌≡◌, refl}
use mathlib.Core.Option.{Option, none, some}
use mathlib.Core.List.{List, [], ◌∷◌}
use native.Mathlib.Omega.{arith}
use text.Mathlib.Text.{◌==◌}
use text.Mathlib.TextEquality.{eq_iff}
use gdev.Base.Tests.{if◌then◌else◌}

abbrev pub Dict {ℓ} : Type ℓ → Type ℓ
Dict V = List (String × V)

module _ {ℓ} {V : Type ℓ} where
  unfoldable pub lookup : String → Dict V → Option V
  lookup name [] = none
  lookup name ((key, value) ∷ rest) = if key == name then some value else lookup name rest

  unfoldable pub insert : String → V → Dict V → Dict V
  insert name new [] = (name, new) ∷ []
  insert name new ((key, old) ∷ rest) =
      let later = insert name new rest in
      if key == name then (name, new) ∷ rest else (key, old) ∷ later

  unfoldable pub remove : String → Dict V → Dict V
  remove name [] = []
  remove name ((key, value) ∷ rest) =
      let later = remove name rest in if key == name then later else (key, value) ∷ later

  -- A write is seen under its own name only.
  pub lookup-insert :
      (name other : String) (new : V) (rest : Dict V)
      → lookup other (insert name new rest)
        ≡ (if name == other then some new else lookup other rest)
  unfolding insert lookup
  lookup-insert name other new [] = refl
  lookup-insert name other new ((key, old) ∷ rest) =
      let again = lookup-insert name other new rest in
      ground (again, eq_iff key name, eq_iff key other, eq_iff name other, arith)

  pub lookup-remove :
      (k j : String) (m : Dict V) → lookup j (remove k m) ≡ (if k == j then none else lookup j m)
  unfolding lookup remove
  lookup-remove k j [] = ground arith
  lookup-remove k j ((i, v) ∷ m) =
      ground (arith, lookup-remove k j m, eq_iff i k, eq_iff i j, eq_iff k j)

pub ruleset dict_laws = (lookup-insert, lookup-remove)
