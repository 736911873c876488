-- ===== src/Apt/Packages/Laws.antt =====
-- addons/bootstrap/apt: what the package steps do.
use gdev.Base.{
  String, ◌≡◌, refl, Bool, true, not, ◌||◌, none, List, [], ◌∷◌, ◌++◌, ◌⊎◌, inl, inr, arith,
  Option-cases, Bool-cases, Sum-cases, eq_iff,
}
use gdev.Base.Dict.{Dict}
use gdev.Base.Names.{contains}
use gdev.Apt.Packages.{
  apt_update, apt_install, State, Apt, changed_sources, add_names, do_update, do_install, no_names,
}

no_names-eq : (names : List String) → no_names names ≡ true → names ≡ []
no_names-eq [] h = refl
no_names-eq (n ∷ names) h = absurd (ground arith)

module _ (apt : Apt) (same_versions : Dict String → Dict String → Bool) where
  -- After an update without an error, another one does nothing until the sources have changed; then it
  -- runs apt update once more.
  pub update-again :
      (s : State)
      → (do_update apt same_versions s).0 ≡ none
      → (do_update apt same_versions (do_update apt same_versions s).1
          ≡ (none, (do_update apt same_versions s).1))
        × ((do_update apt same_versions (changed_sources (do_update apt same_versions s).1)).1.ran
            ≡ (do_update apt same_versions s).1.ran ++ apt_update ∷ [])
  unfolding do_update changed_sources
  update-again s e = (ground arith, ground arith)

  -- What an installation of some packages has done.
  pub record Installed (options extra : List String) (s s' : State) : Type 0 where
    pub before : Dict String
    pub after : Dict String
    pub was : apt.installed s.ran ≡ inr before
    pub is : apt.installed s'.ran ≡ inr after
    pub ran : s'.ran ≡ s.ran ++ apt_install (apt.sort (options ++ add_names extra s.pending)) ∷ []
    pub cleared : s'.pending ≡ []
    pub reboot : s'.needs_reboot ≡ (not (same_versions before after) || s.needs_reboot)

  -- An installation without an error did nothing when no package was pending or given; otherwise it ran
  -- one apt install of all of them, nothing is pending any more, and a reboot is asked for just if the
  -- versions of packages have changed or it was asked for before.
  pub do_install-Installed :
      (options extra : List String) (s : State)
      → (do_install apt same_versions options extra s).0 ≡ none
      → ((add_names extra s.pending ≡ []) × ((do_install apt same_versions options extra s).1 ≡ s))
        ⊎ Installed options extra s (do_install apt same_versions options extra s).1
  unfolding do_install
  do_install-Installed options extra s e =
      let pkgs = add_names extra s.pending in
      let ran = s.ran ++ apt_install (apt.sort (options ++ pkgs)) ∷ [] in
      elim (Bool-cases (no_names pkgs)) [
        | inl x ↦ inl (no_names-eq pkgs x, ground (arith, x))
        | inr x ↦ elim (Sum-cases (apt.installed s.ran)) [
          | inl (t, y) ↦ absurd (ground (arith, x, y))
          | inr (before, y) ↦ elim (Option-cases (apt.fails ran)) [
            | inr (t, z) ↦ absurd (ground (arith, x, y, z))
            | inl z ↦ elim (Sum-cases (apt.installed ran)) [
              | inl (t, w) ↦ absurd (ground (arith, x, y, z, w))
              | inr (after, w) ↦ inr (record {
                before = before;
                after = after;
                was = y;
                is = ground (arith, x, y, z, w);
                ran = ground (arith, x, y, z, w);
                cleared = ground (arith, x, y, z, w);
                reboot = ground (arith, x, y, z, w);
              })
            ]
          ]
        ]
      ]

-- Every package that is added is pending, and those that were stay pending.
pub contains-add_names :
    (names set : List String) (n : String)
    → contains (add_names names set) n ≡ (contains names n || contains set n)
unfolding add_names contains
contains-add_names [] set n = refl
contains-add_names (m ∷ names) set n =
    ground (arith, contains-add_names names set n, contains-add_names names set m, eq_iff m n)
