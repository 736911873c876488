-- ===== src/Build/BeforeStart/Dirs.antt =====
-- addons/build/before-start.go: the directories that are built.
use gdev.Base.{
  String, ◌≡◌, sym, ◌∙◌, Option, none, some, List, [], ◌∷◌, ◌++◌, if◌then◌else◌, ◌⊎◌, inl, inr,
  arith, ◌==◌, eq_iff, Sum-cases, ap,
}
use mathlib.Core.List.{append-nil, append_assoc}
use gdev.Base.Dict.{lookup, lookup-insert}
use gdev.Stack.Resources.{Context}
use gdev.Build.BeforeStart.{Tools, BuildHook, or_empty, needed_dir, hook_service, hook_services}

module _ {B : Type 0} (tools : Tools B) (c : Context) where
  abbrev dir_at : String → String ⊎ Option (String × String) → List String
  dir_at root (inl e) = []
  dir_at root (inr none) = []
  dir_at root (inr (some (r, dir))) = if r == root then dir ∷ [] else []

  -- The directories of the services that are in a repo.
  abbrev pub needed_dirs : String → List String → List String
  needed_dirs root [] = []
  needed_dirs root (n ∷ names) = dir_at root (needed_dir tools c n) ++ needed_dirs root names

  hook_service-dirs :
      (name root : String) (h : BuildHook B)
      → (hook_service tools c name h).0 ≡ none
      → or_empty (lookup root (hook_service tools c name h).1.repo_dirs)
        ≡ or_empty (lookup root h.repo_dirs) ++ dir_at root (needed_dir tools c name)
  unfolding hook_service
  hook_service-dirs name root h e = elim (Sum-cases (needed_dir tools c name)) [
    | inl (t, x) ↦ absurd (ground (arith, x))
    | inr (none, x) ↦ ground (arith, x, append-nil (or_empty (lookup root h.repo_dirs)))
    | inr (some (r, dir), x) ↦
        let now = or_empty (lookup r h.repo_dirs) ++ dir ∷ [] in
        ground (
          arith,
          x,
          eq_iff r root,
          lookup-insert r root now h.repo_dirs,
          append-nil (or_empty (lookup root h.repo_dirs)),
        )
  ]

  hook_services-first :
      (name : String) (names : List String) (h : BuildHook B)
      → (hook_services tools c (name ∷ names) h).0 ≡ none
      → ((hook_service tools c name h).0 ≡ none)
        × (hook_services tools c (name ∷ names) h
            ≡ hook_services tools c names (hook_service tools c name h).1)
  unfolding hook_services
  hook_services-first name names h e = (ground arith, ground arith)

  -- After Service was called without an error for the services one after the other, the directories
  -- kept for each root are those it had and those that the services need there, in order.
  pub hook_services-dirs :
      (names : List String) (root : String) (h : BuildHook B)
      → (hook_services tools c names h).0 ≡ none
      → or_empty (lookup root (hook_services tools c names h).1.repo_dirs)
        ≡ or_empty (lookup root h.repo_dirs) ++ needed_dirs root names
  unfolding hook_services
  hook_services-dirs [] root h e = sym (append-nil (or_empty (lookup root h.repo_dirs)))
  hook_services-dirs (name ∷ names) root h e =
      let (ok, q) = hook_services-first name names h e in
      let h' = (hook_service tools c name h).1 in
      let rest = hook_services-dirs names root h' (sym (ap (λ o. o.0) q) ∙ e) in
      ap (λ o. or_empty (lookup root o.1.repo_dirs)) q
      ∙ (rest
          ∙ (ap (λ l. l ++ needed_dirs root names) (hook_service-dirs name root h ok)
              ∙ append_assoc (or_empty (lookup root h.repo_dirs))
                  (dir_at root (needed_dir tools c name)) (needed_dirs root names)))
