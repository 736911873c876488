-- ===== src/Build/BeforeStart/Calls.antt =====
-- addons/build/before-start.go: the calls of builders.
use gdev.Base.{
  String, ◌≡◌, ◌≢◌, refl, sym, false, Option, none, some, List, [], ◌∷◌, ◌++◌, inl, inr, arith,
  ◌==◌, eq_iff, All, All-append, Sum-cases, Option-cases, Bool-cases, subst,
}
use gdev.Base.Dict.{Dict, lookup, insert}
use gdev.Base.Names.{contains, contains-append}
use gdev.Build.Strategy.{Detected, failed, nothing, builder}
use gdev.Build.Services.{Call, build_all, build_dirs}
use gdev.Stack.Resources.{Context}
use gdev.Build.BeforeStart.{
  Tools, BuildHook, or_empty, needed_dir, add_dir, hook_service, hook_services, build_call,
  build_repo, build_repos, after_services, before_services,
}

module _ {B : Type 0} (tools : Tools B) (cleans : (dir : String) → tools.clean dir ≢ "") where
  -- A call that builds directories.
  abbrev pub OfDirs : Call B → Type 0
  OfDirs (build_all b) = ⊥
  OfDirs (build_dirs b dirs) = Unit

  -- No root has the empty directory.
  abbrev pub NoRoot : Dict (List String) → Type 0
  NoRoot = All (λ (e : String × List String). contains e.1 "" ≡ false)

  NoRoot-insert :
      (root : String) (new : List String) (d : Dict (List String))
      → contains new "" ≡ false
      → NoRoot d
      → NoRoot (insert root new d)
  unfolding insert
  NoRoot-insert root new [] n h = (n, tt)
  NoRoot-insert root new ((key, dirs) ∷ d) n (h, hs) = elim (Bool-cases (key == root)) [
    | inl y ↦ rw y (n, hs)
    | inr y ↦ rw y (h, NoRoot-insert root new d n hs)
  ]

  NoRoot-lookup :
      (root : String) (d : Dict (List String))
      → NoRoot d
      → contains (or_empty (lookup root d)) "" ≡ false
  unfolding lookup contains
  NoRoot-lookup root [] h = refl
  NoRoot-lookup root ((key, dirs) ∷ d) (h, hs) = ground (arith, h, NoRoot-lookup root d hs)

  needed_dir-clean :
      (c : Context) (name r dir : String)
      → needed_dir tools c name ≡ inr (some (r, dir))
      → (dir == "") ≡ false
  unfolding needed_dir
  needed_dir-clean c name r dir e = elim (Option-cases (tools.as_source name)) [
    | inl x ↦ absurd (ground (arith, x))
    | inr (src, x) ↦ elim (Sum-cases src.local_source) [
      | inl (t, y) ↦ absurd (ground (arith, x, y))
      | inr ((root, sub), y) ↦ ground (arith, x, y, cleans sub, eq_iff (tools.clean sub) "")
    ]
  ]

  abbrev IsDirs : BuildHook B → Type 0
  IsDirs h = NoRoot h.repo_dirs × All OfDirs h.calls

  hook_service-IsDirs :
      (c : Context) (name : String) (h : BuildHook B)
      → IsDirs h
      → IsDirs (hook_service tools c name h).1
  unfolding hook_service contains
  hook_service-IsDirs c name h k = elim (Sum-cases (needed_dir tools c name)) [
    | inl (t, x) ↦
        let e : hook_service tools c name h ≡ (some t, h) = ground (arith, x) in
        subst (λ (q : Option String × BuildHook B). IsDirs q.1) (sym e) k
    | inr (none, x) ↦
        let e : hook_service tools c name h ≡ (none, h) = ground (arith, x) in
        subst (λ (q : Option String × BuildHook B). IsDirs q.1) (sym e) k
    | inr (some (r, dir), x) ↦
        let now = or_empty (lookup r h.repo_dirs) in
        let n : contains (now ++ dir ∷ []) "" ≡ false = ground (
          arith,
          contains-append now (dir ∷ []) "",
          NoRoot-lookup r h.repo_dirs k.0,
          needed_dir-clean c name r dir x,
        ) in
        let e : hook_service tools c name h ≡ (none, add_dir tools (some (r, dir)) h) =
          ground (arith, x) in
        subst (λ (q : Option String × BuildHook B). IsDirs q.1) (sym e)
          (NoRoot-insert r (now ++ dir ∷ []) h.repo_dirs n k.0, k.1)
  ]

  hook_services-next :
      (c : Context) (name : String) (names : List String) (h : BuildHook B)
      → (hook_service tools c name h).0 ≡ none
      → hook_services tools c (name ∷ names) h
        ≡ hook_services tools c names (hook_service tools c name h).1
  unfolding hook_services
  hook_services-next c name names h x = ground (arith, x)

  hook_services-failed :
      (c : Context) (name : String) (names : List String) (h : BuildHook B) (t : String)
      → (hook_service tools c name h).0 ≡ some t
      → hook_services tools c (name ∷ names) h ≡ (some t, (hook_service tools c name h).1)
  unfolding hook_services
  hook_services-failed c name names h t x = ground (arith, x)

  hook_services-IsDirs :
      (c : Context) (names : List String) (h : BuildHook B)
      → IsDirs h
      → IsDirs (hook_services tools c names h).1
  unfolding hook_services
  hook_services-IsDirs c [] h k = k
  hook_services-IsDirs c (name ∷ names) h k =
      let one = hook_service-IsDirs c name h k in
      elim (Option-cases (hook_service tools c name h).0) [
        | inr (t, x) ↦
            subst (λ (q : Option String × BuildHook B). IsDirs q.1)
              (sym (hook_services-failed c name names h t x)) one
        | inl x ↦
            subst (λ (q : Option String × BuildHook B). IsDirs q.1)
              (sym (hook_services-next c name names h x))
              (hook_services-IsDirs c names (hook_service tools c name h).1 one)
      ]

  build_repo-OfDirs :
      (root : String) (dirs : List String) (h : BuildHook B)
      → contains dirs "" ≡ false
      → All OfDirs h.calls
      → All OfDirs (build_repo tools root dirs h).1.calls
  unfolding build_repo build_call
  build_repo-OfDirs root dirs h n k = go (tools.detect root) refl
    where
      go :
          (r : Detected (String × B))
          → tools.detect root ≡ r
          → All OfDirs (build_repo tools root dirs h).1.calls
      go (failed e) x =
          let q : build_repo tools root dirs h ≡ (some "can't detect build strategy", h) =
            ground (arith, x) in
          subst (λ (q : Option String × BuildHook B). All OfDirs q.1.calls) (sym q) k
      go nothing x =
          let q : build_repo tools root dirs h ≡ (some "no build strategy", h) =
            ground (arith, x) in
          subst (λ (q : Option String × BuildHook B). All OfDirs q.1.calls) (sym q) k
      go (builder (s, b)) x =
          let q : build_repo tools root dirs h ≡ (
            tools.runs (build_dirs b dirs),
            record h { calls = h.calls ++ build_dirs b dirs ∷ [] },
          ) =
            ground (arith, x, n) in
          subst (λ (q : Option String × BuildHook B). All OfDirs q.1.calls) (sym q)
            (All-append OfDirs h.calls (build_dirs b dirs ∷ []) k (tt, tt))

  build_repos-OfDirs :
      (repos : Dict (List String)) (h : BuildHook B)
      → NoRoot repos
      → All OfDirs h.calls
      → All OfDirs (build_repos tools repos h).1.calls
  unfolding build_repos
  build_repos-OfDirs [] h n k = k
  build_repos-OfDirs ((root, dirs) ∷ repos) h (n, ns) k =
      let one = build_repo-OfDirs root dirs h n k in
      elim (Option-cases (build_repo tools root dirs h).0) [
        | inr (t, x) ↦
            let q : build_repos tools ((root, dirs) ∷ repos) h
                ≡ (some t, (build_repo tools root dirs h).1) =
              ground (arith, x) in
            subst (λ (q : Option String × BuildHook B). All OfDirs q.1.calls) (sym q) one
        | inl x ↦
            let q : build_repos tools ((root, dirs) ∷ repos) h
                ≡ build_repos tools repos (build_repo tools root dirs h).1 =
              ground (arith, x) in
            subst (λ (q : Option String × BuildHook B). All OfDirs q.1.calls) (sym q)
              (build_repos-OfDirs repos (build_repo tools root dirs h).1 ns one)
      ]

  -- As filepath.Clean never gives the empty string, the hook never builds all of a repo, even when a
  -- service is at its root: every call of a builder is one for directories.
  pub after_services-OfDirs :
      (c : Context) (names : List String) (h : BuildHook B)
      → h.calls ≡ []
      → All OfDirs
          (after_services tools (hook_services tools c names (before_services tools h).1).1).1.calls
  unfolding after_services before_services
  after_services-OfDirs c names h e =
      let (dirs, calls) =
        hook_services-IsDirs c names (before_services tools h).1
          (tt, subst (All OfDirs) (sym e) tt) in
      build_repos-OfDirs (hook_services tools c names (before_services tools h).1).1.repo_dirs _
        dirs calls
