-- ===== src/Stack/Start/Ran.antt =====
-- addons/stack/hooks.go: what the hooks have done when none of them failed.
use gdev.Base.{
  String, ◌≡◌, refl, ap, Option, none, some, List, [], ◌∷◌, arith, Option-cases, inl, inr, subst,
}
use gdev.Stack.Start.{Service}
use gdev.Stack.Start.Hooks.{
  HookFunc, Hook, hook_load_services, hook_before_services, hook_service, hook_after_services,
  run_each, pre_start,
}

-- A function of a hook was called and returned no error, or it is nil.
abbrev pub Called : {S F : Type 0} → Option F → (F → HookFunc S) → S → S → Type 0
Called none g s s' = s' ≡ s
Called (some f) g s s' = g f s ≡ (none, s')

-- One after the other did something.
pub data Chain {A S : Type 0} (Does : A → S → S → Type 0) : List A → S → S → Type 0 where
  stop : {s : S} → Chain Does [] s s
  go :
      {a : A} {rest : List A} {s mid s' : S}
      → Does a s mid
      → Chain Does rest mid s'
      → Chain Does (a ∷ rest) s s'

abbrev pub hook_of : {S : Type 0} → HookFunc S → HookFunc S
hook_of f = f

module _ {S : Type 0} (infra_of services_of : S → List Service) where
  -- The four rounds, with the registry read after the first: each hook loads, each is told of the services, each is
  -- given every service, service by service, and each is told again.
  pub record HooksRan (hooks : List (Hook S)) (s : S) (infra svcs : List Service) (end : S)
      : Type 0 where
    pub loaded : S
    pub told : S
    pub served : S
    pub loading : Chain (λ (h : Hook S). Called h.load_services hook_of) hooks s loaded
    pub infra_read : infra ≡ infra_of loaded
    pub services_read : svcs ≡ services_of loaded
    pub telling :
        Chain (λ (h : Hook S). Called h.before_services (λ f. f infra svcs)) hooks loaded told
    pub serving :
        Chain
          (λ (svc : Service). Chain (λ (h : Hook S). Called h.service (λ f. f svc)) hooks)
          svcs
          told
          served
    pub ending :
        Chain (λ (h : Hook S). Called h.after_services (λ f. f infra svcs)) hooks served end

  run_each-Chain :
      {A : Type 0} (Does : A → S → S → Type 0) (f : A → HookFunc S)
      → ((a : A) (s s' : S) → f a s ≡ (none, s') → Does a s s')
      → (xs : List A) (s s' : S) → run_each f xs s ≡ (none, s')
      → Chain Does xs s s'
  unfolding run_each
  run_each-Chain Does f does [] s s' e =
      subst (Chain Does [] s) (ap (λ (p : Option String × S). p.1) e) stop
  run_each-Chain Does f does (a ∷ rest) s s' e = elim (Option-cases (f a s).0) [
    | inl x ↦
        let first : f a s ≡ (none, (f a s).1) = ap (λ o. (o, (f a s).1)) x in
        go (does a s (f a s).1 first)
          (run_each-Chain Does f does rest (f a s).1 s' (ground (arith, x)))
    | inr (err, x) ↦ absurd (ground (arith, x))
  ]

  Called-load :
      (h : Hook S) (s s' : S)
      → hook_load_services h s ≡ (none, s')
      → Called h.load_services hook_of s s'
  unfolding hook_load_services
  Called-load h s s' e = called h.load_services refl
    where
      called : (o : Option (HookFunc S)) → h.load_services ≡ o → Called o hook_of s s'
      called none q = ground (arith, q, e)
      called (some f) q = ground (arith, q, e)

  Called-before :
      (infra svcs : List Service) (h : Hook S) (s s' : S)
      → hook_before_services infra svcs h s ≡ (none, s')
      → Called h.before_services (λ f. f infra svcs) s s'
  unfolding hook_before_services
  Called-before infra svcs h s s' e = called h.before_services refl
    where
      called :
          (o : Option (List Service → List Service → HookFunc S))
          → h.before_services ≡ o
          → Called o (λ f. f infra svcs) s s'
      called none q = ground (arith, q, e)
      called (some f) q = ground (arith, q, e)

  Called-service :
      (svc : Service) (h : Hook S) (s s' : S)
      → hook_service svc h s ≡ (none, s')
      → Called h.service (λ f. f svc) s s'
  unfolding hook_service
  Called-service svc h s s' e = called h.service refl
    where
      called : (o : Option (Service → HookFunc S)) → h.service ≡ o → Called o (λ f. f svc) s s'
      called none q = ground (arith, q, e)
      called (some f) q = ground (arith, q, e)

  Called-after :
      (infra svcs : List Service) (h : Hook S) (s s' : S)
      → hook_after_services infra svcs h s ≡ (none, s')
      → Called h.after_services (λ f. f infra svcs) s s'
  unfolding hook_after_services
  Called-after infra svcs h s s' e = called h.after_services refl
    where
      called :
          (o : Option (List Service → List Service → HookFunc S))
          → h.after_services ≡ o
          → Called o (λ f. f infra svcs) s s'
      called none q = ground (arith, q, e)
      called (some f) q = ground (arith, q, e)

  without_fail : (o : Option String × S) → o.0 ≡ none → o ≡ (none, o.1)
  without_fail o e = ap (λ x. (x, o.1)) e

  pub pre_start-HooksRan :
      (hooks : List (Hook S)) (s : S) (infra svcs : List Service) (end : S)
      → pre_start infra_of services_of hooks s ≡ ((none, (infra, svcs)), end)
      → HooksRan hooks s infra svcs end
  unfolding pre_start
  pre_start-HooksRan hooks s infra svcs end e =
      let o1 = run_each hook_load_services hooks s in
      let o2 = run_each (hook_before_services (infra_of o1.1) (services_of o1.1)) hooks o1.1 in
      let o3 = run_each (λ svc. run_each (hook_service svc) hooks) (services_of o1.1) o2.1 in
      let o4 = run_each (hook_after_services (infra_of o1.1) (services_of o1.1)) hooks o3.1 in
      let a1 : o1.0 ≡ none = ground (arith, e) in
      let a2 : o2.0 ≡ none = ground (arith, e, a1) in
      let a3 : o3.0 ≡ none = ground (arith, e, a1, a2) in
      let a4 : o4.0 ≡ none = ground (arith, e, a1, a2, a3) in
      let i : infra_of o1.1 ≡ infra = ground (arith, e, a1, a2, a3, a4) in
      let v : services_of o1.1 ≡ svcs = ground (arith, e, a1, a2, a3, a4) in
      let last : o4.1 ≡ end = ground (arith, e, a1, a2, a3, a4) in
      let ran : HooksRan hooks s (infra_of o1.1) (services_of o1.1) o4.1 = record {
        loaded = o1.1;
        told = o2.1;
        served = o3.1;
        loading = run_each-Chain _ hook_load_services Called-load hooks s o1.1 (without_fail o1 a1);
        infra_read = refl;
        services_read = refl;
        telling =
            run_each-Chain _ (hook_before_services (infra_of o1.1) (services_of o1.1))
              (Called-before (infra_of o1.1) (services_of o1.1)) hooks o1.1 o2.1
              (without_fail o2 a2);
        serving =
            run_each-Chain _ (λ svc. run_each (hook_service svc) hooks)
              (λ svc. run_each-Chain _ (hook_service svc) (Called-service svc) hooks)
              (services_of o1.1) o2.1 o3.1 (without_fail o3 a3);
        ending =
            run_each-Chain _ (hook_after_services (infra_of o1.1) (services_of o1.1))
              (Called-after (infra_of o1.1) (services_of o1.1)) hooks o3.1 o4.1
              (without_fail o4 a4);
      } in
      subst (λ n. HooksRan hooks s n svcs end) i
        (subst (λ n. HooksRan hooks s (infra_of o1.1) n end) v
          (subst (λ n. HooksRan hooks s (infra_of o1.1) (services_of o1.1) n) last ran))
