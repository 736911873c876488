-- ===== src/Stack/Registry.antt =====
-- addons/stack/services.go: the registry of services and infrastructure. `none` is a panic; a missing
-- service is nil.
use gdev.Base.{
  String, ◌≡◌, ap, ◌∙◌, sym, Bool, true, false, ◌||◌, Option, none, some, List, [], ◌∷◌, ◌++◌, map,
  is_some, if◌then◌else◌, arith, eq_iff,
}
use mathlib.Core.List.{map-append}
use gdev.Base.Dict.{Dict, lookup, insert, lookup-insert}

pub record Registry (A : Type 0) : Type 0 where
  pub locked : Bool
  pub services : Dict A
  pub infra_order : List String
  pub service_order : List String

module _ {A : Type 0} where
  abbrev pub new_registry : Registry A
  new_registry = record { locked = false; services = []; infra_order = []; service_order = [] }

  unfoldable pub add_service : String → A → Registry A → Option (Registry A)
  add_service name svc r =
      if r.locked || is_some (lookup name r.services)
      then none
      else some (record r {
        services = insert name svc r.services;
        service_order = r.service_order ++ name ∷ [];
      })

  unfoldable pub add_infrastructure : String → A → Registry A → Option (Registry A)
  add_infrastructure name svc r =
      if r.locked || is_some (lookup name r.services)
      then none
      else some (record r {
        services = insert name svc r.services;
        infra_order = r.infra_order ++ name ∷ [];
      })

  -- The services of the names, in their order.
  abbrev pub in_order : Dict A → List String → List (Option A)
  in_order d = map (λ n. lookup n d)

  unfoldable pub all_infrastructure : Registry A → List (Option A) × Registry A
  all_infrastructure r = (in_order r.services r.infra_order, record r { locked = true })

  unfoldable pub all_services : Registry A → List (Option A) × Registry A
  all_services r = (in_order r.services r.service_order, record r { locked = true })

  unfoldable pub service_by_name : String → Registry A → Option A × Registry A
  service_by_name name r = (lookup name r.services, record r { locked = true })

  in_order-insert :
      (name : String) (svc : A) (d : Dict A) (names : List String) (svcs : List A)
      → lookup name d ≡ none
      → in_order d names ≡ map some svcs
      → in_order (insert name svc d) names ≡ map some svcs
  in_order-insert name svc d [] svcs h e = e
  in_order-insert name svc d (n ∷ names) [] h e = cc
  in_order-insert name svc d (n ∷ names) (s ∷ svcs) h e =
      ground
        (arith, eq_iff name n, lookup-insert name n svc d, in_order-insert name svc d names svcs h)

  -- What was registered so far: the services and the infrastructure, each in order.
  pub record Holds (r : Registry A) (svcs infra_svcs : List A) : Type 0 where
    pub services : in_order r.services r.service_order ≡ map some svcs
    pub infra : in_order r.services r.infra_order ≡ map some infra_svcs

  in_order-last :
      (name : String) (svc : A) (d : Dict A) (names : List String) (svcs : List A)
      → lookup name d ≡ none
      → in_order d names ≡ map some svcs
      → in_order (insert name svc d) (names ++ name ∷ []) ≡ map some (svcs ++ svc ∷ [])
  in_order-last name svc d names svcs h e =
      map-append _ names (name ∷ [])
      ∙ (ap (λ l. l ++ lookup name (insert name svc d) ∷ [])
            (in_order-insert name svc d names svcs h e)
          ∙ (ap (λ o. map some svcs ++ o ∷ [])
                (ground (arith, lookup-insert name name svc d, eq_iff name name))
              ∙ sym (map-append some svcs (svc ∷ []))))

  abbrev with_service : String → A → Registry A → Registry A
  with_service name svc r = record r {
    services = insert name svc r.services;
    service_order = r.service_order ++ name ∷ [];
  }

  abbrev with_infrastructure : String → A → Registry A → Registry A
  with_infrastructure name svc r = record r {
    services = insert name svc r.services;
    infra_order = r.infra_order ++ name ∷ [];
  }

  add-fresh :
      (name : String) (svc : A) (r r' : Registry A)
      → (add_service name svc r ≡ some r'
          → (lookup name r.services ≡ none) × (r' ≡ with_service name svc r))
        × (add_infrastructure name svc r ≡ some r'
            → (lookup name r.services ≡ none) × (r' ≡ with_infrastructure name svc r))
  unfolding add_service add_infrastructure
  add-fresh name svc r r' = (λ e. (ground arith, ground arith), λ e. (ground arith, ground arith))

  -- A registration that does not panic keeps what was registered and adds the service at the end:
  -- no service is ever replaced or lost.
  pub add_service-Holds :
      (name : String) (svc : A) (r r' : Registry A) (services infra : List A)
      → Holds r services infra
      → add_service name svc r ≡ some r'
      → Holds r' (services ++ svc ∷ []) infra
  add_service-Holds name svc r r' services infra h e =
      let (x, q) = (add-fresh name svc r r').0 e in
      rw q (record {
        services = in_order-last name svc r.services r.service_order services x h.services;
        infra = in_order-insert name svc r.services r.infra_order infra x h.infra;
      })

  -- The same holds of the registration of infrastructure.
  pub add_infrastructure-Holds :
      (name : String) (svc : A) (r r' : Registry A) (services infra : List A)
      → Holds r services infra
      → add_infrastructure name svc r ≡ some r'
      → Holds r' services (infra ++ svc ∷ [])
  add_infrastructure-Holds name svc r r' services infra h e =
      let (x, q) = (add-fresh name svc r r').1 e in
      rw q (record {
        services = in_order-insert name svc r.services r.service_order services x h.services;
        infra = in_order-last name svc r.services r.infra_order infra x h.infra;
      })
