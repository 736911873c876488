-- ===== src/Stack/Start/Anti.antt =====
-- service/basic.go and addons/stack/start.go: what is only stopped by a start.
use gdev.Base.{
  ◌≡◌, true, false, some, List, [], ◌∷◌, ◌++◌, arith, All, All-append, String, All-front, All-back,
}
use gdev.Stack.Mode.{Mode, same_mode, disabled}
use gdev.Stack.Resources.{
  Resource, plain, anti, Context, service_mode, OnlyStops, is_anti, all_anti, all_anti-OnlyStops,
  modal_resources-OnlyStops, BasicService, service_resources, with_modal_resource_funcs,
  ResourceFunc, modal_resources, resources_of, add_resources,
}
use gdev.Stack.Start.{Call, starting, stopping, checking, Service, start_call, stop_call, gather}

-- A call that stops something.
abbrev pub IsStop : Call → Type 0
IsStop (stopping id) = Unit
IsStop (starting id) = ⊥
IsStop (checking id) = ⊥

stop_call-IsStop : (r : Resource) → IsStop (stop_call r)
unfolding stop_call
stop_call-IsStop (plain id) = tt
stop_call-IsStop (anti r) = stop_call-IsStop r

start-IsStop : (r : Resource) → OnlyStops r → IsStop (start_call r)
unfolding start_call is_anti
start-IsStop (plain id) h = absurd (ground arith)
start-IsStop (anti r) h = stop_call-IsStop r

abbrev pub StartsNothing : List Resource → Type 0
StartsNothing = All (λ r. IsStop (start_call r))

starts_nothing : (rs : List Resource) → All OnlyStops rs → StartsNothing rs
starts_nothing [] h = tt
starts_nothing (r ∷ rs) h = (start-IsStop r h.0, starts_nothing rs h.1)

-- The resources of disabled services are only stopped when they are started.
pub gather-StartsNothing :
    (c : Context) (svcs : List Service)
    → All (λ s. same_mode (service_mode c s.name).0 disabled ≡ true) svcs
    → StartsNothing (gather c svcs).0
unfolding gather service_mode
gather-StartsNothing c [] h = tt
gather-StartsNothing c (s ∷ ss) h =
    let anti_first : StartsNothing (all_anti (s.resources c).0) =
      starts_nothing (all_anti (s.resources c).0) (all_anti-OnlyStops (s.resources c).0) in
    let q =
      All-append (λ r. IsStop (start_call r)) (all_anti (s.resources c).0) (gather c ss).0
        anti_first (gather-StartsNothing c ss h.1) in
    rw h.0 q

abbrev modal_func : Mode → List ResourceFunc → BasicService → ResourceFunc
modal_func m fs s c = modal_resources (same_mode (service_mode c s.name).0 m) fs c

modal-appended :
    (m : Mode) (fs : List ResourceFunc) (s s' : BasicService)
    → with_modal_resource_funcs m fs s ≡ some s'
    → s'.resources ≡ s.resources ++ modal_func m fs s ∷ []
unfolding with_modal_resource_funcs
modal-appended m fs s s' e = ground arith

add_resources-both :
    (o a b : List Resource × List String)
    → All OnlyStops (add_resources o a).0
    → (All OnlyStops a.0 → All OnlyStops b.0)
    → All OnlyStops (add_resources o b).0
add_resources-both (r, []) a b h f =
    All-append OnlyStops r b.0 (All-front OnlyStops r a.0 h) (f (All-back OnlyStops r a.0 h))
add_resources-both (r, e ∷ es) a b h f = f h

add_resources-last :
    (o : List Resource × List String)
    → All OnlyStops o.0
    → All OnlyStops (add_resources o ([], [])).0
add_resources-last (r, []) h = All-append OnlyStops r [] h tt
add_resources-last (r, e ∷ es) h = tt

resources_of-last :
    (fs : List ResourceFunc) (f : ResourceFunc) (c : Context)
    → All OnlyStops (resources_of fs c).0
    → All OnlyStops (f c).0
    → All OnlyStops (resources_of (fs ++ f ∷ []) c).0
unfolding resources_of
resources_of-last [] f c h k = add_resources-last (f c) k
resources_of-last (g ∷ fs) f c h k =
    add_resources-both (g c) (resources_of fs c) (resources_of (fs ++ f ∷ []) c) h
      (λ a. resources_of-last fs f c a k)

-- A service that only stops its resources in a context still does when resources of a mode that the
-- context does not give it are added.
pub modal-OnlyStops :
    (m : Mode) (fs : List ResourceFunc) (s s' : BasicService) (c : Context)
    → All OnlyStops (service_resources s c).0
    → same_mode (service_mode c s.name).0 m ≡ false
    → with_modal_resource_funcs m fs s ≡ some s'
    → All OnlyStops (service_resources s' c).0
unfolding service_resources
modal-OnlyStops m fs s s' c h x e =
    let q : All OnlyStops (modal_func m fs s c).0 = rw x (modal_resources-OnlyStops fs c) in
    rw (modal-appended m fs s s' e) (resources_of-last s.resources (modal_func m fs s) c h q)
