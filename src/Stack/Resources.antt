-- ===== src/Stack/Resources.antt =====
-- service/context.go, service/basic.go and resource/resource-anti.go: the context of a start, and the
-- resources that a service has in it. An empty list of errors is nil.
use gdev.Base.{
  String, ◌≡◌, refl, Bool, true, false, not, ◌&&◌, ◌||◌, Option, none, some, List, [], ◌∷◌, ◌++◌,
  if◌then◌else◌, All, All-append,
}
use gdev.Base.Dict.{Dict, lookup, insert}
use gdev.Stack.Mode.{Mode, default, disabled, same_mode}

-- `plain` stands for each implementation but `anti`, by its ID.
pub data Resource : Type 0 where
  plain : String → Resource
  anti : Resource → Resource

unfoldable pub is_anti : Resource → Bool
is_anti (plain id) = false
is_anti (anti r) = true

-- An anti resource of a resource that is not one already.
unfoldable pub as_anti : Resource → Resource
unfolding is_anti
as_anti r = if is_anti r then r else anti r

unfoldable pub all_anti : List Resource → List Resource
all_anti [] = []
all_anti (r ∷ rs) = as_anti r ∷ all_anti rs

-- `service.Context`.
pub record Context : Type 0 where
  pub service_modes : Dict Mode
  pub no_service_wait : Bool

pub data ContextOption : Type 0 where
  with_service_modes : Dict Mode → ContextOption
  without_service_wait : ContextOption

abbrev insert_all : Dict Mode → Dict Mode → Dict Mode
insert_all [] d = d
insert_all ((name, m) ∷ modes) d = insert_all modes (insert name m d)

unfoldable pub apply_option : ContextOption → Context → Context
apply_option (with_service_modes modes) c = record c {
  service_modes = insert_all modes c.service_modes;
}
apply_option without_service_wait c = record c { no_service_wait = true }

abbrev apply_options : List ContextOption → Context → Context
apply_options [] c = c
apply_options (o ∷ os) c = apply_options os (apply_option o c)

unfoldable pub new_context : List ContextOption → Context
new_context opts = apply_options opts (record { service_modes = []; no_service_wait = false })

-- `ServiceMode`: the mode, and whether one was given.
unfoldable pub service_mode : Context → String → Mode × Bool
service_mode c name = elim (lookup name c.service_modes) [
  | none ↦ (default, false)
  | some m ↦ (m, true)
]

-- A function that answers with resources and errors.
abbrev pub ResourceFunc : Type 0
ResourceFunc = Context → List Resource × List String

pub record BasicService : Type 0 where
  pub name : String
  pub resources : List ResourceFunc
  pub modal : List Mode

-- The resources of a function that fails are dropped.
abbrev pub add_resources :
    List Resource × List String → List Resource × List String → List Resource × List String
add_resources (r, []) (rs, errs) = (r ++ rs, errs)
add_resources (r, e ∷ es) (rs, errs) = (rs, e ∷ es ++ errs)

unfoldable pub resources_of : List ResourceFunc → ResourceFunc
resources_of [] c = ([], [])
resources_of (f ∷ fs) c = add_resources (f c) (resources_of fs c)

-- `basicService.Resources`.
unfoldable pub service_resources : BasicService → ResourceFunc
service_resources s = resources_of s.resources

abbrev has_mode : List Mode → Mode → Bool
has_mode [] m = false
has_mode (x ∷ xs) m = same_mode x m || has_mode xs m

unfoldable pub has_modal : BasicService → Mode → Bool
has_modal s m = not (same_mode m disabled) && has_mode s.modal m

-- The options of `New`. `none` is a panic.
abbrev pub BasicOpt : Type 0
BasicOpt = BasicService → Option BasicService

unfoldable pub with_resource_funcs : List ResourceFunc → BasicOpt
with_resource_funcs fs s =
    some (record s { resources = s.resources ++ fs; modal = default ∷ s.modal })

unfoldable pub with_resources : List Resource → BasicOpt
with_resources rs s =
    some (record s { resources = s.resources ++ (λ c. (rs, [])) ∷ []; modal = default ∷ s.modal })

unfoldable pub modal_resources : Bool → List ResourceFunc → ResourceFunc
modal_resources matching [] c = ([], [])
modal_resources matching (f ∷ fs) c =
    let (rs, errs) = modal_resources matching fs c in
    let (r, e) = f c in ((if matching then r else all_anti r) ++ rs, e ++ errs)

unfoldable pub with_modal_resource_funcs : Mode → List ResourceFunc → BasicOpt
with_modal_resource_funcs m fs s =
    if same_mode m disabled
    then none
    else some (record s {
      resources =
          s.resources ++ (λ c. modal_resources (same_mode (service_mode c s.name).0 m) fs c) ∷ [];
      modal = m ∷ s.modal;
    })

unfoldable pub with_modal_resources : Mode → List Resource → BasicOpt
with_modal_resources m rs = with_modal_resource_funcs m ((λ c. (rs, [])) ∷ [])

abbrev apply_basic : List BasicOpt → BasicOpt
apply_basic [] s = some s
apply_basic (o ∷ os) s = elim (o s) [ none ↦ none | some s' ↦ apply_basic os s' ]

abbrev with_funcs : BasicService → Option BasicService
with_funcs s = elim s.resources [ [] ↦ none | _ ∷ _ ↦ some s ]

-- `New`, on a name with or without a space.
unfoldable pub new_service : (String → Bool) → String → List BasicOpt → Option BasicService
new_service has_space name opts =
    if has_space name
    then none
    else elim (apply_basic opts (record { name = name; resources = []; modal = [] })) [
      | none ↦ none
      | some s ↦ with_funcs s
    ]

-- A resource that only stops what it stands for.
abbrev pub OnlyStops : Resource → Type 0
OnlyStops r = is_anti r ≡ true

as_anti-OnlyStops : (r : Resource) → OnlyStops (as_anti r)
unfolding as_anti is_anti
as_anti-OnlyStops (plain id) = refl
as_anti-OnlyStops (anti r) = refl

pub all_anti-OnlyStops : (rs : List Resource) → All OnlyStops (all_anti rs)
unfolding all_anti
all_anti-OnlyStops [] = tt
all_anti-OnlyStops (r ∷ rs) = (as_anti-OnlyStops r, all_anti-OnlyStops rs)

pub modal_resources-OnlyStops :
    (fs : List ResourceFunc) (c : Context) → All OnlyStops (modal_resources false fs c).0
unfolding modal_resources
modal_resources-OnlyStops [] c = tt
modal_resources-OnlyStops (f ∷ fs) c =
    All-append OnlyStops (all_anti (f c).0) _ (all_anti-OnlyStops (f c).0)
      (modal_resources-OnlyStops fs c)
