-- ===== src/Gocache/Chain.antt =====
-- addons/gocache/addon.go: the remotes of a run, made into one backend in front of which the disk stands.
--
-- A factory is what it wants and what it makes of a URL. `Node` is the shape of a backend; one that is made
-- by a factory is writable or not, as the type assertion to `StorageBackend` finds.
pub mod Writes
use gdev.Base.{
  String, Bool, true, false, ◌&&◌, Option, none, some, List, [], ◌∷◌, ◌++◌, if◌then◌else◌, ◌⊎◌, inl,
  inr,
}

pub data Node : Type 0 where
  remote : String → Bool → Node
  write_through readonly read_through : Node → Node → Node
  disk : Node

-- What `StorageBackend` type assertions find.
abbrev pub is_writable : Node → Bool
is_writable (remote url writable) = writable
is_writable (write_through local far) = true
is_writable (readonly local far) = false
is_writable (read_through local far) = true
is_writable disk = true

pub record Factory : Type 0 where
  pub want : String → Bool
  pub make : String → String ⊎ Node

pub data Error : Type 0 where
  cannot_create unknown_remote : String → Error

pub data Result (A : Type 0) : Type 0 where
  ok : A → Result A
  fails : Error → Result A
  panics : Result A

infixl 5 ◌>>=◌
abbrev pub ◌>>=◌ : {A B : Type 0} → Result A → (A → Result B) → Result B
ok a >>= f = f a
fails e >>= f = fails e
panics >>= f = panics

-- The remotes so far, and `canWrite`.
pub record Built : Type 0 where
  pub node : Option Node
  pub can_write : Bool

-- The first factory that wants the URL.
unfoldable pub make_remote : List Factory → String → Result Node
make_remote [] url = fails (unknown_remote url)
make_remote (f ∷ fs) url =
    let rest = make_remote fs url in
    if f.want url
    then elim (f.make url) [ inl e ↦ fails (cannot_create url) | inr n ↦ ok n ]
    else rest

-- `NewWriteThroughStorageBackend(next, remote.(StorageBackend))`.
abbrev pub assert_write_through : Node → Node → Result Node
assert_write_through next far = if is_writable far then ok (write_through next far) else panics

unfoldable pub add_remote : Bool → Node → Built → Result Built
add_remote through next b = elim b.node [
  | none ↦ ok (record { node = some next; can_write = is_writable next })
  | some far ↦
      if through && (b.can_write && is_writable next)
      then (assert_write_through next far >>= λ n. ok (record b { node = some n }))
      else ok (record { node = some (readonly next far); can_write = false })
]

-- The loop over the arguments, from the last.
unfoldable pub chain : List Factory → Bool → List String → Result Built
unfolding make_remote add_remote
chain fs through [] = ok (record { node = none; can_write = true })
chain fs through (url ∷ urls) =
    chain fs through urls >>= λ b. make_remote fs url >>= λ next. add_remote through next b

-- The backend of the run.
unfoldable pub over_disk : Bool → Built → Result Node
over_disk through b = elim b.node [
  | none ↦ ok disk
  | some far ↦
      if through && b.can_write then assert_write_through disk far else ok (read_through disk far)
]

unfoldable pub full_args : Bool → List String → List String → List String → List String
full_args with_defaults defaults env args =
    (if with_defaults then defaults else []) ++ (env ++ args)

unfoldable pub make_backend : List Factory → Bool → List String → Result Node
unfolding chain over_disk
make_backend fs through args = chain fs through args >>= λ b. over_disk through b

-- `WithDefaultRemotes`: whether some factory wants each; a panic if not.
unfoldable pub wanted : List Factory → String → Bool
wanted [] url = false
wanted (f ∷ fs) url = let rest = wanted fs url in if f.want url then true else rest

unfoldable pub with_default_remotes :
    List Factory → List String → List String → Option (List String)
unfolding wanted
with_default_remotes fs [] defaults = none
with_default_remotes fs (url ∷ []) defaults =
    if wanted fs url then some (defaults ++ url ∷ []) else none
with_default_remotes fs (url ∷ next ∷ urls) defaults =
    let rest = with_default_remotes fs (next ∷ urls) (defaults ++ url ∷ []) in
    if wanted fs url then rest else none
