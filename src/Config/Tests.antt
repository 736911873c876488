-- ===== src/Config/Tests.antt =====
-- lib/config: two keys, one of them with its default, are saved and loaded.
use gdev.Base.{
  ℕ, String, ◌≡◌, refl, ap, true, ◌&&◌, none, some, [], ◌∷◌, if◌then◌else◌, eqb, ◌⊎◌, inl, inr,
  arith, ◌==◌, eq_iff, Bool-cases,
}
use gdev.Base.Dict.{Dict, lookup}
use gdev.Config.{
  Error, other, Key, Config, ok, fails, panics, Yaml, Faults, text, unreadable, add_key, get,
  initialize, save,
}
use gdev.Config.Saved.{Distinct, IsFor, AllKept, raws, initialize-save}

abbrev port : Key ℕ ℕ
port = record { id = 1; is_default = λ v. eqb v 80; fresh = 80; new_from = λ r. inr r }

abbrev level : Key ℕ ℕ
level = record { id = 2; is_default = λ v. eqb v 0; fresh = 0; new_from = λ r. inr r }

abbrev keys : Dict (Key ℕ ℕ)
keys = ("port", port) ∷ ("level", level) ∷ []

abbrev values : Dict ℕ
values = ("port", 8080) ∷ ("level", 0) ∷ []

abbrev config : Config ℕ ℕ
config = record { keys = keys; values = some values; dirty = 1 }

-- A library that can print one map only.
abbrev encode : Dict ℕ → Error ⊎ String
encode [] = inl (other "empty")
encode ((name, v) ∷ []) =
    if name == "port" && eqb v 8080 then inr "port: 8080" else inl (other "unsupported")
encode ((name, v) ∷ kv ∷ rest) = inl (other "unsupported")

abbrev yaml : Yaml ℕ ℕ
yaml = record { decode = λ t. inr (("port", 8080) ∷ []); encode = encode }

abbrev works : Faults
works = record { create = none; sync = none; close = none; rename = none }

distinct : Distinct values
unfolding lookup
distinct = (refl, (refl, tt))

abbrev raw : ℕ → ℕ
raw v = v

one-eq :
    (name : String) (v : ℕ)
    → (name == "port" && eqb v 8080) ≡ true
    → ◌≡◌ {A = String × ℕ} ("port", 8080) (name, v)
one-eq name v h = ground (arith, eq_iff name "port")

reads : (m : Dict ℕ) (u : String) → yaml.encode m ≡ inr u → yaml.decode u ≡ inr (raws raw m)
reads [] u e = cc
reads ((name, v) ∷ []) u e = elim (Bool-cases (name == "port" && eqb v 8080)) [
  | inl h ↦ ap (λ kv. inr (kv ∷ [])) (one-eq name v h)
  | inr h ↦ absurd (ground (arith, h, e))
]
reads ((name, v) ∷ kv ∷ rest) u e = cc

saved : save yaml works config ≡ ok "port: 8080"
unfolding save lookup
saved = refl

kept : AllKept raw keys
unfolding lookup
kept name k e = (λ v. ground (arith, e), λ v d. ground (arith, e, d))

matching : IsFor raw keys values
unfolding lookup
matching name = ground arith

registered : add_key "port" port config ≡ panics
unfolding add_key lookup
registered = refl

stale : get "port" 7 config ≡ none
unfolding get lookup
stale = refl

unread :
    (initialize yaml (unreadable (other "denied")) (record config { values = none })).0
    ≡ fails (other "denied")
unfolding initialize
unread = refl

initialize-save_example :
    (now : Dict ℕ) × ((initialize yaml (text "port: 8080") (record config { values = none })).0
      ≡ ok tt)
    × ((initialize yaml (text "port: 8080") (record config { values = none })).1.values ≡ some now)
    × ((name : String) → lookup name now ≡ lookup name values)
initialize-save_example =
    initialize-save raw yaml works config values "port: 8080" kept matching distinct reads refl
      saved
