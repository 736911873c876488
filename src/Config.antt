-- ===== src/Config.antt =====
-- lib/config: registered keys, their values, and the file that keeps them.
--
-- `V` is a value in memory and `R` what the YAML decoder gives for one. `Yaml` and `Files` stand for the
-- library and the operating system. A Go map is an association list in which no name stands twice.
pub mod Saved
mod Tests
use gdev.Base.{
  ℕ, ◌+◌, String, Bool, true, false, Option, none, some, List, [], ◌∷◌, if◌then◌else◌, ltb, eqb,
  is_some, ◌⊎◌, inl, inr, map,
}
use gdev.Base.Dict.{Dict, lookup, insert}

pub data Error : Type 0 where
  unknown_key not_initialized : Error
  other : String → Error
  wrap : String → Error → Error

-- `anyConfigKey`; `id` is the identity of the registered key.
pub record Key (V R : Type 0) : Type 0 where
  pub id : ℕ
  pub is_default : V → Bool
  pub fresh : V
  pub new_from : R → Error ⊎ V

pub record Config (V R : Type 0) : Type 0 where
  pub keys : Dict (Key V R)
  pub values : Option (Dict V)
  pub dirty : ℕ

pub data Result (A : Type 0) : Type 0 where
  ok : A → Result A
  fails : Error → Result A
  panics : Result A

-- The library: what a text decodes to, and the text of a map.
pub record Yaml (V R : Type 0) : Type 0 where
  pub decode : String → Error ⊎ Dict R
  pub encode : Dict V → Error ⊎ String

-- What opening the file gives, and the errors of the steps of a save.
pub data Opened : Type 0 where
  absent : Opened
  unreadable : Error → Opened
  text : String → Opened

pub record Faults : Type 0 where
  pub create : Option Error
  pub sync : Option Error
  pub close : Option Error
  pub rename : Option Error

-- `maps.Copy(data, new)`.
unfoldable pub copy_values : {V : Type 0} → Dict V → Dict V → Dict V
copy_values [] values = values
copy_values ((name, v) ∷ new) values = insert name v (copy_values new values)

module _ {V R : Type 0} where
  abbrev pub new_config : Config V R
  new_config = record { keys = []; values = none; dirty = 0 }

  unfoldable pub add_key : String → Key V R → Config V R → Result (Config V R)
  add_key name k c =
      if is_some (lookup name c.keys) then panics else ok (record c { keys = insert name k c.keys })

  abbrev pub set_dirty : Config V R → Config V R
  set_dirty c = record c { dirty = c.dirty + 1 }

  abbrev pub is_dirty : Config V R → Bool
  is_dirty c = ltb 0 c.dirty

  -- The value of a registered key; a key that is not the registered one panics, as does a missing value.
  unfoldable pub get : String → ℕ → Config V R → Option V
  get name id c = elim (lookup name c.keys) [
    | none ↦ none
    | some k ↦
        if eqb k.id id
        then elim c.values [ none ↦ none | some values ↦ lookup name values ]
        else none
  ]

  unfoldable pub fresh_values : Dict (Key V R) → Dict V
  fresh_values [] = []
  fresh_values ((name, k) ∷ keys) = (name, k.fresh) ∷ fresh_values keys

  -- The first loop of `load`.
  unfoldable pub all_known : Dict (Key V R) → Dict R → Bool
  all_known keys [] = true
  all_known keys ((name, r) ∷ decoded) =
      let rest = all_known keys decoded in if is_some (lookup name keys) then rest else false

  -- The second loop: a value for each entry, or the error of one.
  unfoldable pub new_values : Dict (Key V R) → Dict R → Result (Dict V)
  new_values keys [] = ok []
  new_values keys ((name, r) ∷ decoded) =
      let rest = new_values keys decoded in
      elim (lookup name keys) [
        | none ↦ panics
        | some k ↦ elim (k.new_from r) [
          | inl e ↦ fails (wrap "error loading config key" e)
          | inr v ↦ elim rest [
            | ok values ↦ ok ((name, v) ∷ values)
            | fails e ↦ fails e
            | panics ↦ panics
          ]
        ]
      ]

  abbrev loaded : Dict V → Result (Dict V) → Config V R → Result Unit × Config V R
  loaded old (ok new) c = (ok tt, record c { values = some (copy_values new old) })
  loaded old (fails e) c = (fails e, c)
  loaded old panics c = (panics, c)

  -- The values that are not the default; a value with no key panics.
  unfoldable pub to_save : Dict (Key V R) → Dict V → Option (Dict V)
  to_save keys [] = some []
  to_save keys ((name, v) ∷ values) =
      let rest = to_save keys values in
      elim (lookup name keys) [
        | none ↦ none
        | some k ↦ elim rest [
          | none ↦ none
          | some saved ↦ some (if k.is_default v then saved else (name, v) ∷ saved)
        ]
      ]

  module _ (yaml : Yaml V R) where
    -- `load`, over the values `old`.
    unfoldable pub load : Opened → Dict V → Config V R → Result Unit × Config V R
    unfolding all_known new_values copy_values
    load absent old c = (ok tt, c)
    load (unreadable e) old c = (fails e, c)
    load (text t) old c = elim (yaml.decode t) [
      | inl e ↦ (fails (wrap "error loading config" e), c)
      | inr decoded ↦
          if all_known c.keys decoded
          then loaded old (new_values c.keys decoded) c
          else (fails unknown_key, c)
    ]

    unfoldable pub initialize : Opened → Config V R → Result Unit × Config V R
    unfolding load fresh_values
    initialize file c = elim c.values [
      | some values ↦ (panics, c)
      | none ↦ load file (fresh_values c.keys) (record c { values = some (fresh_values c.keys) })
    ]

    abbrev step : {A : Type 0} → String → Option Error → Result A → Result A
    step m none r = r
    step m (some e) r = fails (wrap m e)

    -- `Save`: the text that takes the place of the file, if there is no error.
    unfoldable pub save : Faults → Config V R → Result String
    unfolding to_save
    save f c = elim c.values [
      | none ↦ fails not_initialized
      | some values ↦
          step "error creating config temp file" f.create (elim (to_save c.keys values) [
            | none ↦ panics
            | some saved ↦ elim (yaml.encode saved) [
              | inl e ↦ fails (wrap "error writing config file" e)
              | inr t ↦ step "error syncing config file" f.sync (
                  step "error closing config file" f.close
                    (step "error renaming config file" f.rename (ok t)))
            ]
          ])
    ]
