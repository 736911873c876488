-- ===== src/Apt/Source/Laws.antt =====
-- addons/bootstrap/apt/source.go: what is read back from the map of a source.
use gdev.Base.{
  ℕ, ◌≡◌, refl, sym, ap, ◌∙◌, Bool, true, false, List, [], ◌∷◌, ◌++◌, arith, inl, inr, All,
  Sum-cases,
}
use gdev.Apt.Text.{Text, same_text, is_empty, join, fields, has_space, has_char, split-join}
use gdev.Apt.Stanza.{Content}
use gdev.Apt.Source.{
  Source, types_key, uris_key, suites_key, components_key, architectures_key, signed_by_key,
  enabled_key, yes, deb, defaults, entry, text_entry, entries, to_deb822, set_field, set_fields,
  empty_source, from_deb822,
}

module _ (space : ℕ → Bool) where
  abbrev pub IsWord : Text → Type 0
  IsWord w = (has_space space w ≡ false) × (is_empty w ≡ false)

  -- The fields are lists of words, and no architecture has a comma.
  pub record IsSource (s : Source) : Type 0 where
    pub types : All IsWord s.types
    pub uris : All IsWord s.uris
    pub suites : All IsWord s.suites
    pub components : All IsWord s.components
    pub architectures : All (λ a. has_char 44 a ≡ false) s.architectures

  fields-word :
      (w : Text) → has_space space w ≡ false → is_empty w ≡ false → fields space w ≡ w ∷ []
  unfolding fields has_space
  fields-word [] h n = absurd (ground arith)
  fields-word (c ∷ []) h n = ground arith
  fields-word (c ∷ d ∷ w) h n = ground (arith, fields-word (d ∷ w))

  fields-next :
      (w rest : Text)
      → space 32 ≡ true
      → has_space space w ≡ false
      → is_empty w ≡ false
      → fields space (w ++ 32 ∷ rest) ≡ w ∷ fields space rest
  unfolding fields has_space
  fields-next [] rest b h n = absurd (ground arith)
  fields-next (c ∷ []) rest b h n = ground arith
  fields-next (c ∷ d ∷ w) rest b h n = ground (arith, fields-next (d ∷ w) rest b)

  fields-join : (ws : List Text) → space 32 ≡ true → All IsWord ws → fields space (join 32 ws) ≡ ws
  unfolding join fields
  fields-join [] b h = refl
  fields-join (w ∷ []) b h = fields-word w h.0.0 h.0.1
  fields-join (w ∷ v ∷ ws) b h =
      fields-next w (join 32 (v ∷ ws)) b h.0.0 h.0.1 ∙ ap (λ l. w ∷ l) (fields-join (v ∷ ws) b h.1)

module _ (space : ℕ → Bool) (blank : space 32 ≡ true) where
  set_fields-append :
      (a b : Content) (s s' : Source)
      → set_fields space a s ≡ inr s'
      → set_fields space (a ++ b) s ≡ set_fields space b s'
  unfolding set_fields
  set_fields-append [] b s s' e = ground arith
  set_fields-append ((k, v) ∷ a) b s s' e = elim (Sum-cases (set_field space k v s)) [
    | inl (x, q) ↦ absurd (ground (arith, q))
    | inr (s1, q) ↦ ground (arith, q, set_fields-append a b s1 s')
  ]

  -- The entry of a list sets its field; an empty list has none, and its field stays empty.
  set_fields-entry :
      (key : Text) (sep : ℕ) (ws : List Text) (s s' : Source)
      → (ws ≡ [] → s ≡ s')
      → (¬ (ws ≡ []) → set_field space key (join sep ws) s ≡ inr s')
      → set_fields space (entry key sep ws) s ≡ inr s'
  unfolding set_fields
  set_fields-entry key sep [] s s' h k = ap inr (h refl)
  set_fields-entry key sep (w ∷ ws) s s' h k = ground (arith, k (λ e. cc))

  -- A list of words that is the value of its key.
  words-entry :
      (key : Text) (set : List Text → Source) (s : Source) (ws : List Text)
      → set [] ≡ s
      → All (IsWord space) ws
      → ((value : Text) → set_field space key value s ≡ inr (set (fields space value)))
      → set_fields space (entry key 32 ws) s ≡ inr (set ws)
  words-entry key set s ws e h f =
      set_fields-entry key 32 ws s (set ws) (λ n. sym e ∙ ap set (sym n))
        (λ n. f (join 32 ws) ∙ ap (λ l. inr (set l)) (fields-join space ws blank h))

  architectures-entry :
      (s : Source)
      → s.architectures ≡ []
      → (ws : List Text) → All (λ a. has_char 44 a ≡ false) ws
      → set_fields space (entry architectures_key 44 ws) s ≡ inr (record s { architectures = ws })
  unfolding set_field same_text set_fields
  architectures-entry s e [] h = ap inr (ap (λ l. record s { architectures = l }) e)
  architectures-entry s e (w ∷ ws) h =
      ap (λ l. inr (record s { architectures = l })) (split-join 44 w ws h)

  signed_by-entry :
      (s : Source) (t : Text)
      → s.signed_by ≡ []
      → set_fields space (text_entry signed_by_key t) s ≡ inr (record s { signed_by = t })
  unfolding set_field same_text set_fields
  signed_by-entry s [] e = ap inr (ap (λ l. record s { signed_by = l }) e)
  signed_by-entry s (c ∷ t) e = refl

  -- FromDeb822 reads back the fields of a source whose words have no space and whose architectures have
  -- no comma.
  pub from_deb822-entries : (s : Source) → IsSource space s → from_deb822 space (entries s) ≡ inr s
  unfolding entries from_deb822 set_field same_text
  from_deb822-entries s h =
      let s1 = record empty_source { types = s.types } in
      let s2 = record s1 { uris = s.uris } in
      let s3 = record s2 { suites = s.suites } in
      let s4 = record s3 { components = s.components } in
      let s5 = record s4 { architectures = s.architectures } in
      set_fields-append (entry types_key 32 s.types) _ empty_source s1 (
        words-entry types_key (λ l. record empty_source { types = l }) empty_source s.types refl
          h.types (λ v. refl))
      ∙ (set_fields-append (entry uris_key 32 s.uris) _ s1 s2
            (words-entry uris_key (λ l. record s1 { uris = l }) s1 s.uris refl h.uris (λ v. refl))
          ∙ (set_fields-append (entry suites_key 32 s.suites) _ s2 s3 (
                words-entry suites_key (λ l. record s2 { suites = l }) s2 s.suites refl h.suites
                  (λ v. refl))
              ∙ (set_fields-append (entry components_key 32 s.components) _ s3 s4 (
                    words-entry components_key (λ l. record s3 { components = l }) s3 s.components
                      refl h.components (λ v. refl))
                  ∙ (set_fields-append (entry architectures_key 44 s.architectures) _ s4 s5
                        (architectures-entry s4 refl s.architectures h.architectures)
                      ∙ signed_by-entry s5 s.signed_by refl))))

  defaults-types :
      (s : Source)
      → IsWord space deb
      → All (IsWord space) s.types
      → All (IsWord space) (defaults s).types
  unfolding defaults
  defaults-types s w h = ground (arith, w, h)

  defaults-IsSource :
      (s : Source) → IsWord space deb → IsSource space s → IsSource space (defaults s)
  unfolding defaults
  defaults-IsSource s w h = record {
    types = defaults-types s w h.types;
    uris = ground (arith, h.uris);
    suites = ground (arith, h.suites);
    components = ground (arith, h.components);
    architectures = ground (arith, h.architectures);
  }

  -- ToDeb822 always adds the key Enabled, which FromDeb822 does not know: it refuses the map that
  -- ToDeb822 makes of a source whose words, and the word deb, are not empty and have no space, and whose architectures have no
  -- comma.
  pub from_deb822-to_deb822 :
      (s : Source)
      → IsWord space deb
      → IsSource space s
      → from_deb822 space (to_deb822 s).0 ≡ inl enabled_key
  unfolding to_deb822 from_deb822 set_fields set_field same_text
  from_deb822-to_deb822 s w h =
      set_fields-append (entries (defaults s)) ((enabled_key, yes) ∷ []) empty_source (defaults s)
        (from_deb822-entries (defaults s) (defaults-IsSource s w h))
