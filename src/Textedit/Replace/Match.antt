-- ===== src/Textedit/Replace/Match.antt =====
-- addons/bootstrap/textedit/replace-line.go: which line `ReplaceLine` replaces.
use mathlib.Core.List.{append-nil, append_assoc, map-append}
use gdev.Base.{
  String, ℕ, suc, ◌≤◌, ◌≡◌, refl, ap, sym, true, false, Option, none, some, List, [], ◌∷◌, ◌++◌,
  map, ◌==◌, if◌then◌else◌, arith, eq_iff, ◌∙◌, length, get_elem?, eqb, take, take-snoc, take_all,
  get_elem?-bound, inl, inr, ◌⊎◌, subst, Option-cases, Bool-cases,
}
use gdev.Textedit.Editor.{Output, emits, prepend, emitted, outputs}
use gdev.Textedit.Replace.{ReplaceEditor, replace_next, replace_eof, replace_editor, advance}

module _ (trim : String → String) (r : ReplaceEditor) where
  -- The line that is written in place of `l`, where `l` is the old line or the new one.
  abbrev pub Replaces : String → String → Type 0
  Replaces l l' = ((trim l ≡ r.old_line) × (l' ≡ r.new_line)) ⊎ ((trim l ≡ r.new_line) × (l' ≡ l))

  -- A run after the lines `seen`: at most one line is replaced, and only right after the previous
  -- lines. Without one, the run fails just if it must match.
  pub data Run : List String → List String → Option (List String) → Type 0 where
    unmatched : {seen : List String} → Run seen [] (if r.must_match then none else some [])
    matched :
        {l l' : String} {seen after : List String} (front recent : List String)
        → seen ≡ front ++ recent
        → map trim recent ≡ r.previous_lines
        → Replaces l l'
        → Run seen (l ∷ after) (some (l' ∷ after))
    later :
        {l : String} {seen ls : List String} {o : Option (List String)}
        → Run (seen ++ l ∷ []) ls o
        → Run seen (l ∷ ls) (prepend (l ∷ []) o)

  abbrev at_pos : ℕ → ReplaceEditor
  at_pos k = record r { prev_pos = k }

  -- The position after a line that is not replaced.
  data Moves (l : String) (k : ℕ) : ℕ → Type 0 where
    reset : Moves l k 0
    again : get_elem? r.previous_lines 0 ≡ some (trim l) → Moves l k 1
    on : get_elem? r.previous_lines k ≡ some (trim l) → Moves l k (suc k)

  abbrev made : ReplaceEditor
  made = record r { found = true; prev_pos = 0 }

  data Stepped (l : String) (k : ℕ) : Output × ReplaceEditor → Type 0 where
    replaced :
        {l' : String}
        → k ≡ length r.previous_lines
        → Replaces l l'
        → Stepped l k (emits (l' ∷ []), made)
    moved : {j : ℕ} → Moves l k j → Stepped l k (emits (l ∷ []), at_pos j)

  advance-cases :
      (l : String) (k : ℕ)
      → k ≤ length r.previous_lines
      → (advance (trim l) (at_pos k) ≡ at_pos 0)
        ⊎ ((get_elem? r.previous_lines k ≡ some (trim l))
            × (advance (trim l) (at_pos k) ≡ at_pos (suc k)))
  unfolding advance
  advance-cases l k h = elim (Option-cases (get_elem? r.previous_lines k)) [
    | inl x ↦ ground arith
    | inr (p, x) ↦ ground (arith, eq_iff (trim l) p)
  ]

  replace_next-cases :
      (l : String) (k : ℕ)
      → r.found ≡ false
      → ((k ≡ length r.previous_lines)
          × ((l' : String) × Replaces l l'
              × (replace_next trim l (at_pos k) ≡ (emits (l' ∷ []), made))))
        ⊎ ((replace_next trim l (at_pos k) ≡ (emits (l ∷ []), advance (trim l) (at_pos 0)))
            ⊎ (replace_next trim l (at_pos k) ≡ (emits (l ∷ []), advance (trim l) (at_pos k))))
  unfolding replace_next
  replace_next-cases l k h = elim (Bool-cases (eqb k (length r.previous_lines))) [
    | inr x ↦ inr (inr (ground arith))
    | inl x ↦ elim (Bool-cases (trim l == r.old_line)) [
      | inl y ↦ inl (
        ground arith,
        (r.new_line, inl (ground (arith, eq_iff (trim l) r.old_line), refl), ground arith),
      )
      | inr y ↦ elim (Bool-cases (trim l == r.new_line)) [
        | inl z ↦ inl (
          ground arith,
          (l, inr (ground (arith, eq_iff (trim l) r.new_line), refl), ground arith),
        )
        | inr z ↦ inr (inl (ground arith))
      ]
    ]
  ]

  next_pos :
      (l : String) (k j i : ℕ)
      → (j ≡ 0) ⊎ (j ≡ k)
      → get_elem? r.previous_lines j ≡ some (trim l)
      → i ≡ suc j
      → Moves l k i
  next_pos l k j i (inl z) g e = subst (Moves l k) (sym (e ∙ ap suc z)) (again (rw z at g))
  next_pos l k j i (inr z) g e = subst (Moves l k) (sym (e ∙ ap suc z)) (on (rw z at g))

  moved_from :
      (l : String) (k j : ℕ)
      → j ≤ length r.previous_lines
      → (j ≡ 0) ⊎ (j ≡ k)
      → replace_next trim l (at_pos k) ≡ (emits (l ∷ []), advance (trim l) (at_pos j))
      → Stepped l k (replace_next trim l (at_pos k))
  moved_from l k j b c e = elim (advance-cases l j b) [
    | inl a ↦ subst (Stepped l k) (sym (e ∙ ap (λ s. (emits (l ∷ []), s)) a)) (moved reset)
    | inr (g, a) ↦
        subst (Stepped l k) (sym (e ∙ ap (λ s. (emits (l ∷ []), s)) a))
          (moved (next_pos l k j (suc j) c g refl))
  ]

  replace_next-Stepped :
      (l : String) (k : ℕ)
      → k ≤ length r.previous_lines
      → r.found ≡ false
      → Stepped l k (replace_next trim l (at_pos k))
  replace_next-Stepped l k b h = elim (replace_next-cases l k h) [
    | inl (x, (l', m, e)) ↦ subst (Stepped l k) (sym e) (replaced x m)
    | inr (inl e) ↦ moved_from l k 0 (omega arith) (inl refl) e
    | inr (inr e) ↦ moved_from l k k b (inr refl) e
  ]

  outputs-made : (ls : List String) → outputs (replace_editor trim) ls made ≡ some ls
  unfolding outputs replace_next replace_eof
  outputs-made [] = ground arith
  outputs-made (l ∷ ls) = ground (arith, outputs-made ls)

  -- The last lines of `seen` are the first `k` previous lines.
  record Ends (seen : List String) (k : ℕ) : Type 0 where
    front : List String
    recent : List String
    parts : seen ≡ front ++ recent
    same : map trim recent ≡ take k r.previous_lines

  Ends-on :
      (seen : List String) (l : String) (k : ℕ)
      → Ends seen k
      → get_elem? r.previous_lines k ≡ some (trim l)
      → Ends (seen ++ l ∷ []) (suc k)
  Ends-on seen l k h g = record {
    front = h.front;
    recent = h.recent ++ l ∷ [];
    parts = rw h.parts (append_assoc h.front h.recent (l ∷ []));
    same =
        map-append trim h.recent (l ∷ [])
        ∙ ap (λ x. x ++ trim l ∷ []) h.same
        ∙ sym (take-snoc k r.previous_lines (trim l) g);
  }

  Ends-none : (seen : List String) → Ends seen 0
  Ends-none seen = record { front = seen; recent = []; parts = sym (append-nil seen); same = refl }

  Moves-Ends :
      (seen : List String) (l : String) (k j : ℕ)
      → Ends seen k
      → Moves l k j
      → Ends (seen ++ l ∷ []) j
  Moves-Ends seen l k _ h reset = Ends-none _
  Moves-Ends seen l k _ h (again g) = Ends-on seen l 0 (Ends-none seen) g
  Moves-Ends seen l k _ h (on g) = Ends-on seen l k h g

  Moves-bound :
      (l : String) (k j : ℕ)
      → k ≤ length r.previous_lines
      → Moves l k j
      → j ≤ length r.previous_lines
  Moves-bound l k _ b reset = omega arith
  Moves-bound l k _ b (again g) = omega (arith, get_elem?-bound r.previous_lines 0 (trim l) g)
  Moves-bound l k _ b (on g) = omega (arith, get_elem?-bound r.previous_lines k (trim l) g)

  -- The rest of a run, after the first step.
  rest_of : List String → Output × ReplaceEditor → Option (List String)
  rest_of ls (o, s) = emitted (replace_editor trim) o (outputs (replace_editor trim) ls s)

  after_step :
      (l : String) (ls seen : List String) (k : ℕ) (q : Output × ReplaceEditor)
      → Ends seen k
      → Stepped l k q
      → ((j : ℕ)
          → Moves l k j
          → Run (seen ++ l ∷ []) ls (outputs (replace_editor trim) ls (at_pos j)))
      → Run seen (l ∷ ls) (rest_of ls q)
  unfolding rest_of outputs
  after_step l ls seen k _ w (replaced {l' = l'} e m) ih =
      subst (λ o. Run seen (l ∷ ls) (prepend (l' ∷ []) o)) (sym (outputs-made ls))
        (matched w.front w.recent w.parts
          (w.same ∙ (ap (λ n. take n r.previous_lines) e ∙ take_all r.previous_lines)) m)
  after_step l ls seen k _ w (moved {j = j} m) ih = later (ih j m)

  outputs-Run_from :
      (ls seen : List String) (k : ℕ)
      → k ≤ length r.previous_lines
      → r.found ≡ false
      → Ends seen k
      → Run seen ls (outputs (replace_editor trim) ls (at_pos k))
  unfolding outputs replace_eof replace_next rest_of
  outputs-Run_from [] seen k b h w = subst (Run seen []) (ground arith) unmatched
  outputs-Run_from (l ∷ ls) seen k b h w =
      after_step l ls seen k (replace_next trim l (at_pos k)) w (replace_next-Stepped l k b h)
        λ j m.
          outputs-Run_from ls (seen ++ l ∷ []) j (Moves-bound l k j b m) h
            (Moves-Ends seen l k j w m)

  -- A run of a fresh `ReplaceLine` editor replaces at most one line: an old line by the new one, or
  -- the new line by itself, right after the previous lines. Without such a line it copies the file,
  -- or fails if it must match.
  pub replace_line-outputs :
      (ls : List String)
      → r.found ≡ false
      → r.prev_pos ≡ 0
      → Run [] ls (outputs (replace_editor trim) ls r)
  replace_line-outputs ls h k =
      subst (λ n. Run [] ls (outputs (replace_editor trim) ls (at_pos n))) (sym k)
        (outputs-Run_from ls [] 0 (omega arith) h (Ends-none []))
