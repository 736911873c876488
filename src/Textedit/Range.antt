-- ===== src/Textedit/Range.antt =====
-- addons/bootstrap/textedit/range.go: `SpliceRange`. The parameter `trim` is `strings.TrimSpace`.
use gdev.Base.{
  String, ◌≡◌, refl, ap, Bool, true, false, not, ◌||◌, Option, none, some, List, [], ◌∷◌, ◌++◌,
  ◌==◌, if◌then◌else◌, arith, eq_iff, ◌∙◌, All, subst,
}
use mathlib.Core.List.{append-nil, append_assoc}
use gdev.Textedit.Editor.{Output, emits, Editor, outputs}

pub record RangeEditor : Type 0 where
  pub start : String
  pub end_ : String
  pub start_ts : String
  pub end_ts : String
  pub content : List String
  pub start_found : Bool
  pub end_found : Bool

-- A list of lines as its content and its last line.
abbrev pub split_last : String → List String → List String × String
split_last x [] = ([], x)
split_last x (y ∷ ys) = let (content, last) = split_last y ys in (x ∷ content, last)

module _ (trim : String → String) where
  abbrev range_of : String → List String × String → Option RangeEditor
  range_of start (content, end_) =
      if trim start == "" || trim end_ == ""
      then none
      else some (record {
        start = start;
        end_ = end_;
        start_ts = trim start;
        end_ts = trim end_;
        content = content;
        start_found = false;
        end_found = false;
      })

  -- `none` is a panic.
  unfoldable pub splice_range : List String → Option RangeEditor
  splice_range [] = none
  splice_range (a ∷ []) = none
  splice_range (a ∷ b ∷ []) = none
  splice_range (a ∷ b ∷ c ∷ ls) = range_of a (split_last b (c ∷ ls))

  -- The new range, markers included.
  abbrev pub block : RangeEditor → List String
  block r = r.start ∷ r.content ++ r.end_ ∷ []

  unfoldable pub range_next : String → RangeEditor → Output × RangeEditor
  range_next line r =
      let tsl = trim line in
      if r.end_found
      then (emits (line ∷ []), r)
      else if r.start_found
      then if tsl == r.end_ts
        then (emits (block r), record r { end_found = true })
        else (emits [], r)
      else if tsl == r.start_ts
      then (emits [], record r { start_found = true })
      else (emits (line ∷ []), r)

  unfoldable pub range_eof : RangeEditor → Output
  range_eof r = if not r.end_found then emits (block r) else emits []

  abbrev pub range_editor : Editor RangeEditor
  range_editor = record { next = range_next; eof = range_eof }

  -- What `SpliceRange` promises: the first range between the markers is replaced; a range without an
  -- end marker goes on to the end of the file; without a start marker the range is appended.
  abbrev pub past_end : RangeEditor → List String → List String
  past_end r [] = block r
  past_end r (l ∷ ls) =
      let rest = past_end r ls in if trim l == r.end_ts then block r ++ ls else rest

  abbrev pub spliced : RangeEditor → List String → List String
  spliced r [] = block r
  spliced r (l ∷ ls) =
      let rest = spliced r ls in if trim l == r.start_ts then past_end r ls else l ∷ rest

  outputs-copied :
      (r : RangeEditor) (ls : List String)
      → r.end_found ≡ true
      → outputs range_editor ls r ≡ some ls
  unfolding outputs range_next range_eof
  outputs-copied r [] h = ground arith
  outputs-copied r (l ∷ ls) h = ground (arith, outputs-copied r ls h)

  outputs-past_end :
      (r : RangeEditor) (ls : List String)
      → r.end_found ≡ false
      → r.start_found ≡ true
      → outputs range_editor ls r ≡ some (past_end r ls)
  unfolding outputs range_next range_eof
  outputs-past_end r [] h k = ground (arith, append-nil (block r))
  outputs-past_end r (l ∷ ls) h k =
      ground
        (arith, outputs-past_end r ls h k, outputs-copied (record r { end_found = true }) ls refl)

  outputs-spliced :
      (r : RangeEditor) (ls : List String)
      → r.end_found ≡ false
      → r.start_found ≡ false
      → outputs range_editor ls r ≡ some (spliced r ls)
  unfolding outputs range_next range_eof
  outputs-spliced r [] h k = ground (arith, append-nil (block r))
  outputs-spliced r (l ∷ ls) h k = ground (
    arith,
    outputs-spliced r ls h k,
    outputs-past_end (record r { start_found = true }) ls h refl,
  )

  -- `end_` is the first line from here on that is the end marker.
  past_end-content :
      (r : RangeEditor) (xs tail : List String)
      → All (λ l. (trim l == r.end_ts) ≡ false) xs
      → trim r.end_ ≡ r.end_ts
      → past_end r (xs ++ r.end_ ∷ tail) ≡ block r ++ tail
  past_end-content r [] tail h e = ground (arith, eq_iff (trim r.end_) r.end_ts)
  past_end-content r (x ∷ xs) tail h e = ground (arith, h.0, past_end-content r xs tail h.1 e)

  -- The editor is as `SpliceRange` makes it, and no line of its content is an end marker.
  pub record IsClean (r : RangeEditor) : Type 0 where
    pub start : trim r.start ≡ r.start_ts
    pub end_ : trim r.end_ ≡ r.end_ts
    pub content : All (λ l. (trim l == r.end_ts) ≡ false) r.content

  spliced-block :
      (r : RangeEditor) (tail : List String)
      → IsClean r
      → spliced r (block r ++ tail) ≡ block r ++ tail
  spliced-block r tail h = simp (
    append_assoc r.content (r.end_ ∷ []) tail,
    past_end-content r r.content tail h.content h.end_,
    is_start,
  )
    where
      is_start : (trim r.start == r.start_ts) ≡ true
      is_start = ground (arith, eq_iff (trim r.start) r.start_ts, h.start)

  past_end-again :
      (r : RangeEditor) (ls : List String) → IsClean r → spliced r (past_end r ls) ≡ past_end r ls
  past_end-again r [] h = subst (λ l. spliced r l ≡ l) (append-nil (block r)) (spliced-block r [] h)
  past_end-again r (l ∷ ls) h = ground (arith, past_end-again r ls h, spliced-block r ls h)

  spliced-again :
      (r : RangeEditor) (ls : List String) → IsClean r → spliced r (spliced r ls) ≡ spliced r ls
  spliced-again r [] h = past_end-again r [] h
  spliced-again r (l ∷ ls) h = ground (arith, spliced-again r ls h, past_end-again r ls h)

  splice_range-fresh :
      (lines : List String) (r : RangeEditor)
      → splice_range lines ≡ some r
      → (r.end_found ≡ false)
        × (r.start_found ≡ false)
        × (trim r.start ≡ r.start_ts)
        × (trim r.end_ ≡ r.end_ts)
  unfolding splice_range
  splice_range-fresh [] r e = cc
  splice_range-fresh (a ∷ []) r e = cc
  splice_range-fresh (a ∷ b ∷ []) r e = cc
  splice_range-fresh (a ∷ b ∷ c ∷ ls) r e = (ground arith, ground arith, ground arith, ground arith)

  -- A fresh `SpliceRange` editor never fails: it replaces the first range between the markers, where
  -- a missing end marker stands for the end of the file, and appends the range where there is no
  -- start marker.
  pub splice_range-outputs :
      (lines ls : List String) (r : RangeEditor)
      → splice_range lines ≡ some r
      → outputs range_editor ls r ≡ some (spliced r ls)
  splice_range-outputs lines ls r e =
      let f = splice_range-fresh lines r e in outputs-spliced r ls f.0 f.1

  -- If no line of the content of a `SpliceRange` editor is its end marker, then a second run, on what
  -- the first wrote, changes nothing.
  pub splice_range-again :
      (lines ls : List String) (r : RangeEditor)
      → splice_range lines ≡ some r
      → All (λ l. (trim l == r.end_ts) ≡ false) r.content
      → outputs range_editor (spliced r ls) r ≡ some (spliced r ls)
  splice_range-again lines ls r e clean =
      let f = splice_range-fresh lines r e in
      outputs-spliced r (spliced r ls) f.0 f.1
      ∙ ap some (spliced-again r ls (record { start = f.2; end_ = f.3; content = clean }))
