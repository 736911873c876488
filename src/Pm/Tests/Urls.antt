-- ===== src/Pm/Tests/Urls.antt =====
-- addons/pm/client/http.go: paths that are cut at their slashes, for the client's runs.
use Prim.Native.Char.{Char, code as char_code}
use Prim.Native.String.{◌++◌ as ◌<>◌}
use text.Mathlib.TextBridge.{to_list, of_list, to_list-of_list, of_list-to_list, of_list-++}
use gdev.Base.{
  String, ◌≡◌, refl, sym, ap, ◌∙◌, false, List, [], ◌∷◌, ◌++◌, if◌then◌else◌, ◌==◌, ◌||◌, eqb, map,
  arith,
}
use gdev.Pm.Http.{Urls, url}
use gdev.Pm.Http.Relay.{has_slash, IsSegment, Routes}

abbrev push : Char → List (List Char) → List (List Char)
push c [] = (c ∷ []) ∷ []
push c (w ∷ ws) = (c ∷ w) ∷ ws

abbrev split : List Char → List (List Char)
split [] = [] ∷ []
split (c ∷ cs) = let rest = split cs in if eqb (char_code c) 47 then [] ∷ rest else push c rest

-- The segments less the empty ones and the dots.
abbrev kept : List String → List String
kept [] = []
kept (w ∷ ws) = let rest = kept ws in if w == "" || w == "." then rest else w ∷ rest

abbrev segments : List Char → List String
segments cs = kept (map of_list (split cs))

abbrev pub split_urls : Urls
split_urls = record { resolve = λ p. p; clean = λ p. p; segments = λ p. segments (to_list p) }

to_list-append : (s t : String) → to_list (s <> t) ≡ to_list s ++ to_list t
to_list-append s t =
    sym (
      ap to_list (
        of_list-++ (to_list s) (to_list t)
        ∙ (ap (λ a. a <> of_list (to_list t)) (of_list-to_list s)
            ∙ ap (λ b. s <> b) (of_list-to_list t))))
    ∙ to_list-of_list (to_list s ++ to_list t)

to_list-front : (l : List Char) (s : String) → to_list (of_list l <> s) ≡ l ++ to_list s
to_list-front l s = to_list-append (of_list l) s ∙ ap (λ a. a ++ to_list s) (to_list-of_list l)

split-name : (w : List Char) → has_slash w ≡ false → split w ≡ w ∷ []
split-name [] h = refl
split-name (c ∷ w) h = ground (arith, split-name w)

split-next : (w rest : List Char) → has_slash w ≡ false → split (w ++ "/" ∷ rest) ≡ w ∷ split rest
split-next [] rest h = refl
split-next (c ∷ w) rest h = ground (arith, split-next w rest)

abbrev child_front : List Char
child_front = "/" ∷ "c" ∷ "h" ∷ "i" ∷ "l" ∷ "d" ∷ "/" ∷ []

abbrev root_front : List Char
root_front = "/" ∷ "." ∷ "/" ∷ []

child-segments : (s : String) → url split_urls ("/child/" <> s) ≡ "child" ∷ segments (to_list s)
unfolding url
child-segments s = ap segments (
    to_list-front root_front ("/child/" <> s)
    ∙ ap (λ l. root_front ++ l) (to_list-front child_front s))

kept-name :
    (name : String) (ws : List String)
    → IsSegment name
    → kept (of_list (to_list name) ∷ ws) ≡ name ∷ kept ws
kept-name name ws (_, (some_, (dot, _))) = rw (of_list-to_list name, some_, dot) refl

one-segments : (name : String) → IsSegment name → segments (to_list name) ≡ name ∷ []
one-segments name h =
    ap (λ l. kept (map of_list l)) (split-name (to_list name) h.0) ∙ kept-name name [] h

action-segments :
    (name : String) (action : List Char)
    → IsSegment name
    → segments (to_list (name <> of_list ("/" ∷ action))) ≡ name ∷ segments action
action-segments name action h =
    ap segments (
      to_list-append name (of_list ("/" ∷ action))
      ∙ ap (λ l. to_list name ++ l) (to_list-of_list ("/" ∷ action)))
    ∙ (ap (λ l. kept (map of_list l)) (split-next (to_list name) action h.0)
        ∙ kept-name name (map of_list (split action)) h)

fixed-segments : (l : List Char) → url split_urls (of_list l) ≡ segments (root_front ++ l)
unfolding url
fixed-segments l =
    ap segments
      (to_list-front root_front (of_list l) ∙ ap (λ m. root_front ++ m) (to_list-of_list l))

pub split_urls-Routes : Routes split_urls
split_urls-Routes = record {
  root = fixed-segments ("/" ∷ []);
  summary = fixed-segments ("/" ∷ "s" ∷ "u" ∷ "m" ∷ "m" ∷ "a" ∷ "r" ∷ "y" ∷ []);
  put = fixed-segments ("/" ∷ "c" ∷ "h" ∷ "i" ∷ "l" ∷ "d" ∷ []);
  terminate = fixed-segments ("/" ∷ "t" ∷ "e" ∷ "r" ∷ "m" ∷ "i" ∷ "n" ∷ "a" ∷ "t" ∷ "e" ∷ []);
  one = λ name h. child-segments name ∙ ap (λ l. "child" ∷ l) (one-segments name h);
  start = λ name h.
      child-segments (name <> "/start")
      ∙ ap (λ l. "child" ∷ l) (action-segments name ("s" ∷ "t" ∷ "a" ∷ "r" ∷ "t" ∷ []) h);
  stop = λ name h.
      child-segments (name <> "/stop")
      ∙ ap (λ l. "child" ∷ l) (action-segments name ("s" ∷ "t" ∷ "o" ∷ "p" ∷ []) h);
}
