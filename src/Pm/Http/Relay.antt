-- ===== src/Pm/Http/Relay.antt =====
-- addons/pm/client/http.go and server/http.go: the client over the server is the API itself.
use Prim.Native.String.{◌++◌ as ◌<>◌}
use Prim.Native.Char.{Char, code as char_code}
use text.Mathlib.TextBridge.{to_list}
use gdev.Base.{
  ℕ, String, ◌≡◌, Bool, false, Option, some, List, [], ◌∷◌, if◌then◌else◌, ◌==◌, eqb, ◌||◌,
}
use gdev.Pm.Api.{Child, ChildWithStatus, ChildSummary}
use gdev.Pm.Http.{
  ErrorCode, bad_request, Answer, answered, fails, ChildApi, Codec, HttpResponse, error_status,
  is_http_ok, Urls, url,
}

-- What the encodings promise: what the server writes is read back, and a child is read back if it is
-- valid and refused otherwise.
pub record Decodes {J : Type 0} (codec : Codec J) : Type 0 where
  pub status : (c : ChildWithStatus) → codec.read_status (codec.status_json c) ≡ some c
  pub summary : (c : List ChildSummary) → codec.read_summary (codec.summary_json c) ≡ some c
  pub child :
      (c : Child)
      → codec.read_child (codec.child_json c)
        ≡ (if codec.valid c then answered c else fails (some bad_request))

-- What becomes of an answer on its way: an error has its status code, or 500.
abbrev pub relayed : {A S : Type 0} → Answer ErrorCode A × S → Answer ℕ A × S
relayed (answered a, s) = (answered a, s)
relayed (fails e, s) = (fails (some (error_status e)), s)

abbrev pub has_slash : List Char → Bool
has_slash [] = false
has_slash (c ∷ cs) = eqb (char_code c) 47 || has_slash cs

-- A name that is one segment of a path.
abbrev pub IsSegment : String → Type 0
IsSegment name =
    (has_slash (to_list name) ≡ false)
    × (((name == "") ≡ false) × (((name == ".") ≡ false) × ((name == "..") ≡ false)))

-- What the URLs promise: the fixed paths are themselves, and the name of a child that is a segment is one
-- segment of its paths.
pub record Routes (urls : Urls) : Type 0 where
  pub root : url urls "/" ≡ []
  pub summary : url urls "/summary" ≡ "summary" ∷ []
  pub put : url urls "/child" ≡ "child" ∷ []
  pub terminate : url urls "/terminate" ≡ "terminate" ∷ []
  pub one : (name : String) → IsSegment name → url urls ("/child/" <> name) ≡ "child" ∷ name ∷ []
  pub start :
      (name : String)
      → IsSegment name
      → url urls ("/child/" <> (name <> "/start")) ≡ "child" ∷ name ∷ "start" ∷ []
  pub stop :
      (name : String)
      → IsSegment name
      → url urls ("/child/" <> (name <> "/stop")) ≡ "child" ∷ name ∷ "stop" ∷ []

-- Each call of the client, on names that are one segment, is the call of the API behind the server; a
-- child that is not valid is refused with 400.
pub record Relays {J S : Type 0} (codec : Codec J) (api : ChildApi ErrorCode S) (c : ChildApi ℕ S)
    : Type 0 where
  pub ping : (s : S) → c.ping s ≡ relayed (api.ping s)
  pub summary : (s : S) → c.summary s ≡ relayed (api.summary s)
  pub child : (name : String) (s : S) → IsSegment name → c.child name s ≡ relayed (api.child name s)
  pub put_child :
      (x : Child) (s : S)
      → c.put_child x s
        ≡ (if codec.valid x then relayed (api.put_child x s) else (fails (some 400), s))
  pub start_child :
      (name : String) (s : S)
      → IsSegment name
      → c.start_child name s ≡ relayed (api.start_child name s)
  pub stop_child :
      (name : String) (s : S)
      → IsSegment name
      → c.stop_child name s ≡ relayed (api.stop_child name s)
  pub delete_child :
      (name : String) (s : S)
      → IsSegment name
      → c.delete_child name s ≡ relayed (api.delete_child name s)
  pub terminate : (s : S) → c.terminate s ≡ relayed (api.terminate s)

module _ {J S : Type 0} (codec : Codec J) where
  abbrev received : HttpResponse J × S → Answer ℕ (Option J) × S
  received (res, s) =
      (if is_http_ok res.status then answered res.body else fails (some res.status), s)
