-- ===== src/Pm/Http.antt =====
-- addons/pm: server/http.go, client/http.go, internal and lib/httpx: the API of the process manager
-- over HTTP.
--
-- A path that is served is the list of its segments. The client makes a text of it, in which the name of a
-- child is not escaped; `Urls` stands for net/url and path.Clean. `Codec` stands for
-- encoding/json with the validator; `unmatched` is the status of the mux for other requests.
pub mod Relay
use Prim.Native.String.{◌++◌ as ◌<>◌}
use gdev.Base.{
  ℕ, String, Bool, true, false, not, ◌&&◌, Option, none, some, List, [], ◌∷◌, if◌then◌else◌, ◌==◌,
  ◌≡◌, leb, ltb,
}
use gdev.Pm.Api.{Child, ChildWithStatus, ChildSummary}

-- The status codes that the daemon and the decoder give their errors.
pub data ErrorCode : Type 0 where
  bad_request code_not_found code_conflict code_precondition_failed internal_error : ErrorCode

unfoldable pub status_code : ErrorCode → ℕ
status_code bad_request = 400
status_code code_not_found = 404
status_code code_conflict = 409
status_code code_precondition_failed = 412
status_code internal_error = 500

-- A result, or an error with or without a status code.
pub data Answer (E A : Type 0) : Type 0 where
  answered : A → Answer E A
  fails : Option E → Answer E A

-- `api.API`, over a state.
pub record ChildApi (E S : Type 0) : Type 0 where
  pub ping : S → Answer E Unit × S
  pub summary : S → Answer E (List ChildSummary) × S
  pub child : String → S → Answer E ChildWithStatus × S
  pub put_child : Child → S → Answer E ChildWithStatus × S
  pub start_child : String → S → Answer E ChildWithStatus × S
  pub stop_child : String → S → Answer E ChildWithStatus × S
  pub delete_child : String → S → Answer E ChildWithStatus × S
  pub terminate : S → Answer E Unit × S

pub record Codec (J : Type 0) : Type 0 where
  pub valid : Child → Bool
  pub child_json : Child → J
  pub read_child : J → Answer ErrorCode Child
  pub status_json : ChildWithStatus → J
  pub read_status : J → Option ChildWithStatus
  pub summary_json : List ChildSummary → J
  pub read_summary : J → Option (List ChildSummary)

pub data Method : Type 0 where
  http_get http_put http_post http_delete : Method

pub record HttpRequest (J : Type 0) : Type 0 where
  pub method : Method
  pub path : List String
  pub body : Option J

pub record HttpResponse (J : Type 0) : Type 0 where
  pub status : ℕ
  pub body : Option J

-- `resolve` is the path of a reference resolved against the base, `clean` is path.Clean, and `segments` is
-- what the mux sees of the path once the URL was printed and parsed.
pub record Urls : Type 0 where
  pub resolve : String → String
  pub clean : String → String
  pub segments : String → List String

-- `HTTP.url`.
unfoldable pub url : Urls → String → List String
url u p = u.segments (u.clean (u.resolve ("/./" <> p)))

-- `withPathValue` on the paths of one child.
abbrev pub one_child : String → String
one_child name = "/child/" <> name

abbrev pub start_path : String → String
start_path name = "/child/" <> (name <> "/start")

abbrev pub stop_path : String → String
stop_path name = "/child/" <> (name <> "/stop")

-- `httpWrapper.error`.
unfoldable pub error_status : Option ErrorCode → ℕ
unfolding status_code
error_status none = 500
error_status (some c) = status_code c

-- `IsNotFound`.
unfoldable pub is_not_found : Option ℕ → Bool
is_not_found none = false
is_not_found (some c) = leb c 404 && leb 404 c

unfoldable pub is_http_ok : ℕ → Bool
is_http_ok c = leb 200 c && ltb c 300

module _ {J : Type 0} (codec : Codec J) where
  -- `JSONBody` of a request.
  unfoldable pub read_body : Option J → Answer ErrorCode Child
  read_body none = fails (some bad_request)
  read_body (some j) = codec.read_child j

module _ {J S : Type 0} where
  abbrev pub read_response :
      {A : Type 0} → (J → Option A) → Answer ℕ (Option J) × S → Answer ℕ A × S
  read_response read (answered none, s) = (fails none, s)
  read_response read (answered (some j), s) =
      (elim (read j) [ none ↦ fails none | some a ↦ answered a ], s)
  read_response read (fails e, s) = (fails e, s)

  abbrev pub no_body : Answer ℕ (Option J) × S → Answer ℕ Unit × S
  no_body (answered b, s) = (answered tt, s)
  no_body (fails e, s) = (fails e, s)

module _ {J S : Type 0} (codec : Codec J) where
  -- `httpWrapper.json`, and the empty response of `Ping` and `Terminate`.
  unfoldable pub write_json : {A : Type 0} → (A → J) → Answer ErrorCode A × S → HttpResponse J × S
  unfolding error_status
  write_json encode (answered a, s) = (record { status = 200; body = some (encode a) }, s)
  write_json encode (fails e, s) = (record { status = error_status e; body = none }, s)

  unfoldable pub write_empty : Answer ErrorCode Unit × S → HttpResponse J × S
  unfolding error_status
  write_empty (answered u, s) = (record { status = 204; body = none }, s)
  write_empty (fails e, s) = (record { status = error_status e; body = none }, s)

  module _ (api : ChildApi ErrorCode S) (unmatched : HttpRequest J → ℕ) where
    abbrev pub put_body : Answer ErrorCode Child → S → HttpResponse J × S
    put_body (answered c) s = write_json codec.status_json (api.put_child c s)
    put_body (fails e) s = (record { status = error_status e; body = none }, s)

    abbrev not_matched : HttpRequest J → S → HttpResponse J × S
    not_matched r s = (record { status = unmatched r; body = none }, s)

    abbrev serve_root : HttpRequest J → S → HttpResponse J × S
    serve_root r s = elim r.method [ http_get ↦ write_empty (api.ping s) | _ ↦ not_matched r s ]

    -- Paths of one segment.
    abbrev serve_top : HttpRequest J → String → S → HttpResponse J × S
    serve_top r p s = elim r.method [
      | http_get ↦
          if p == "summary" then write_json codec.summary_json (api.summary s) else not_matched r s
      | http_put ↦ if p == "child" then put_body (read_body codec r.body) s else not_matched r s
      | http_post ↦ if p == "terminate" then write_empty (api.terminate s) else not_matched r s
      | http_delete ↦ not_matched r s
    ]

    -- `/child/{name}`, and `/child/{name}/{action}`.
    abbrev serve_child : HttpRequest J → String → S → HttpResponse J × S
    serve_child r name s = elim r.method [
      | http_get ↦ write_json codec.status_json (api.child name s)
      | http_delete ↦ write_json codec.status_json (api.delete_child name s)
      | _ ↦ not_matched r s
    ]

    abbrev serve_action : HttpRequest J → String → String → S → HttpResponse J × S
    serve_action r name action s = elim r.method [
      | http_post ↦
          if action == "start"
          then write_json codec.status_json (api.start_child name s)
          else if action == "stop"
          then write_json codec.status_json (api.stop_child name s)
          else not_matched r s
      | _ ↦ not_matched r s
    ]

    -- `NewHTTPMux`.
    unfoldable pub serve_http : HttpRequest J → S → HttpResponse J × S
    unfolding write_json write_empty read_body error_status
    serve_http r s = elim r.path [
      | [] ↦ serve_root r s
      | p ∷ rest ↦ elim rest [
        | [] ↦ serve_top r p s
        | name ∷ more ↦ if not (p == "child") then not_matched r s else elim more [
          | [] ↦ serve_child r name s
          | action ∷ deeper ↦ elim deeper [
            | [] ↦ serve_action r name action s
            | _ ∷ _ ↦ not_matched r s
          ]
        ]
      ]
    ]

  -- The client, over the transport of requests.
  module _ (urls : Urls) (transport : HttpRequest J → S → HttpResponse J × S) where
    -- `do`.
    unfoldable pub do_request : Method → String → Option J → S → Answer ℕ (Option J) × S
    unfolding is_http_ok url
    do_request method path body s =
        let (res, s') =
          transport (record { method = method; path = url urls path; body = body }) s in
        (if is_http_ok res.status then answered res.body else fails (some res.status), s')

    unfoldable pub client : ChildApi ℕ S
    unfolding do_request
    client = record {
      ping = λ s. no_body (do_request http_get "/" none s);
      summary = λ s. read_response codec.read_summary (do_request http_get "/summary" none s);
      child =
          λ name s. read_response codec.read_status (do_request http_get (one_child name) none s);
      put_child = λ c s.
          read_response codec.read_status
            (do_request http_put "/child" (some (codec.child_json c)) s);
      start_child =
          λ name s. read_response codec.read_status (do_request http_post (start_path name) none s);
      stop_child =
          λ name s. read_response codec.read_status (do_request http_post (stop_path name) none s);
      delete_child = λ name s.
          read_response codec.read_status (do_request http_delete (one_child name) none s);
      terminate = λ s. no_body (do_request http_post "/terminate" none s);
    }
