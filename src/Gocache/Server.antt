-- ===== src/Gocache/Server.antt =====
-- addons/gocache/server.go: the server that answers requests, each in its own goroutine.
--
-- A run is a sequence of steps: the loop accepts a request, a goroutine that is under way answers or
-- fails, the loop closes. `impl` is what `Get` and `Put` of the storage answer.
pub mod Responses
use gdev.Base.{
  ℕ, String, Bool, true, false, Option, none, some, List, [], ◌∷◌, ◌++◌, if◌then◌else◌, ◌⊎◌, inl,
  inr, ◌≡◌, ◌≢◌,
}

pub data Cmd : Type 0 where
  cmd_get cmd_put : Cmd
  cmd_close : Cmd
  cmd_unknown : String → Cmd

pub record ServerRequest : Type 0 where
  pub id : ℕ
  pub command : Cmd

pub record ServerResponse : Type 0 where
  pub id : ℕ
  pub err : Option String
  pub known_commands : List Cmd

pub record Server : Type 0 where
  pub writable : Bool
  -- The requests that were accepted, those whose goroutine still runs, and those with an answer.
  pub accepted : List ServerRequest
  pub outstanding : List ServerRequest
  pub served : List (ServerRequest × ServerResponse)
  -- What was sent to the writer, in its order.
  pub sent : List ServerResponse
  -- The errors of the goroutines, the first of which cancels the others.
  pub errs : List String
  pub closed : Bool
  -- The close request, once it was answered.
  pub closed_by : Option ServerRequest

abbrev pub plain_response : ℕ → ServerResponse
plain_response id = record { id = id; err = none; known_commands = [] }

-- `sendErrResp`.
unfoldable pub err_response : ℕ → String → ServerResponse
err_response id msg = record { id = id; err = some msg; known_commands = [] }

abbrev pub capabilities : Bool → ServerResponse
capabilities writable = record {
  id = 0;
  err = none;
  known_commands = cmd_close ∷ cmd_get ∷ (if writable then cmd_put ∷ [] else []);
}

unfoldable pub new_server : Bool → Server
new_server writable = record {
  writable = writable;
  accepted = [];
  outstanding = [];
  served = [];
  sent = capabilities writable ∷ [];
  errs = [];
  closed = false;
  closed_by = none;
}

module _ (impl : ServerRequest → String ⊎ ServerResponse) where
  -- What the goroutine of a request ends with.
  unfoldable pub answer : Bool → ServerRequest → String ⊎ ServerResponse
  unfolding err_response
  answer writable r = elim r.command [
    | cmd_get ↦ impl r
    | cmd_put ↦
        if writable then impl r else inr (err_response r.id "put not supported by this server")
    | cmd_close ↦ inr (plain_response r.id)
    | cmd_unknown c ↦ inr (err_response r.id "unknown command")
  ]

  unfoldable pub accept : ServerRequest → Server → Server
  accept r s = record s { accepted = s.accepted ++ r ∷ []; outstanding = s.outstanding ++ r ∷ [] }

  -- The goroutine of a request between `front` and `back` ends.
  unfoldable pub finish : List ServerRequest → ServerRequest → List ServerRequest → Server → Server
  unfolding answer
  finish front r back s = elim (answer s.writable r) [
    | inl e ↦ record s { outstanding = front ++ back; errs = s.errs ++ e ∷ [] }
    | inr resp ↦ record s {
      outstanding = front ++ back;
      served = s.served ++ (r, resp) ∷ [];
      sent = s.sent ++ resp ∷ [];
    }
  ]

  -- A goroutine that is cancelled sends nothing.
  unfoldable pub cancel : List ServerRequest → List ServerRequest → Server → Server
  cancel front back s = record s { outstanding = front ++ back; errs = s.errs ++ "canceled" ∷ [] }

  -- The loop has waited for the goroutines: the storage is closed and the close answered.
  unfoldable pub close_server : Option String → ServerRequest → Server → Server
  close_server err r s = record s {
    errs = s.errs ++ (elim err [ none ↦ [] | some e ↦ e ∷ [] ]);
    sent = s.sent ++ plain_response r.id ∷ [];
    closed = true;
    closed_by = some r;
  }

  pub data ServerStep : Server → Server → Type 0 where
    accepting :
        {s : Server}
        → (r : ServerRequest) → r.command ≢ cmd_close
        → s.closed ≡ false
        → ServerStep s (accept r s)
    finishing :
        {s : Server}
        → (front : List ServerRequest) (r : ServerRequest) (back : List ServerRequest)
        → s.outstanding ≡ front ++ r ∷ back
        → ServerStep s (finish front r back s)
    cancelling :
        {s : Server}
        → (front : List ServerRequest) (r : ServerRequest) (back : List ServerRequest)
        → s.outstanding ≡ front ++ r ∷ back
        → s.errs ≢ []
        → ServerStep s (cancel front back s)
    closing :
        {s : Server}
        → (err : Option String) (r : ServerRequest) → r.command ≡ cmd_close
        → s.outstanding ≡ []
        → s.closed ≡ false
        → ServerStep s (close_server err r s)

  pub data ServerReach (writable : Bool) : Server → Type 0 where
    begin : ServerReach writable (new_server writable)
    after : {s s' : Server} → ServerReach writable s → ServerStep s s' → ServerReach writable s'
