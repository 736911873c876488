-- ===== src/Gocache/Http/Client.antt =====
-- addons/gocache/http/backend.go and writer.go: the file system of the HTTP backend.
--
-- `send` is the client: the next state of the other side, and a response or an error. `path_of` is the
-- path of the URL of a name, from `fullURL`. A writer sends its request when the file is opened; what
-- matters is known when it is closed, so a file is written in one step here.
pub mod Remote
pub mod Refused
use gdev.Base.{
  ℕ, String, Bool, true, false, not, Option, none, some, List, [], ◌∷◌, ◌++◌, if◌then◌else◌, ◌⊎◌,
  inl, inr, eqb,
}
use gdev.Gocache.Http.{Method, get, head, put, delete, move, Request, Response, is_good}

pub data ClientError : Type 0 where
  not_exist permission : ClientError
  bad_status : ℕ → ClientError
  sending authorizing : String → ClientError

-- `statusError`, and the error of a response with no meaning of its own.
unfoldable pub status_error : ℕ → ClientError
status_error status =
    if eqb status 404
    then not_exist
    else if eqb status 401
    then permission
    else if eqb status 403
    then permission
    else bad_status status

pub record Backend (S : Type 0) : Type 0 where
  pub path_of : String → String
  pub authorize : Request → String ⊎ Request
  pub send : Request → S → (String ⊎ Response) × S

abbrev pub plain : Method → String → Request
plain m path = record { method = m; path = path; body = ""; destination = none; authorized = false }

module _ {S : Type 0} where
  abbrev pub checked : (String ⊎ Response) × S → (ClientError ⊎ Response) × S
  checked (inl e, s) = (inl (sending e), s)
  checked (inr r, s) = (if is_good r.status then inr r else inl (status_error r.status), s)

  abbrev pub bare : (String ⊎ Response) × S → (ClientError ⊎ Response) × S
  bare (inl e, s) = (inl (sending e), s)
  bare (inr r, s) = (if is_good r.status then inr r else inl (bad_status r.status), s)

  module _ (b : Backend S) where
    abbrev sent_authorized :
        ((String ⊎ Response) × S → (ClientError ⊎ Response) × S)
        → Request
        → S
        → (ClientError ⊎ Response) × S
    sent_authorized read req s = elim (b.authorize req) [
      | inl e ↦ (inl (authorizing e), s)
      | inr req' ↦ read (b.send req' s)
    ]

    -- `Open`.
    unfoldable pub open_file : String → S → (ClientError ⊎ Response) × S
    unfolding status_error
    open_file name s = sent_authorized checked (plain get (b.path_of name)) s

    -- `OpenFile` for writing, the writes, and `Sync` or `Close`.
    unfoldable pub write_file : String → String → S → (ClientError ⊎ Response) × S
    unfolding status_error
    write_file name body s =
        checked (b.send (record (plain put (b.path_of name)) { body = body }) s)

    unfoldable pub remove_file : String → S → (ClientError ⊎ Response) × S
    remove_file name s = sent_authorized bare (plain delete (b.path_of name)) s

    unfoldable pub rename : String → String → S → (ClientError ⊎ Response) × S
    rename old new s =
        sent_authorized bare
          (record (plain move (b.path_of old)) { destination = some (b.path_of new) }) s

    unfoldable pub stat : String → S → (ClientError ⊎ Response) × S
    stat name s = bare (b.send (plain head (b.path_of name)) s)
