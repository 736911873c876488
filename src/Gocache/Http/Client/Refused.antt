-- ===== src/Gocache/Http/Client/Refused.antt =====
-- addons/gocache/http/backend.go: a server that wants every request authorized.
use gdev.Base.{String, ◌≡◌, refl, ap, ◌∙◌, false, inl, inr}
use gdev.Gocache.Http.{head, put, Request}
use gdev.Gocache.Http.Client.{
  permission, bad_status, Backend, plain, checked, bare, status_error, write_file, stat,
}

-- The server answers 401 to what is not authorized.
abbrev pub Refuses : {S : Type 0} → Backend S → Type 0
Refuses {S} b =
    (r : Request) (s : S)
    → r.authorized ≡ false
    → b.send r s ≡ (inr (record { status = 401; content = "" }), s)

-- Files are neither written nor looked up on such a server, whatever the authorizer does: `OpenFile` and
-- `Stat` do not ask it.
pub write_file-refused :
    {S : Type 0} (b : Backend S) (name body : String) (s : S)
    → Refuses b
    → (write_file b name body s ≡ (inl permission, s)) × (stat b name s ≡ (inl (bad_status 401), s))
unfolding write_file stat
write_file-refused b name body s refuses = (
  ap checked (refuses (record (plain put (b.path_of name)) { body = body }) s refl)
      ∙ unfold status_error in refl,
  ap bare (refuses (plain head (b.path_of name)) s refl),
)
