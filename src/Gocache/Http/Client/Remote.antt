-- ===== src/Gocache/Http/Client/Remote.antt =====
-- addons/gocache/http: the backend over the sample server.
use gdev.Base.{
  String, ◌≡◌, refl, sym, ap, ◌∙◌, true, false, none, some, if◌then◌else◌, ◌⊎◌, inl, inr, arith,
  ◌==◌, Option-cases, Bool-cases, eq_refl,
}
use gdev.Base.Dict.{Dict, lookup, insert, remove, lookup-insert, lookup-remove}
use gdev.Gocache.Http.{get, put, move, Request, Response, is_good}
use gdev.Gocache.Http.Server.{
  FsError, not_exist, permission, exist, is_dir, failed, Node, file, Faults, Paths, error_status,
  prep_path, get_or_head, put_file, rename_file, move_file, serve_path, serve_http,
}
use gdev.Gocache.Http.Client.{Backend, plain, checked, bare, open_file, write_file, rename}

error_status-bad : (e : FsError) → is_good (error_status e) ≡ false
unfolding error_status
error_status-bad not_exist = refl
error_status-bad permission = refl
error_status-bad exist = refl
error_status-bad is_dir = refl
error_status-bad failed = refl

module _ (paths : Paths) (f : Faults) where
  -- A handler that panics drops the connection.
  abbrev pub send_to : Request → Dict Node → (String ⊎ Response) × Dict Node
  send_to req files = elim (serve_http paths f req files) [
    | none ↦ (inl "EOF", files)
    | some (r, files') ↦ (inr r, files')
  ]

  put_file-good :
      (p body : String) (files : Dict Node)
      → is_good (put_file paths f p body files).0.status ≡ true
      → (put_file paths f p body files).1 ≡ insert p (file body) files
  unfolding put_file
  put_file-good p body files h = elim (Option-cases f.mkdir) [
    | inr (e, q) ↦ absurd (ground (arith, q, error_status-bad e))
    | inl q ↦ elim (Option-cases f.create) [
      | inr (e, c) ↦ absurd (ground (arith, q, c, error_status-bad e, error_status-bad is_dir))
      | inl c ↦ ground (arith, q, c, error_status-bad is_dir)
    ]
  ]

  rename_file-good :
      (p dest : String) (files : Dict Node)
      → is_good (rename_file paths f p dest files).0.status ≡ true
      → (n : Node) × (lookup p files ≡ some n)
        × ((rename_file paths f p dest files).1 ≡ insert dest n (remove p files))
  unfolding rename_file
  rename_file-good p dest files h = elim (Option-cases f.rename) [
    | inr (e, q) ↦ absurd (ground (arith, q, error_status-bad e))
    | inl q ↦ elim (Option-cases (lookup p files)) [
      | inl a ↦ absurd (ground (arith, q, a, error_status-bad not_exist))
      | inr (n, a) ↦ (n, a, ground (arith, q, a))
    ]
  ]

-- The name of a file on the server, and what the client library makes of its URL: it is not empty, not
-- absolute, and the server finds the same file by it as by the path of a request.
pub record IsNamed {S : Type 0} (paths : Paths) (b : Backend S) (name key : String) : Type 0 where
  pub found : prep_path paths (b.path_of name) ≡ some key
  pub some_path : (b.path_of name == "") ≡ false
  pub parsed : paths.parse_url (b.path_of name) ≡ some (false, b.path_of name)

-- The requests go to the server, and the authorizer adds a header.
pub record IsRemote (paths : Paths) (f : Faults) (b : Backend (Dict Node)) : Type 0 where
  pub sends : b.send ≡ send_to paths f
  pub adds : (r : Request) → b.authorize r ≡ inr (record r { authorized = true })

module _ (paths : Paths) (f : Faults) (b : Backend (Dict Node)) (remote : IsRemote paths f b) where
  send-put :
      (name key body : String) (files : Dict Node)
      → IsNamed paths b name key
      → b.send (record (plain put (b.path_of name)) { body = body }) files
        ≡ (inr (put_file paths f key body files).0, (put_file paths f key body files).1)
  unfolding serve_http serve_path
  send-put name key body files named =
      ap (λ g. g (record (plain put (b.path_of name)) { body = body }) files) remote.sends
      ∙ ground (arith, named.found)

  send-move :
      (old new key key' : String) (files : Dict Node)
      → IsNamed paths b old key
      → IsNamed paths b new key'
      → b.send
          (record (plain move (b.path_of old)) {
            destination = some (b.path_of new);
            authorized = true;
          })
          files
        ≡ (inr (rename_file paths f key key' files).0, (rename_file paths f key key' files).1)
  unfolding serve_http serve_path move_file
  send-move old new key key' files n n' =
      ap
        (λ g.
          g
            (record (plain move (b.path_of old)) {
              destination = some (b.path_of new);
              authorized = true;
            })
            files)
        remote.sends
      ∙ ground (arith, n.found, n'.found, n'.parsed, n'.some_path)

  send-get :
      (name key : String) (files : Dict Node)
      → IsNamed paths b name key
      → b.send (record (plain get (b.path_of name)) { authorized = true }) files
        ≡ (inr (get_or_head paths f get key files), files)
  unfolding serve_http serve_path
  send-get name key files named =
      ap (λ g. g (record (plain get (b.path_of name)) { authorized = true }) files) remote.sends
      ∙ ground (arith, named.found)

  write_file-puts :
      (name key body : String) (files files' : Dict Node) (r : Response)
      → IsNamed paths b name key
      → write_file b name body files ≡ (inr r, files')
      → files' ≡ insert key (file body) files
  unfolding write_file serve_http serve_path
  write_file-puts name key body files files' r named e =
      let e' = sym (ap checked (send-put name key body files named)) ∙ e in
      elim (Bool-cases (is_good (put_file paths f key body files).0.status)) [
        | inl good ↦ ground (arith, e', good, put_file-good paths f key body files good)
        | inr bad ↦ absurd (ground (arith, e', bad))
      ]

  rename-moves :
      (old new key key' : String) (files files' : Dict Node) (r : Response)
      → IsNamed paths b old key
      → IsNamed paths b new key'
      → rename b old new files ≡ (inr r, files')
      → (n : Node) × (lookup key files ≡ some n) × (files' ≡ insert key' n (remove key files))
  unfolding rename serve_http serve_path move_file
  rename-moves old new key key' files files' r n n' e =
      let req : Request = record (plain move (b.path_of old)) {
        destination = some (b.path_of new);
      } in
      let sent = send-move old new key key' files n n' in
      let adds = remote.adds req in
      let direct : rename b old new files ≡ bare (b.send (record req { authorized = true }) files) =
        ground (arith, adds) in
      let e' = sym (ap bare sent) ∙ (sym direct ∙ e) in
      elim (Bool-cases (is_good (rename_file paths f key key' files).0.status)) [
        | inl good ↦
            let (node, was, now) = rename_file-good paths f key key' files good in
            (node, was, ground (arith, e', good, now))
        | inr bad ↦ absurd (ground (arith, e', bad))
      ]

  open_file-reads :
      (name key body : String) (files : Dict Node)
      → IsNamed paths b name key
      → f.open_ ≡ none
      → f.stat ≡ none
      → lookup key files ≡ some (file body)
      → (open_file b name files).0 ≡ inr (record { status = 200; content = body })
  unfolding open_file serve_http serve_path get_or_head
  open_file-reads name key body files n o s e =
      let sent = send-get name key files n in
      let req : Request = plain get (b.path_of name) in
      let adds = remote.adds req in
      let direct : open_file b name files
          ≡ checked (b.send (record req { authorized = true }) files) =
        ground (arith, adds) in
      let answered : get_or_head paths f get key files ≡ record { status = 200; content = body } =
        ground (arith, o, s, e) in
      ap (λ p. p.0) (direct ∙ ap checked sent) ∙ rw answered refl

  -- A file is written under a temporary name and then renamed. If both requests succeed then what is opened
  -- under the new name is what was written, nothing is left under the temporary name if it is another one, and all other files
  -- are as they were.
  pub rename-write_file :
      (tmp name key key' body : String) (files files1 files2 : Dict Node) (r1 r2 : Response)
      → IsNamed paths b tmp key
      → IsNamed paths b name key'
      → write_file b tmp body files ≡ (inr r1, files1)
      → rename b tmp name files1 ≡ (inr r2, files2)
      → f.open_ ≡ none
      → f.stat ≡ none
      → ((open_file b name files2).0 ≡ inr (record { status = 200; content = body }))
        × ((other : String)
            → lookup other files2 ≡ (
                if key' == other
                then some (file body)
                else (if key == other then none else lookup other files)))
  rename-write_file tmp name key key' body files files1 files2 r1 r2 nt nn w m o s =
      let put_done = write_file-puts tmp key body files files1 r1 nt w in
      let (node, was, moved) = rename-moves tmp name key key' files1 files2 r2 nt nn m in
      let now = λ (other : String). contents other put_done node was moved in
      (open_file-reads name key' body files2 nn o s (now key' ∙ rw (eq_refl key') refl), now)
    where
      contents :
          (other : String)
          → files1 ≡ insert key (file body) files
          → (node : Node) → lookup key files1 ≡ some node
          → files2 ≡ insert key' node (remove key files1)
          → lookup other files2 ≡ (
              if key' == other
              then some (file body)
              else (if key == other then none else lookup other files))
      contents other p node was moved =
          let written : lookup key files1 ≡ some (file body) =
            ap (lookup key) p ∙ lookup-insert key key (file body) files ∙ rw (eq_refl key) refl in
          ground (
            arith,
            written,
            ap (lookup other) moved,
            ap (lookup other) p,
            lookup-insert key' other node (remove key files1),
            lookup-remove key other files1,
            lookup-insert key other (file body) files,
          )
