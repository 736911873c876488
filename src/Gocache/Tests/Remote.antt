-- ===== src/Gocache/Tests/Remote.antt =====
-- addons/gocache: the remotes of a run, and the HTTP backend over the sample server.
use gdev.Base.{
  String, ◌≡◌, ◌≢◌, refl, true, false, ◌&&◌, none, some, List, [], ◌∷◌, if◌then◌else◌, inl, inr,
  ◌==◌, arith,
}
use gdev.Base.Dict.{Dict, lookup, insert, remove}
use gdev.Gocache.Chain.{Node, remote, Factory, ok, panics, make_remote, make_backend}
use gdev.Gocache.Chain.Writes.{
  directory, at, FirstWants, Makes, reads_from, writes_to, all_writable, make_backend-writes,
}
use gdev.Gocache.Http.{Response}
use gdev.Gocache.Http.Server.{
  Node as FileNode, file, Faults, Paths, prep_path, move_file, serve_http,
}
use gdev.Gocache.Http.Client.{permission, bad_status, Backend, open_file, write_file, rename, stat}
use gdev.Gocache.Http.Client.Remote.{send_to, IsNamed, IsRemote, rename-write_file}
use gdev.Gocache.Http.Client.Refused.{Refuses, write_file-refused}

-- One factory makes what can be written, another what can only be read.
abbrev factories : List Factory
factories =
    record { want = λ url. url == "s3://a"; make = λ url. inr (remote url true) }
    ∷ record { want = λ url. true; make = λ url. inr (remote url false) }
    ∷ []

make_backend-writes_example :
    ((url : String) (f : Factory) (n : Node)
      → FirstWants url factories f
      → f.make url ≡ inr n
      → make_remote factories url ≡ ok n)
    × (make_backend factories true ("s3://a" ∷ "http://b" ∷ []) ≢ panics)
    × ((n : Node)
        → make_backend factories true ("s3://a" ∷ "http://b" ∷ []) ≡ ok n
        → (reads_from n ≡ directory ∷ at "s3://a" ∷ at "http://b" ∷ [])
          × (writes_to n
              ≡ directory
                ∷ (if true && all_writable factories ("s3://a" ∷ "http://b" ∷ [])
                    then at "s3://a" ∷ at "http://b" ∷ []
                    else [])))
make_backend-writes_example = make_backend-writes factories true ("s3://a" ∷ "http://b" ∷ []) makes
  where
    makes :
        Makes (record { want = λ url. url == "s3://a"; make = λ url. inr (remote url true) })
        × (Makes (record { want = λ url. true; make = λ url. inr (remote url false) }) × Unit {0})
    makes = ((λ url n e. (true, ground (arith, e))), ((λ url n e. (false, ground (arith, e))), tt))

abbrev paths : Paths
paths = record {
  clean = λ p. p;
  is_abs = λ p. true;
  parse_url = λ u. some (false, u);
  name_of = λ p. p;
}

abbrev works : Faults
works = record {
  open_ = none;
  stat = none;
  mkdir = none;
  create = none;
  copy = none;
  copied = "";
  sync = none;
  close = none;
  remove = none;
  rename = none;
}

abbrev path_of : String → String
path_of name = if name == "" then "/" else name

abbrev served : Backend (Dict FileNode)
served = record {
  path_of = path_of;
  authorize = λ r. inr (record r { authorized = true });
  send = send_to paths works;
}

served-IsRemote : IsRemote paths works served
served-IsRemote = record { sends = refl; adds = λ r. refl }

named : (name : String) → (name == "") ≡ false → IsNamed paths served name name
unfolding prep_path
named name h = record { found = rw h refl; some_path = rw h h; parsed = refl }

abbrev before : Dict FileNode
before = ("/log", file "x") ∷ []

abbrev after_write : Dict FileNode
after_write = ("/log", file "x") ∷ ("/tmp", file "entry") ∷ []

abbrev after_rename : Dict FileNode
after_rename = ("/log", file "x") ∷ ("/a", file "entry") ∷ []

abbrev no_content : Response
no_content = record { status = 204; content = "" }

written : write_file served "/tmp" "entry" before ≡ (inr no_content, after_write)
unfolding write_file serve_http lookup insert
written = refl

renamed : rename served "/tmp" "/a" after_write ≡ (inr no_content, after_rename)
unfolding rename serve_http move_file lookup insert remove
renamed = refl

rename-write_file_example :
    ((open_file served "/a" after_rename).0 ≡ inr (record { status = 200; content = "entry" }))
    × ((other : String)
        → lookup other after_rename ≡ (
            if "/a" == other
            then some (file "entry")
            else (if "/tmp" == other then none else lookup other before)))
rename-write_file_example =
    rename-write_file paths works served served-IsRemote "/tmp" "/a" "/tmp" "/a" "entry" before
      after_write after_rename no_content no_content (named "/tmp" refl) (named "/a" refl) written
      renamed refl refl

-- A server that takes only requests with a token.
abbrev guarded : Backend (Dict FileNode)
guarded = record {
  path_of = path_of;
  authorize = λ r. inr (record r { authorized = true });
  send =
      λ r s. (inr (if r.authorized then no_content else record { status = 401; content = "" }), s);
}

guarded-Refuses : Refuses guarded
guarded-Refuses r s h = rw h refl

write_file-refused_example :
    (write_file guarded "/a" "entry" before ≡ (inl permission, before))
    × (stat guarded "/a" before ≡ (inl (bad_status 401), before))
write_file-refused_example = write_file-refused guarded "/a" "entry" before guarded-Refuses
