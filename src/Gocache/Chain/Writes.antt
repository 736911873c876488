-- ===== src/Gocache/Chain/Writes.antt =====
-- addons/gocache/addon.go: what a run writes to.
use gdev.Base.{
  String, ◌≡◌, ◌≢◌, refl, ap, ◌∙◌, subst, Bool, true, false, ◌&&◌, Option, none, some, List, [],
  ◌∷◌, ◌++◌, map, if◌then◌else◌, inl, inr, arith, Bool-cases, Sum-cases, All,
}
use gdev.Gocache.Chain.{
  Node, remote, write_through, readonly, read_through, disk, is_writable, Factory, Result, ok,
  fails, panics, Built, make_remote, add_remote, chain, over_disk, make_backend, ◌>>=◌,
}

-- What a read or a write of a backend reaches: the directory of the run, or the remote at a URL.
pub data Place : Type 0 where
  directory : Place
  at : String → Place

-- What a write to the backend reaches.
abbrev pub writes_to : Node → List Place
writes_to (remote url w) = if w then at url ∷ [] else []
writes_to (write_through local far) = writes_to local ++ writes_to far
writes_to (readonly local far) = []
writes_to (read_through local far) = writes_to local
writes_to disk = directory ∷ []

-- What a read of the backend asks, in order.
abbrev pub reads_from : Node → List Place
reads_from (remote url w) = at url ∷ []
reads_from (write_through local far) = reads_from local ++ reads_from far
reads_from (readonly local far) = reads_from local ++ reads_from far
reads_from (read_through local far) = reads_from local ++ reads_from far
reads_from disk = directory ∷ []

abbrev pub reads : Option Node → List Place
reads none = []
reads (some n) = reads_from n

abbrev pub writes : Option Node → List Place
writes none = []
writes (some n) = writes_to n

abbrev writable_result : Result Node → Bool
writable_result (ok n) = is_writable n
writable_result (fails e) = false
writable_result panics = false

-- The remote of each URL can be written.
abbrev pub all_writable : List Factory → List String → Bool
all_writable fs [] = true
all_writable fs (url ∷ urls) = writable_result (make_remote fs url) && all_writable fs urls

-- A factory makes a single remote of a URL.
abbrev pub Makes : Factory → Type 0
Makes f = (url : String) (n : Node) → f.make url ≡ inr n → (w : Bool) × (n ≡ remote url w)

-- The remotes of a list of URLs are read in its order; if they can be written then a write reaches all; and
-- with the flag they can be written just if each of them can.
pub record IsChain (fs : List Factory) (through : Bool) (urls : List String) (b : Built)
    : Type 0 where
  pub in_order : reads b.node ≡ map at urls
  pub writable : b.can_write ≡ true → (n : Node) → b.node ≡ some n → is_writable n ≡ true
  pub reached : b.can_write ≡ true → writes b.node ≡ map at urls
  pub all : through ≡ true → b.can_write ≡ all_writable fs urls

none_named : (urls : List String) → [] ≡ map at urls → [] ≡ urls
none_named [] e = refl
none_named (url ∷ urls) e = cc

make_remote-named :
    (fs : List Factory) (url : String)
    → All Makes fs
    → (make_remote fs url ≢ panics)
      × ((n : Node) → make_remote fs url ≡ ok n → (w : Bool) × (n ≡ remote url w))
unfolding make_remote
make_remote-named [] url h = (λ e. cc, λ n e. cc)
make_remote-named (f ∷ fs) url (makes, h) =
    let (safe, named) = make_remote-named fs url h in
    elim (Bool-cases (f.want url)) [
      | inr no_ ↦ rw no_ (safe, named)
      | inl wanted ↦ elim (Sum-cases (f.make url)) [
        | inl (x, e) ↦ rw (wanted, e) (λ p. cc, λ n p. cc)
        | inr (m, e) ↦ rw (wanted, e) (λ p. cc, λ n p. makes url n (ground (arith, e, p)))
      ]
    ]

module _ (fs : List Factory) (through : Bool) (url : String) (urls : List String) (w : Bool) where
  -- The next remote in front of those that are there.
  abbrev Adds : Built → Type 0
  Adds b =
      (b' : Built) × (add_remote through (remote url w) b ≡ ok b')
      × IsChain fs through (url ∷ urls) b'

  first-Adds :
      (can : Bool)
      → make_remote fs url ≡ ok (remote url w)
      → [] ≡ map at urls
      → Adds (record { node = none; can_write = can })
  unfolding add_remote
  first-Adds can e none_yet =
      let alone = ap (all_writable fs) (none_named urls none_yet) in
      (
        record { node = some (remote url w); can_write = w },
        refl,
        record {
          in_order = ap (λ l. at url ∷ l) none_yet;
          writable = λ t n p. ground (arith, t, p);
          reached = λ t. rw t (ap (λ l. at url ∷ l) none_yet);
          all = λ t. rw e (ground (arith, alone));
        },
      )

  next-Adds :
      (far : Node) (can : Bool)
      → make_remote fs url ≡ ok (remote url w)
      → IsChain fs through urls (record { node = some far; can_write = can })
      → Adds (record { node = some far; can_write = can })
  unfolding add_remote
  next-Adds far can e h = elim (Bool-cases (through && (can && w))) [
    | inl both ↦
        let can_ : can ≡ true = ground (arith, both) in
        let w_ : w ≡ true = ground (arith, both) in
        let far_w = h.writable can_ far refl in
        (
          record { node = some (write_through (remote url w) far); can_write = can },
          ground (arith, both, far_w),
          record {
            in_order = ap (λ l. at url ∷ l) h.in_order;
            writable = λ t n p. ground (arith, p);
            reached = λ t. rw w_ (ap (λ l. at url ∷ l) (h.reached can_));
            all = λ t. rw e (ground (arith, h.all t, w_, can_));
          },
        )
    | inr not_both ↦ (
      record { node = some (readonly (remote url w) far); can_write = false },
      ground (arith, not_both),
      record {
        in_order = ap (λ l. at url ∷ l) h.in_order;
        writable = λ t n p. cc;
        reached = λ t. cc;
        all = λ t. rw e (ground (arith, h.all t, not_both, t));
      },
    )
  ]

  add_remote-Adds :
      (node : Option Node) (can : Bool)
      → make_remote fs url ≡ ok (remote url w)
      → IsChain fs through urls (record { node = node; can_write = can })
      → Adds (record { node = node; can_write = can })
  add_remote-Adds none can e h = first-Adds can e h.in_order
  add_remote-Adds (some far) can e h = next-Adds far can e h

-- Either an error, or remotes as they are known.
abbrev Chained : List Factory → Bool → List String → Result Built → Type 0
Chained fs through urls (ok b) = IsChain fs through urls b
Chained fs through urls (fails e) = Unit
Chained fs through urls panics = ⊥

chain-Chained :
    (fs : List Factory) (through : Bool) (urls : List String)
    → All Makes fs
    → Chained fs through urls (chain fs through urls)
unfolding chain
chain-Chained fs through [] h = record {
  in_order = refl;
  writable = λ t n p. cc;
  reached = λ t. refl;
  all = λ t. refl;
}
chain-Chained fs through (url ∷ urls) h =
    add (chain fs through urls) (chain-Chained fs through urls h)
  where
    add :
        (r : Result Built)
        → Chained fs through urls r
        → Chained fs through
            (url ∷ urls)
            (r >>= λ b. make_remote fs url >>= λ next. add_remote through next b)
    add (fails e) c = tt
    add panics c = elim c [ ]
    add (ok b) c = placed (make_remote fs url) refl
      where
        placed :
            (r : Result Node)
            → make_remote fs url ≡ r
            → Chained fs through (url ∷ urls) (r >>= λ next. add_remote through next b)
        placed panics e = absurd ((make_remote-named fs url h).0 e)
        placed (fails x) e = tt
        placed (ok next) e =
            let (w, is_remote) = (make_remote-named fs url h).1 next e in
            let (b', added, known) =
              add_remote-Adds fs through url urls w b.node b.can_write (e ∙ ap ok is_remote) c in
            rw (is_remote, added) known

-- The backend reads all, and writes to all or to none.
abbrev Reaches : List Factory → Bool → List String → Node → Type 0
Reaches fs through args n =
    (reads_from n ≡ directory ∷ map at args)
    × (writes_to n ≡ directory ∷ (if through && all_writable fs args then map at args else []))

over_disk-writes :
    (fs : List Factory) (through : Bool) (args : List String) (node : Option Node) (can : Bool)
    (n : Node)
    → IsChain fs through args (record { node = node; can_write = can })
    → (over_disk through (record { node = node; can_write = can }) ≢ panics)
      × (over_disk through (record { node = node; can_write = can }) ≡ ok n
          → Reaches fs through args n)
unfolding over_disk
over_disk-writes fs through args none can n c = (
  λ p. cc,
  λ e.
      let is_disk : disk ≡ n = ground (arith, e) in
      let none_there = none_named args c.in_order in
      subst (Reaches fs through args) is_disk
        (rw (← none_there) refl, rw (← none_there) ground arith),
)
over_disk-writes fs through args (some far) can n c = elim (Bool-cases (through && can)) [
  | inl both ↦
      let can_ : can ≡ true = ground (arith, both) in
      let far_w = c.writable can_ far refl in
      let reached = c.reached can_ in
      let all = c.all (ground (arith, both)) in
      (
        rw (both, far_w) (λ p. cc),
        λ e.
            let is_both : write_through disk far ≡ n = ground (arith, e, both, far_w) in
            subst (Reaches fs through args) is_both
              (ap (λ l. directory ∷ l) c.in_order, ground (arith, reached, all, both)),
      )
  | inr not_both ↦ (
    rw not_both (λ p. cc),
    λ e.
        let is_read : read_through disk far ≡ n = ground (arith, e, not_both) in
        subst (Reaches fs through args) is_read (
          ap (λ l. directory ∷ l) c.in_order,
          elim (Bool-cases through) [
            | inl t ↦ let all = c.all t in ground (arith, all, not_both, t)
            | inr t ↦ rw t refl
          ],
        ),
  )
]

-- The first factory that wants a URL.
pub data FirstWants (url : String) : List Factory → Factory → Type 0 where
  here : {f : Factory} {fs : List Factory} → f.want url ≡ true → FirstWants url (f ∷ fs) f
  there :
      {f g : Factory} {fs : List Factory}
      → g.want url ≡ false
      → FirstWants url fs f
      → FirstWants url (g ∷ fs) f

make_remote-first :
    (url : String) {fs : List Factory} {f : Factory} (n : Node)
    → FirstWants url fs f
    → f.make url ≡ inr n
    → make_remote fs url ≡ ok n
unfolding make_remote
make_remote-first url n (here w) e = rw (w, e, make_remote) refl
make_remote-first url n (there no_ h) e = rw (no_, make_remote) (make_remote-first url n h e)

-- If each factory makes a single remote of a URL, then the run does not panic, and its backend reads the
-- directory of the run and then the remotes in the order of the arguments, each made by the first factory that wants
-- its URL. A write always reaches the directory; it reaches all the remotes too if writing is wanted and
-- each can be written, and otherwise none: never only some.
pub make_backend-writes :
    (fs : List Factory) (through : Bool) (args : List String)
    → All Makes fs
    → ((url : String) (f : Factory) (n : Node)
        → FirstWants url fs f
        → f.make url ≡ inr n
        → make_remote fs url ≡ ok n)
      × (make_backend fs through args ≢ panics)
      × ((n : Node)
          → make_backend fs through args ≡ ok n
          → (reads_from n ≡ directory ∷ map at args)
            × (writes_to n
                ≡ directory ∷ (if through && all_writable fs args then map at args else [])))
unfolding make_backend over_disk
make_backend-writes fs through args h =
    let (safe, reaches) = built (chain fs through args) (chain-Chained fs through args h) in
    (λ url f n. make_remote-first url n, safe, reaches)
  where
    built :
        (r : Result Built)
        → Chained fs through args r
        → ((r >>= λ b. over_disk through b) ≢ panics)
          × ((n : Node) → (r >>= λ b. over_disk through b) ≡ ok n → Reaches fs through args n)
    built (ok b) c = (
      (over_disk-writes fs through args b.node b.can_write disk c).0,
      λ n. (over_disk-writes fs through args b.node b.can_write n c).1,
    )
    built (fails e) c = (λ p. cc, λ n p. cc)
    built panics c = elim c [ ]
