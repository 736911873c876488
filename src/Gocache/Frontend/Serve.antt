-- ===== src/Gocache/Frontend/Serve.antt =====
-- addons/gocache/storage-fronend.go: `Get` after `Put`.
use gdev.Base.{
  ℕ, String, ◌≡◌, ◌≢◌, refl, ap, sym, ◌∙◌, false, Option, none, some, arith, eq_iff, ◌⊎◌, inl, inr,
}
use gdev.Gocache.Backend.{ActionEntry, Result, ok, fails, panics, Backend, IsStore}
use gdev.Gocache.Frontend.{
  Request, Response, Frontend, blank, use_, done, get, put, get_entry, put_entry,
}

pair_eq : {A B : Type 0} (p : A × B) (a : A) (b : B) → p.0 ≡ a → p.1 ≡ b → p ≡ (a, b)
pair_eq p a b h k = ap (λ x. (x, p.1)) h ∙ ap (λ y. (a, y)) k

-- A result is a value, or it is none.
abbrev value? : {A : Type 0} → Result A → Option A
value? (ok a) = some a
value? (fails e) = none
value? panics = none

Result-cases : {A : Type 0} (r : Result A) → ((a : A) × (r ≡ ok a)) ⊎ (value? r ≡ none)
Result-cases (ok a) = inl (a, refl)
Result-cases (fails e) = inr refl
Result-cases panics = inr refl

module _ {S : Type 0} (b : Backend S) where
  abbrev entry_of : ℕ → Request → ActionEntry
  entry_of now req = record {
    id = req.action_id;
    output_id = req.output_id;
    size = req.body_size;
    time = now;
  }

  abbrev answer : ℕ → Request → String → Response
  answer now req path = record (blank req.id) {
    output_id = req.output_id;
    size = req.body_size;
    time = some now;
    disk_path = path;
  }

  record Stored (now : ℕ) (req : Request) (body : String) (s : S) (res : Response) (s2 : S)
      : Type 0 where
    path : String
    mid : S
    output : b.write_output (entry_of now req) body s ≡ (ok path, mid)
    entry : b.write_action_entry (entry_of now req) mid ≡ (ok tt, s2)
    result : res ≡ answer now req path

  put_entry-Stored :
      (now : ℕ) (req : Request) (body : String) (s s2 : S) (res : Response)
      → req.body ≡ some body
      → put_entry b now req s ≡ (ok res, s2)
      → res.err ≡ none
      → Stored now req body s res s2
  unfolding put_entry
  put_entry-Stored now req body s s2 res h e n =
      elim (Result-cases (b.write_output (entry_of now req) body s).0) [
        | inr bad ↦ absurd (ground (arith, bad))
        | inl (path, w) ↦ record {
          path = path;
          mid = (b.write_output (entry_of now req) body s).1;
          output = pair_eq _ _ _ w refl;
          entry = pair_eq _ _ _ (ground arith) (ground arith);
          result = ground arith;
        }
      ]

  get_entry-found :
      (req : Request) (a : ActionEntry) (path : String) (s : S)
      → (b.read_action_entry req.action_id s).0 ≡ ok a
      → (b.check_output_file a (b.read_action_entry req.action_id s).1).0 ≡ ok path
      → path ≢ ""
      → (get_entry b req s).0
        ≡ ok (record (blank req.id) {
          output_id = a.output_id;
          size = a.size;
          time = some a.time;
          disk_path = path;
        })
  unfolding get_entry
  get_entry-found req a path s h k n = ground (arith, eq_iff path "")

  put-entry :
      (now : ℕ) (req : Request) (d d' : Frontend S) (res : Response)
      → put b now req d ≡ (ok res, d')
      → (d.closing ≡ false) × (d'.closing ≡ false) × (put_entry b now req d.dd ≡ (ok res, d'.dd))
  unfolding put use_ done
  put-entry now req d d' res e =
      (ground arith, ground arith, pair_eq _ _ _ (ground arith) (ground arith))

  get-entry :
      (req : Request) (d : Frontend S)
      → d.closing ≡ false
      → (get b req d).0 ≡ (get_entry b req d.dd).0
  unfolding get use_ done
  get-entry req d h = ground arith

  -- Over a backend that gives back what was put: after a `Put` with a body that answers without an
  -- error and names a path, `Get` for the same action answers with exactly the same response.
  pub get-put :
      (IsOpen : S → Type 0) (now : ℕ) (req : Request) (body : String) (d d' : Frontend S)
      (res : Response)
      → IsStore b IsOpen
      → IsOpen d.dd
      → req.body ≡ some body
      → put b now req d ≡ (ok res, d')
      → res.err ≡ none
      → res.disk_path ≢ ""
      → (get b req d').0 ≡ ok res
  get-put IsOpen now req body d d' res law open_ h e n ne =
      let (_, k, p) = put-entry now req d d' res e in
      let st = put_entry-Stored now req body d.dd d'.dd res h p n in
      let a = entry_of now req in
      let found = law.found a body st.path d.dd st.mid d'.dd open_ st.output st.entry in
      let placed = law.placed a body st.path d.dd st.mid d'.dd open_ st.output st.entry in
      get-entry req d' k
      ∙ (get_entry-found req a st.path d'.dd found placed
            (λ x. ne (ap (λ (r : Response). r.disk_path) st.result ∙ x))
          ∙ ap ok (sym st.result))
