-- ===== src/Gocache/Server/Responses.antt =====
-- addons/gocache/server.go: each request has one response.
use mathlib.Core.List.{Perm, perm_middle, append-nil, append_assoc, map-append}
use mathlib.Core.List.Perm
use gdev.Base.{
  String, ◌≡◌, ◌≢◌, refl, sym, ap, ◌∙◌, Bool, true, false, Option, none, some, List, [], ◌∷◌, ◌++◌,
  map, arith, ◌⊎◌, inl, inr, All, All-append, subst, Sum-cases, Bool-cases,
}
use gdev.Gocache.Server.{
  cmd_close, ServerRequest, ServerResponse, Server, plain_response, capabilities, new_server,
  answer, accept, finish, cancel, close_server, ServerStep, accepting, finishing, cancelling,
  closing, ServerReach, begin, after,
}

snoc-not_nil : {A : Type 0} (xs : List A) (x : A) → xs ++ x ∷ [] ≢ []
snoc-not_nil [] x e = cc
snoc-not_nil (y ∷ xs) x e = cc

middle-not_nil : {A : Type 0} (xs : List A) (x : A) (ys : List A) → xs ++ x ∷ ys ≢ []
middle-not_nil [] x ys e = cc
middle-not_nil (y ∷ xs) x ys e = cc

moved-Perm :
    {A : Type 0} (served front : List A) (r : A) (back all : List A)
    → all ≡ served ++ r ∷ []
    → Perm (all ++ (front ++ back)) (served ++ (front ++ r ∷ back))
moved-Perm served front r back all e =
    subst (λ l. Perm l (served ++ (front ++ r ∷ back)))
      (sym (append_assoc served (r ∷ []) (front ++ back)) ∙ ap (λ l. l ++ (front ++ back)) (sym e))
      (Perm.append_left served (Perm.symm (perm_middle front back)))

module _ (impl : ServerRequest → String ⊎ ServerResponse) where
  abbrev pub Answered : Bool → ServerRequest × ServerResponse → Type 0
  Answered writable (r, resp) = answer impl writable r ≡ inr resp

  -- While no goroutine fails, the requests that were accepted are those that were served, each with the
  -- answer that was sent, and those under way.
  pub record IsServing (s : Server) (last : List ServerResponse) : Type 0 where
    pub same : Perm (map (λ q. q.0) s.served ++ s.outstanding) s.accepted
    pub answers : All (Answered s.writable) s.served
    pub sent : s.sent ≡ capabilities s.writable ∷ (map (λ q. q.1) s.served ++ last)

  finish-ok :
      (front : List ServerRequest) (r : ServerRequest) (back : List ServerRequest) (s : Server)
      → (finish impl front r back s).errs ≡ []
      → (s.errs ≡ [])
        × ((resp : ServerResponse) × ((answer impl s.writable r ≡ inr resp)
              × (finish impl front r back s ≡ record s {
                outstanding = front ++ back;
                served = s.served ++ (r, resp) ∷ [];
                sent = s.sent ++ resp ∷ [];
              })))
  unfolding finish
  finish-ok front r back s e = elim (Sum-cases (answer impl s.writable r)) [
    | inl (t, x) ↦ absurd (snoc-not_nil s.errs t (ground (arith, x)))
    | inr (resp, x) ↦ (ground (arith, x), (resp, (x, ground (arith, x))))
  ]

  -- In every reached state without an error: an open server has sent its commands and one answer for
  -- each served request; a closed one has served all, and an empty response with the id of the close
  -- request came last.
  pub record IsRun (s : Server) : Type 0 where
    pub last : List ServerResponse
    pub serving : IsServing s last
    pub while_open : s.closed ≡ false → last ≡ []
    pub when_closed :
        s.closed ≡ true
        → (s.outstanding ≡ [])
          × ((r : ServerRequest) × (s.closed_by ≡ some r)
              × (r.command ≡ cmd_close)
              × (last ≡ record { id = r.id; err = none; known_commands = [] } ∷ []))

  accept-IsRun :
      (r : ServerRequest) (s : Server) → s.closed ≡ false → IsRun s → IsRun (accept impl r s)
  unfolding accept
  accept-IsRun r s c h = record {
    last = h.last;
    serving = record {
      same =
          subst (λ l. Perm l (s.accepted ++ r ∷ []))
            (append_assoc (map (λ q. q.0) s.served) s.outstanding (r ∷ []))
            (Perm.append_right (r ∷ []) h.serving.same);
      answers = h.serving.answers;
      sent = h.serving.sent;
    };
    while_open = h.while_open;
    when_closed = λ x. absurd (ground (arith, c, x));
  }

  under_way-open :
      (front : List ServerRequest) (r : ServerRequest) (back : List ServerRequest) (s : Server)
      → s.outstanding ≡ front ++ r ∷ back
      → IsRun s
      → s.closed ≡ false
  under_way-open front r back s o h = elim (Bool-cases s.closed) [
    | inl x ↦ absurd (middle-not_nil front r back (sym o ∙ (h.when_closed x).0))
    | inr x ↦ x
  ]

  sent-last :
      (s : Server) (r : ServerRequest) (resp : ServerResponse) {last : List ServerResponse}
      → last ≡ []
      → s.sent ≡ capabilities s.writable ∷ (map (λ q. q.1) s.served ++ last)
      → s.sent ++ resp ∷ []
        ≡ capabilities s.writable ∷ (map (λ q. q.1) (s.served ++ (r, resp) ∷ []) ++ [])
  sent-last s r resp l e =
      ap (λ k. k ++ resp ∷ [])
        (e
          ∙ (ap (λ k. capabilities s.writable ∷ (map (λ q. q.1) s.served ++ k)) l
              ∙ ap (λ k. capabilities s.writable ∷ k) (append-nil (map (λ q. q.1) s.served))))
      ∙ ap (λ k. capabilities s.writable ∷ k)
          (sym (
            append-nil (map (λ q. q.1) (s.served ++ (r, resp) ∷ []))
            ∙ map-append (λ q. q.1) s.served ((r, resp) ∷ [])))

  finish-IsRun :
      (front : List ServerRequest) (r : ServerRequest) (back : List ServerRequest) (s : Server)
      (resp : ServerResponse)
      → s.outstanding ≡ front ++ r ∷ back
      → answer impl s.writable r ≡ inr resp
      → IsRun s
      → IsRun (record s {
        outstanding = front ++ back;
        served = s.served ++ (r, resp) ∷ [];
        sent = s.sent ++ resp ∷ [];
      })
  finish-IsRun front r back s resp o a h =
      let opened = under_way-open front r back s o h in
      record {
        last = [];
        serving = record {
          same =
              Perm.trans
                (moved-Perm (map (λ q. q.0) s.served) front r back _
                  (map-append (λ q. q.0) s.served ((r, resp) ∷ [])))
                (subst (λ l. Perm (map (λ q. q.0) s.served ++ l) s.accepted) o h.serving.same);
          answers = All-append _ s.served ((r, resp) ∷ []) h.serving.answers (a, tt);
          sent = sent-last s r resp (h.while_open opened) h.serving.sent;
        };
        while_open = λ x. refl;
        when_closed = λ x. cc;
      }

  close-IsRun :
      (r : ServerRequest) (s : Server)
      → r.command ≡ cmd_close
      → s.outstanding ≡ []
      → s.closed ≡ false
      → s.errs ≡ []
      → IsRun s
      → IsRun (record s {
        errs = s.errs ++ [];
        sent = s.sent ++ plain_response r.id ∷ [];
        closed = true;
        closed_by = some r;
      })
  close-IsRun r s cl o c e h = record {
    last = plain_response r.id ∷ [];
    serving = record {
      same = h.serving.same;
      answers = h.serving.answers;
      sent =
          ap (λ l. l ++ plain_response r.id ∷ [])
            (h.serving.sent
              ∙ ap (λ l. capabilities s.writable ∷ (map (λ q. q.1) s.served ++ l)) (h.while_open c)
              ∙ ap (λ l. capabilities s.writable ∷ l) (append-nil (map (λ q. q.1) s.served)));
    };
    while_open = λ x. cc;
    when_closed = λ x. (o, (r, refl, cl, refl));
  }

  accept-errs : (r : ServerRequest) (s : Server) → (accept impl r s).errs ≡ [] → s.errs ≡ []
  unfolding accept
  accept-errs r s e = e

  close-open :
      (err : Option String) (r : ServerRequest) (s : Server)
      → (close_server impl err r s).errs ≡ []
      → (s.errs ≡ [])
        × (close_server impl err r s ≡ record s {
          errs = s.errs ++ [];
          sent = s.sent ++ plain_response r.id ∷ [];
          closed = true;
          closed_by = some r;
        })
  unfolding close_server
  close-open none r s e = (sym (append-nil s.errs) ∙ e, refl)
  close-open (some x) r s e = absurd (snoc-not_nil s.errs x e)

  step-IsRun :
      {s s' : Server} → ServerStep impl s s' → s'.errs ≡ [] → (s.errs ≡ [] → IsRun s) → IsRun s'
  unfolding cancel
  step-IsRun (accepting {s} r c o) e h = accept-IsRun r s o (h (accept-errs r s e))
  step-IsRun (finishing {s} front r back o) e h =
      let (q, (resp, (a, x))) = finish-ok front r back s e in
      rw x (finish-IsRun front r back s resp o a (h q))
  step-IsRun (cancelling {s} front r back o n) e h = absurd (snoc-not_nil s.errs "canceled" e)
  step-IsRun (closing {s} err r c o k) e h =
      let (q, x) = close-open err r s e in rw x (close-IsRun r s c o k q (h q))

  -- In every interleaving of requests and their goroutines, as long as there is no error: the server has
  -- sent its commands first and then one answer for each request that was served, and each accepted
  -- request is served or under way; once it has closed, it did so on a close request, all are served,
  -- and an empty response with the id of that request is the last.
  pub ServerReach-IsRun :
      (writable : Bool) (s : Server) → ServerReach impl writable s → s.errs ≡ [] → IsRun s
  unfolding new_server
  ServerReach-IsRun writable s begin e = record {
    last = [];
    serving = record { same = Perm.refl []; answers = tt; sent = refl };
    while_open = λ x. refl;
    when_closed = λ x. cc;
  }
  ServerReach-IsRun writable s (after reach step) e =
      step-IsRun step e (ServerReach-IsRun writable _ reach)
