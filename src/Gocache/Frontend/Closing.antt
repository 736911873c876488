-- ===== src/Gocache/Frontend/Closing.antt =====
-- addons/gocache/storage-fronend.go: `Close` and the calls that are under way.
use gdev.Base.{ℕ, suc, ◌≡◌, refl, Bool, true, false, arith, ap, sym, ◌∙◌}
use gdev.Gocache.Backend.{ok, fails, closed, Backend}
use gdev.Gocache.Frontend.{Frontend, new_frontend, use_, done, begin_close, end_close}

module _ {S : Type 0} (b : Backend S) where
  -- The steps of concurrent calls. `running` counts the calls between `use` and `done`; `shut` is
  -- set when the backend has been closed.
  pub record Shared : Type 0 where
    pub front : Frontend S
    pub running : ℕ
    pub shut : Bool

  pub data Move : Shared → Shared → Type 0 where
    enter :
        {d : Shared} {f : Frontend S}
        → use_ b d.front ≡ (ok tt, f)
        → Move d (record d { front = f; running = suc d.running })
    work :
        {d : Shared} {n : ℕ} {s : S}
        → d.running ≡ suc n
        → Move d (record d { front = record d.front { dd = s } })
    leave :
        {d : Shared} {n : ℕ}
        → d.running ≡ suc n
        → Move d (record d { front = done b d.front; running = n })
    closing : {d : Shared} → Move d (record d { front = begin_close b d.front })
    shutting :
        {d : Shared}
        → d.front.closing ≡ true
        → d.front.in_use ≡ 0
        → Move d (record d { front = (end_close b d.front).1; shut = true })

  pub data Reach (s : S) : Shared → Type 0 where
    start : Reach s (record { front = new_frontend b s; running = 0; shut = false })
    step : {d e : Shared} → Reach s d → Move d e → Reach s e

  record IsCounted (d : Shared) : Type 0 where
    counted : d.front.in_use ≡ d.running
    drained : d.shut ≡ true → (d.front.closing ≡ true) × (d.running ≡ 0)

  use_-open :
      (d f : Frontend S)
      → use_ b d ≡ (ok tt, f)
      → (d.closing ≡ false) × (f ≡ record d { in_use = suc d.in_use })
  unfolding use_
  use_-open d f e = (ground arith, ground arith)

  Move-IsCounted : {d e : Shared} → Move d e → IsCounted d → IsCounted e
  unfolding done begin_close end_close
  Move-IsCounted (enter {d = d} {f = f} u) h =
      let (o, e) = use_-open d.front f u in
      rw e (record { counted = ap suc h.counted; drained = λ k. absurd (cc ((h.drained k).0, o)) })
  Move-IsCounted (work {d = d} r) h = record { counted = h.counted; drained = h.drained }
  Move-IsCounted (leave {d = d} {n = n} r) h = record {
    counted = omega (arith, h.counted, r);
    drained = λ k. absurd (omega (arith, (h.drained k).1, r));
  }
  Move-IsCounted (closing {d = d}) h = record {
    counted = h.counted;
    drained = λ k. (refl, (h.drained k).1);
  }
  Move-IsCounted (shutting {d = d} c z) h = record {
    counted = h.counted;
    drained = λ k. (c, sym h.counted ∙ z);
  }

  Reach-IsCounted : (s : S) (d : Shared) → Reach s d → IsCounted d
  Reach-IsCounted s _ start = record { counted = refl; drained = λ k. cc }
  Reach-IsCounted s _ (step r m) = Move-IsCounted m (Reach-IsCounted s _ r)

  -- In every interleaving of calls and closes, once the backend has been closed no call is under
  -- way and none can start.
  pub Reach-drained :
      (s : S) (d : Shared)
      → Reach s d
      → d.shut ≡ true
      → (d.running ≡ 0) × ((use_ b d.front).0 ≡ fails closed)
  unfolding use_
  Reach-drained s d r k = let (c, z) = (Reach-IsCounted s d r).drained k in (z, ground (arith, c))
