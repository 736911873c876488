-- ===== src/Gocache/Frontend.antt =====
-- addons/gocache/storage-fronend.go: the front end of a storage backend.
--
-- A method runs between `use`, which counts it in, and `done`. Calls of several goroutines are
-- interleavings of these steps.
pub mod Closing
pub mod Serve
use gdev.Base.{
  ℕ, zero, suc, ◌-◌, ◌+◌, String, Bool, true, false, not, ◌&&◌, ◌||◌, Option, none, some,
  if◌then◌else◌, eqb, ◌==◌,
}
use gdev.Gocache.Backend.{
  Error, not_exist, closed, is_not_exist, ActionEntry, Result, ok, fails, panics, Backend,
}

-- addons/gocache/protocol.go: the fields that `Get` and `Put` read and write.
pub record Request : Type 0 where
  pub id : ℕ
  pub action_id : String
  pub output_id : String
  pub body_size : ℕ
  pub body : Option String

pub record Response : Type 0 where
  pub id : ℕ
  pub err : Option Error
  pub miss : Bool
  pub output_id : String
  pub size : ℕ
  pub time : Option ℕ
  pub disk_path : String

pub record Frontend (S : Type 0) : Type 0 where
  pub in_use : ℕ
  pub closing : Bool
  pub dd : S

abbrev pub blank : ℕ → Response
blank id = record {
  id = id;
  err = none;
  miss = false;
  output_id = "";
  size = 0;
  time = none;
  disk_path = "";
}

module _ {S : Type 0} (b : Backend S) where
  abbrev pub new_frontend : S → Frontend S
  new_frontend s = record { in_use = 0; closing = false; dd = s }

  -- `use`, and the `done` that it returns.
  unfoldable pub use_ : Frontend S → Result Unit × Frontend S
  use_ d = if d.closing then (fails closed, d) else (ok tt, record d { in_use = suc d.in_use })

  unfoldable pub done : Frontend S → Frontend S
  done d = record d { in_use = d.in_use - 1 }

  -- The first half of `Close`, and the second, which waits for the count to be zero.
  unfoldable pub begin_close : Frontend S → Frontend S
  begin_close d = record d { closing = true }

  unfoldable pub end_close : Frontend S → Result Unit × Frontend S
  end_close d = let (r, s) = b.close d.dd in (r, record d { dd = s })

  -- The answer to the path that `CheckOutputFile` returns.
  abbrev located : ℕ → ActionEntry → Result String → Result Response
  located id a panics = panics
  located id a (fails e) = ok (record (blank id) { err = some e; miss = true })
  located id a (ok path) =
      if path == ""
      then ok (record (blank id) { miss = true })
      else ok (record (blank id) {
        output_id = a.output_id;
        size = a.size;
        time = some a.time;
        disk_path = path;
      })

  -- `Get` between `use` and `done`.
  unfoldable pub get_entry : Request → S → Result Response × S
  get_entry req s =
      let (r, s1) = b.read_action_entry req.action_id s in
      elim r [
        | panics ↦ (panics, s1)
        | fails e ↦
            if is_not_exist e
            then (ok (record (blank req.id) { miss = true }), s1)
            else (ok (record (blank req.id) { err = some e; miss = true }), s1)
        | ok a ↦ let (q, s2) = b.check_output_file a s1 in (located req.id a q, s2)
      ]

  -- The end of `Put`: the entry is written after its output.
  abbrev put_action : Request → ActionEntry → String → S → Result Response × S
  put_action req a path s =
      let (r, s1) = b.write_action_entry a s in
      elim r [
        | panics ↦ (panics, s1)
        | fails e ↦ (ok (record (blank req.id) { err = some e }), s1)
        | ok u ↦ (
          ok (record (blank req.id) {
            output_id = a.output_id;
            size = a.size;
            time = some a.time;
            disk_path = path;
          }),
          s1,
        )
      ]

  -- `Put` between `use` and `done`, at the time `now`.
  unfoldable pub put_entry : ℕ → Request → S → Result Response × S
  put_entry now req s =
      let a : ActionEntry = record {
        id = req.action_id;
        output_id = req.output_id;
        size = req.body_size;
        time = now;
      } in
      elim req.body [
        | none ↦ put_action req a "" s
        | some body ↦
            let (r, s1) = b.write_output a body s in
            elim r [
              | panics ↦ (panics, s1)
              | fails e ↦ (ok (record (blank req.id) { err = some e }), s1)
              | ok path ↦ put_action req a path s1
            ]
      ]

  -- A call that finds the front end open runs the method and counts out.
  abbrev during : (S → Result Response × S) → Frontend S → Result Response × Frontend S
  during method d =
      let (u, d1) = use_ d in
      elim u [
        | panics ↦ (panics, d1)
        | fails e ↦ (fails e, d1)
        | ok t ↦ let (r, s) = method d1.dd in (r, done (record d1 { dd = s }))
      ]

  unfoldable pub get : Request → Frontend S → Result Response × Frontend S
  unfolding use_ done get_entry
  get req d = during (get_entry req) d

  unfoldable pub put : ℕ → Request → Frontend S → Result Response × Frontend S
  unfolding use_ done put_entry
  put now req d = during (put_entry now req) d
