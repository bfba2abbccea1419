-- ===== src/Core/DbCtx/Runs/Token.antt =====
-- The life of a build token: `activate_run` of ci-driver/src/main.rs writes it, and `run_for_token` of
-- ci-lib-core/src/dbctx.rs finds the run by it.
use mathlib.Core.Option
use text.Mathlib.TextEquality.{eq_iff}
use build_o_tron.Base.{
  ℕ, ◌+◌, String, ◌≡◌, refl, ap, Bool, true, false, Option, some, List, [], ◌∷◌, ok, any, first?,
  update, none, ◌=?◌, ◌==◌, Bool-cases, inl, inr, if◌then◌else◌, ltb, arith,
}
use build_o_tron.Core.Sql.{TokenValidity}
use build_o_tron.Core.Table.{by_id}
use build_o_tron.Core.Db.{Db, RunRow}
use build_o_tron.Core.DbCtx.Lock.{DbCtx}
use build_o_tron.Core.DbCtx.Runs.{
  run_for_token, validity, has_token, update_run, set_started, token_expiry_ms,
}

abbrev run_row : ℕ → Db → Option RunRow
run_row id db = by_id (λ (r : RunRow). r.id) id db.runs.rows

abbrev pub is_used : String → Db → Bool
is_used token db = any (has_token token) db.runs.rows

first?-update :
    (id : ℕ) (token : String) (f : RunRow → RunRow) (rows : List RunRow) {r : RunRow}
    → any (has_token token) rows ≡ false
    → ((s : RunRow) → has_token token (f s) ≡ true)
    → by_id (λ (s : RunRow). s.id) id rows ≡ some r
    → first? (has_token token) (update (λ (s : RunRow). s.id == id) f rows) ≡ some (f r)
first?-update id token f [] u h e = cc
first?-update id token f (s ∷ rows) {r} u h e = elim (Bool-cases (has_token token s)) [
  | inl t ↦ let k : true ≡ false = rw t at u in cc k
  | inr t ↦ elim (Bool-cases (s.id == id)) [
    | inl y ↦ let k : some s ≡ some r = rw y at e in rw y (rw (h s) (ap (Option.map f) k))
    | inr n ↦ rw n (rw t (first?-update id token f rows {r = r} (rw t at u) h (rw n at e)))
  ]
]

-- In the database that a start leaves, the new token, which no run had before, is the token of the
-- run that was started and of its directory. At a clock up to the run's timeout, or half an hour,
-- after the start it is valid, and at a later clock it is expired. The lock is unpoisoned.
pub run_for_token-set_started :
    (ctx : DbCtx) (id start now host_id : ℕ) (path token : String) (row : RunRow)
    → ctx.poisoned ≡ false
    → is_used token ctx.db ≡ false
    → run_row id ctx.db ≡ some row
    → (run_for_token now token (record {
      db = update_run id (set_started start host_id path token) ctx.db;
      poisoned = false;
    })).0
      ≡ ok (
          some (
            row.id,
            some path,
            (if ltb (start + Option.get_or row.run_timeout token_expiry_ms) now
                then TokenValidity.expired
                else TokenValidity.valid),
          ))
unfolding run_for_token set_started validity
run_for_token-set_started ctx id start now host_id path token row p u e =
    rw
      (first?-update id token (set_started start host_id path token) ctx.db.runs.rows {r = row} u
        (λ s. ground (arith, eq_iff token token)) e)
      refl

first?-update_twice :
    (id : ℕ) (token : String) (f g : RunRow → RunRow) (rows : List RunRow)
    → any (has_token token) rows ≡ false
    → ((s : RunRow) → (f s).id ≡ s.id)
    → ((s : RunRow) → has_token token (g (f s)) ≡ false)
    → first?
        (has_token token)
        (update (λ (s : RunRow). s.id == id) g (update (λ (s : RunRow). s.id == id) f rows))
      ≡ none
first?-update_twice id token f g [] u i h = refl
first?-update_twice id token f g (s ∷ rows) u i h = elim (Bool-cases (has_token token s)) [
  | inl t ↦ let k : true ≡ false = rw t at u in cc k
  | inr t ↦
      let later = first?-update_twice id token f g rows (rw t at u) i h in
      elim (Bool-cases (s.id == id)) [
        | inl y ↦
            let again : ((f s).id == id) ≡ true = rw (i s) y in rw y (rw again (rw (h s) later))
        | inr n ↦ rw n (rw n (rw t later))
      ]
]

-- Where a run is started a second time, with another token, the token of the first start names no
-- run any more. The lock is unpoisoned, and no run had the first token before.
pub run_for_token-set_started_twice :
    (ctx : DbCtx) (id start again now host_id other_host : ℕ) (path token other_token : String)
    → is_used token ctx.db ≡ false
    → (other_token =? token) ≡ false
    → (run_for_token now token (record {
      db =
          update_run id
            (set_started again other_host path other_token)
            (update_run id (set_started start host_id path token) ctx.db);
      poisoned = false;
    })).0
      ≡ ok none
unfolding run_for_token set_started
run_for_token-set_started_twice ctx id start again now host_id other_host path token other_token u
      d =
    rw
      (first?-update_twice id token (set_started start host_id path token)
        (set_started again other_host path other_token) ctx.db.runs.rows u (λ s. refl) (λ s. d))
      refl
