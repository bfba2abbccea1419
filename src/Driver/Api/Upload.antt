-- ===== src/Driver/Api/Upload.antt =====
-- The task that `handle_artifact` of ci-driver/src/main.rs spawns: the body of an artifact is stored,
-- and then the artifact is marked as complete.
use Prim.Native.String.{◌++◌ as append}
use build_o_tron.Base.{
  ℕ, ◌≡◌, ◌⊎◌, refl, ap, Outcome-cases, List, [], ◌∷◌, Outcome, ok, err, panic, Action, ◌>>◌,
  expect, continue, expected, inl, inr,
}
use build_o_tron.Core.DbCtx.Lock.{DbCtx}
use build_o_tron.Native.Io.{Bytes, Chunk, bytes, broken, store_all}
use build_o_tron.Driver.Api.{store_done}

-- The file of the artifact beside the database.
pub record Upload : Type 0 where
  pub ctx : DbCtx
  pub file : Bytes

abbrev on_file : {A : Type 0} → Action Bytes A → Action Upload A
on_file m u = let (r, file) = m u.file in (r, record u { file = file })

abbrev on_ctx : {A : Type 0} → Action DbCtx A → Action Upload A
on_ctx m u = let (r, ctx) = m u.ctx in (r, record u { ctx = ctx })

-- `write_all` writes at the end of the file; `now` is the clock when the body is stored.
unfoldable pub store_task :
    (Bytes → Action Bytes (Unit {0})) → List Chunk → ℕ → ℕ → Action Upload (Unit {0})
unfolding store_all store_done
store_task write_all chunks now id = do
  expect "called `Result::unwrap()` on an `Err` value" (on_file (store_all write_all chunks))
  expect "called `Result::unwrap()` on an `Err` value" (on_ctx (store_done now id))

-- What follows the body changes the database alone, and only where the body was stored.
after_body :
    (r : Outcome (Unit {0})) (m : Action DbCtx (Unit {0})) (u : Upload)
    → let after =
        (continue
          (expected "called `Result::unwrap()` on an `Err` value" r)
          (λ _. expect "called `Result::unwrap()` on an `Err` value" (on_ctx m))
          u).1 in
      (after.file ≡ u.file) × ((after.ctx ≡ u.ctx) ⊎ ((r ≡ ok tt) × (after.ctx ≡ (m u.ctx).1)))
after_body (ok tt) m u = (refl, inr (refl, refl))
after_body (err e) m u = (refl, inl refl)
after_body (panic e) m u = (refl, inl refl)

-- Every chunk came without an error, and every write of one ended well: what the file was, what the
-- writes made of it, and what it is at the end.
pub data Written (write_all : Bytes → Action Bytes (Unit {0}))
    : List Chunk → Bytes → Bytes → Type 0 where
  all_written : {file : Bytes} → Written write_all [] file file
  one_written :
      (b : Bytes) {later : List Chunk} {before after : Bytes} (next : Bytes)
      → write_all b before ≡ (ok tt, next)
      → Written write_all later next after
      → Written write_all (bytes b ∷ later) before after

store_all-Written :
    (write_all : Bytes → Action Bytes (Unit {0})) (chunks : List Chunk) (file : Bytes)
    → (store_all write_all chunks file).0 ≡ ok tt
    → Written write_all chunks file (store_all write_all chunks file).1
unfolding store_all
store_all-Written write_all [] file h = all_written
store_all-Written write_all (broken e ∷ later) file h = cc h
store_all-Written write_all (bytes b ∷ later) file h =
    let next = (write_all b file).1 in
    elim (Outcome-cases (write_all b file).0) [
      | inl (u, e) ↦
          let later_ok : (store_all write_all later next).0 ≡ ok tt = rw e at h in
          rw e (
            one_written b next (ap (λ r. (r, next)) e)
              (store_all-Written write_all later next later_ok))
      | inr (inl (x, e)) ↦ let k : err (append "failed to write: " x) ≡ ok tt = rw e at h in cc k
      | inr (inr (x, e)) ↦ let k : panic x ≡ ok tt = rw e at h in cc k
    ]

-- The database is touched only after every chunk of the body came without an error and every write
-- of one to the file ended well, whatever writing does: an artifact is marked as complete only then,
-- and its file is what those writes left.
pub store_task_complete :
    (write_all : Bytes → Action Bytes (Unit {0})) (chunks : List Chunk) (now id : ℕ) (u : Upload)
    → let after = (store_task write_all chunks now id u).1 in
      (after.ctx ≡ u.ctx)
      ⊎ (Written write_all chunks u.file after.file × (after.ctx ≡ (store_done now id u.ctx).1))
unfolding store_task
store_task_complete write_all chunks now id u =
    let (r, file) = store_all write_all chunks u.file in
    let (f, c) = after_body r (store_done now id) (record u { file = file }) in
    elim c [
      | inl same ↦ inl same
      | inr (e, d) ↦ inr (rw f (store_all-Written write_all chunks u.file e), d)
    ]
