-- ===== src/Core/DbCtx/ReadOnly.antt =====
-- Which actions on the database leave its rows as they are: the queries of ci-lib-core/src/dbctx.rs,
-- and what is put together from them.
use build_o_tron.Base.{
  ℕ, String, ◌≡◌, refl, Bool-cases, Option-cases, inl, inr, Option, none, some, Outcome, Action,
  ◌>>=◌, expect, expect_some, bind-keeps,
}
use build_o_tron.Core.Table.{by_id}
use build_o_tron.Core.Db.{Db, CommitRow, HostRow}
use build_o_tron.Core.DbCtx.Lock.{DbCtx, locked}
use build_o_tron.Core.DbCtx.Commits.{commit_sha}
use build_o_tron.Core.DbCtx.Hosts.{host_model_info}

-- However the action ends, the rows are what they were.
pub record IsReadOnly {A : Type 0} (m : Action DbCtx A) : Type 0 where
  pub keeps : (ctx : DbCtx) → (m ctx).1.db ≡ ctx.db

abbrev rows_of : DbCtx → Db
rows_of ctx = ctx.db

module _ {A : Type 0} where
  pub known-IsReadOnly : (r : Outcome A) → IsReadOnly (λ ctx. (r, ctx))
  known-IsReadOnly r = record { keeps = λ ctx. refl }

  pub locked-IsReadOnly : (m : Action Db A) → ((db : Db) → (m db).1 ≡ db) → IsReadOnly (locked m)
  locked-IsReadOnly m h = record {
    keeps = λ ctx. elim (Bool-cases ctx.poisoned) [ inl p ↦ rw p refl | inr p ↦ rw p (h ctx.db) ];
  }

  pub find-IsReadOnly : (found : Db → Outcome A) → IsReadOnly (locked (λ db. (found db, db)))
  find-IsReadOnly found = locked-IsReadOnly (λ db. (found db, db)) (λ db. refl)

  pub expect-IsReadOnly :
      (msg : String) {m : Action DbCtx A} → IsReadOnly m → IsReadOnly (expect msg m)
  expect-IsReadOnly msg h = record { keeps = h.keeps }

  pub expect_some-IsReadOnly :
      (msg : String) (o : Option A) → IsReadOnly (expect_some {S = DbCtx} msg o)
  expect_some-IsReadOnly msg none = record { keeps = λ ctx. refl }
  expect_some-IsReadOnly msg (some a) = record { keeps = λ ctx. refl }

pub bind-IsReadOnly :
    {A B : Type 0} (m : Action DbCtx A) (f : A → Action DbCtx B)
    → IsReadOnly m
    → ((a : A) → IsReadOnly (f a))
    → IsReadOnly (m >>= f)
bind-IsReadOnly m f h k = record {
  keeps = λ ctx. bind-keeps rows_of m f ctx (h.keeps ctx) (λ a t. (k a).keeps t);
}

pub commit_sha-IsReadOnly : (id : ℕ) → IsReadOnly (commit_sha id)
unfolding commit_sha
commit_sha-IsReadOnly id = locked-IsReadOnly _ λ db.
    elim (Option-cases (by_id (λ (c : CommitRow). c.id) id db.commits.rows)) [
      | inl n ↦ rw n refl
      | inr (c, e) ↦ rw e refl
    ]

pub host_model_info-IsReadOnly : (id : ℕ) → IsReadOnly (host_model_info id)
unfolding host_model_info
host_model_info-IsReadOnly id = locked-IsReadOnly _ λ db.
    elim (Option-cases (by_id (λ (r : HostRow). r.id) id db.hosts.rows)) [
      | inl n ↦ rw n refl
      | inr (c, e) ↦ rw e refl
    ]
