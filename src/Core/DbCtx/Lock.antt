-- ===== src/Core/DbCtx/Lock.antt =====
-- `DbCtx` of ci-lib-core/src/dbctx.rs: a connection behind a `Mutex`. A panic while the lock is held
-- poisons it, and from then on every `.lock().unwrap()` of the process panics.
use build_o_tron.Base.{
  Bool, true, false, Outcome, ok, err, panic, Action, if◌then◌else◌, ◌≡◌, Bool-cases, inl, inr,
}
use build_o_tron.Core.Db.{Db}

pub record DbCtx : Type 0 where
  pub db : Db
  pub poisoned : Bool

-- `DbCtx::new`, on a database that holds `db`.
abbrev pub new : Db → DbCtx
new db = record { db = db; poisoned = false }

abbrev pub is_panic {ℓ} : {A : Type ℓ} → Outcome A → Bool
is_panic (ok _) = false
is_panic (err _) = false
is_panic (panic _) = true

-- The body of a method between `self.conn.lock().unwrap()` and the end of the guard's scope.
abbrev pub locked : {A : Type 0} → Action Db A → Action DbCtx A
locked m ctx =
    if ctx.poisoned
    then (panic "PoisonError", ctx)
    else let (r, db) = m ctx.db in (r, record { db = db; poisoned = is_panic r })

-- A method that ended well ran on an unpoisoned lock, and left it so.
pub locked-ok :
    {A : Type 0} (m : Action Db A) (ctx : DbCtx) (a : A)
    → (locked m ctx).0 ≡ ok a
    → (ctx.poisoned ≡ false)
      × ((m ctx.db).0 ≡ ok a)
      × ((locked m ctx).1 ≡ record { db = (m ctx.db).1; poisoned = false })
locked-ok m ctx a h = elim (Bool-cases ctx.poisoned) [
  | inl p ↦ let k : panic "PoisonError" ≡ ok a = rw p at h in cc k
  | inr p ↦ let k : (m ctx.db).0 ≡ ok a = rw p at h in (p, k, rw p (rw k))
]
