-- ===== src/Core/Table/Defs.antt =====
-- A table with `id INTEGER PRIMARY KEY AUTOINCREMENT`, as ci-lib-core/src/sql.rs creates each of
-- its tables: a new row gets an id above every id that the table ever held. The rows stand in the
-- order of their ids, which is the order of insertion.
use build_o_tron.Base.{
  ℕ, suc, ◌≤◌, ◌<◌, Bool, Option, List, [], ◌∷◌, ◌++◌, All, update, first?, ◌==◌,
}

pub record Table {ℓ} (R : Type ℓ) : Type ℓ where
  pub rows : List R
  pub seq : ℕ

module _ {ℓ} {R : Type ℓ} where
  abbrev pub empty : Table R
  empty = record { rows = []; seq = 0 }

  -- `last_insert_rowid()` after an insert is the id that the row got.
  abbrev pub next_id : Table R → ℕ
  next_id t = suc t.seq

  abbrev pub insert : (ℕ → R) → Table R → Table R
  insert make t = record { rows = t.rows ++ (make (suc t.seq) ∷ []); seq = suc t.seq }

  abbrev pub update_where : (R → Bool) → (R → R) → Table R → Table R
  update_where p f t = record t { rows = update p f t.rows }

module _ {ℓ} {R : Type ℓ} (key : R → ℕ) where
  abbrev pub by_id : ℕ → List R → Option R
  by_id i rows = first? (λ r. key r == i) rows

  abbrev pub Ascending : List R → Type 0
  Ascending [] = Unit
  Ascending (r ∷ rs) = All (λ s. key r < key s) rs × Ascending rs

  -- Ids grow along the rows and none is above the sequence counter; so no two rows share an id.
  pub record IsKeyed (t : Table R) : Type ℓ where
    pub bounded : All (λ r. key r ≤ t.seq) t.rows
    pub ascending : Ascending t.rows
