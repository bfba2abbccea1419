-- ===== src/Driver/Reaper/Removal.antt =====
-- The first loop of `old_task_reaper`: for each active task, the run with its id is taken out of the
-- list by `swap_remove`, which puts the last run in its place.
use build_o_tron.Base.{ℕ, zero, suc, Option, none, some, List, [], ◌∷◌, ◌==◌, if◌then◌else◌}
use build_o_tron.Core.Sql.{Run}

abbrev pub in_rest : Option ℕ → Option ℕ
in_rest none = none
in_rest (some i) = some (suc i)

-- `iter().position(|task| task.id == *id)`
unfoldable pub position : ℕ → List Run → Option ℕ
position id [] = none
position id (r ∷ rs) = let later = in_rest (position id rs) in if r.id == id then some 0 else later

module _ {ℓ} {A : Type ℓ} where
  -- The list without its last element.
  abbrev pub init : List A → List A
  init [] = []
  init (x ∷ []) = []
  init (x ∷ y ∷ xs) = x ∷ init (y ∷ xs)

  abbrev pub last_or : A → List A → A
  last_or x [] = x
  last_or x (y ∷ ys) = last_or y ys

  -- `Vec::swap_remove(i)`, for an index in range.
  unfoldable pub swap_remove : List A → ℕ → List A
  swap_remove [] i = []
  swap_remove (x ∷ []) zero = []
  swap_remove (x ∷ y ∷ ys) zero = last_or y ys ∷ init (y ∷ ys)
  swap_remove (x ∷ xs) (suc i) = x ∷ swap_remove xs i

abbrev pub remove_at : Option ℕ → List Run → List Run
remove_at none runs = runs
remove_at (some i) runs = swap_remove runs i

unfoldable pub remove_active : List ℕ → List Run → List Run
unfolding position swap_remove
remove_active [] runs = runs
remove_active (id ∷ ids) runs = remove_active ids (remove_at (position id runs) runs)
