-- ===== src/Core/DbCtx/Commits/NiceName.antt =====
-- `nice_name_for_commit`, ci-lib-core/src/dbctx.rs: which name is shown for a commit.
use build_o_tron.Base.{
  ℕ, zero, Bool-cases, inl, inr, ◌∙◌, ap, suc, ◌<◌, ◌≡◌, refl, Bool, true, false, Option, none,
  some, List, [], ◌∷◌, ok, All, first?, last?, ◌==◌, arith, inl, inr, if◌then◌else◌,
}
use mathlib.Core.Option
use build_o_tron.Core.Sql.{CommitName, NameState, name_state_of, is_stale}
use build_o_tron.Core.Db.{CommitNameRow}
use build_o_tron.Core.DbCtx.Commits.{best_name}

-- A row holds one of the three numbers of `NameState`.
abbrev pub IsNameRow : CommitNameRow → Type 0
IsNameRow r = r.name_state < 3

abbrev state_at : ℕ → NameState
state_at zero = NameState.fresh
state_at (suc zero) = NameState.stale
state_at (suc (suc _)) = NameState.short_sha

abbrev pub name_of : CommitNameRow → CommitName
name_of r = record { name = r.name; state = state_at r.name_state }

abbrev pub is_fresh_row : CommitNameRow → Bool
is_fresh_row r = r.name_state == 0

-- The first row that is fresh, or else the last row, or else `best`.
abbrev pub preferred : Option CommitName → List CommitNameRow → Option CommitName
preferred best [] = best
preferred best (r ∷ rows) =
    if is_fresh_row r then some (name_of r) else preferred (some (name_of r)) rows

name_state_of-lt : (n : ℕ) → n < 3 → name_state_of n ≡ ok (state_at n)
unfolding name_state_of
name_state_of-lt zero h = refl
name_state_of-lt (suc zero) h = refl
name_state_of-lt (suc (suc zero)) h = refl
name_state_of-lt (suc (suc (suc n))) h = absurd (omega arith)

-- A fresh name stays.
best_name-fresh :
    (b : CommitName) (rows : List CommitNameRow)
    → is_stale b ≡ false
    → best_name (some b) rows ≡ ok (some b)
unfolding best_name
best_name-fresh b [] h = refl
best_name-fresh b (r ∷ rows) h = rw h (best_name-fresh b rows h)

is_stale-name_of :
    (r : CommitNameRow) → is_stale (name_of r) ≡ (if is_fresh_row r then false else true)
is_stale-name_of r = go r.name_state
  where
    go :
        (n : ℕ)
        → is_stale (record { name = r.name; state = state_at n }) ≡ (if n == 0 then false else true)
    go zero = refl
    go (suc zero) = refl
    go (suc (suc n)) = ground arith

-- What a best name may be so that the next row takes its place.
abbrev Gives : Option CommitName → Type 0
Gives none = Unit
Gives (some b) = is_stale b ≡ true

after_row :
    (r : CommitNameRow) (rows : List CommitNameRow)
    → (Gives (some (name_of r))
        → best_name (some (name_of r)) rows ≡ ok (preferred (some (name_of r)) rows))
    → best_name (some (name_of r)) rows
      ≡ ok (if is_fresh_row r then some (name_of r) else preferred (some (name_of r)) rows)
after_row r rows ih = elim (Bool-cases (is_fresh_row r)) [
  | inl e ↦ rw e (best_name-fresh (name_of r) rows (is_stale-name_of r ∙ rw e))
  | inr e ↦ rw e (ih (is_stale-name_of r ∙ rw e))
]

best_name-preferred :
    (best : Option CommitName) (rows : List CommitNameRow)
    → Gives best
    → All IsNameRow rows
    → best_name best rows ≡ ok (preferred best rows)
unfolding best_name
best_name-preferred none [] h k = refl
best_name-preferred (some b) [] h k = refl
best_name-preferred none (r ∷ rows) h k =
    rw (name_state_of-lt r.name_state k.0, best_name)
      (after_row r rows (λ g. best_name-preferred (some (name_of r)) rows g k.1))
best_name-preferred (some b) (r ∷ rows) h k = rw h (
    rw (name_state_of-lt r.name_state k.0, best_name)
      (after_row r rows (λ g. best_name-preferred (some (name_of r)) rows g k.1)))

preferred-fresh :
    (best : Option CommitName) (rows : List CommitNameRow) (r : CommitNameRow)
    → first? is_fresh_row rows ≡ some r
    → preferred best rows ≡ some (name_of r)
preferred-fresh best [] r h = cc
preferred-fresh best (q ∷ rows) r h = ground (arith, preferred-fresh (some (name_of q)) rows r)

preferred-last :
    (q : CommitNameRow) (rows : List CommitNameRow)
    → first? is_fresh_row rows ≡ none
    → preferred (some (name_of q)) rows ≡ Option.map name_of (last? (q ∷ rows))
preferred-last q [] h = refl
preferred-last q (r ∷ rows) h = ground (arith, preferred-last r rows)

abbrev or_last : List CommitNameRow → Option CommitNameRow → Option CommitNameRow
or_last rows none = last? rows
or_last rows (some r) = some r

-- The row whose name is shown: the first fresh one, or else the last.
abbrev pub shown_row : List CommitNameRow → Option CommitNameRow
shown_row rows = or_last rows (first? is_fresh_row rows)

preferred-none :
    (rows : List CommitNameRow)
    → first? is_fresh_row rows ≡ none
    → preferred none rows ≡ Option.map name_of (last? rows)
preferred-none [] h = refl
preferred-none (q ∷ rows) h = ground (arith, preferred-last q rows)

preferred-shown :
    (rows : List CommitNameRow) (first : Option CommitNameRow)
    → first? is_fresh_row rows ≡ first
    → preferred none rows ≡ Option.map name_of (or_last rows first)
preferred-shown rows none e = preferred-none rows e
preferred-shown rows (some r) e = preferred-fresh none rows r e

-- Where every name of a commit has a known state, the loop answers with the first fresh name; where
-- none is fresh, with the last name; and with no name where there is none.
pub best_name-shown_row :
    (rows : List CommitNameRow)
    → All IsNameRow rows
    → best_name none rows ≡ ok (Option.map name_of (shown_row rows))
best_name-shown_row rows k =
    best_name-preferred none rows tt k
    ∙ ap ok (preferred-shown rows (first? is_fresh_row rows) refl)
