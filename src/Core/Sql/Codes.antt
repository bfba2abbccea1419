-- ===== src/Core/Sql/Codes.antt =====
-- The numbers of the database for `RunState` and `NameState`, ci-lib-core/src/sql.rs.
use build_o_tron.Base.{ℕ, zero, suc, ◌≡◌, ◌↔◌, subst, refl, ok, arith}
use build_o_tron.Core.Sql.{
  RunState, run_state_code, run_state_of, NameState, name_state_code, name_state_of,
}

run_state_of-code : (s : RunState) → run_state_of (run_state_code s) ≡ ok s
unfolding run_state_of run_state_code
run_state_of-code RunState.pending = refl
run_state_of-code RunState.started = refl
run_state_of-code RunState.finished = refl
run_state_of-code RunState.error = refl
run_state_of-code RunState.invalid = refl

run_state_of-eq-ok : (n : ℕ) (s : RunState) → run_state_of n ≡ ok s → run_state_code s ≡ n
unfolding run_state_of run_state_code
run_state_of-eq-ok zero s h = ground arith
run_state_of-eq-ok (suc zero) s h = ground arith
run_state_of-eq-ok (suc (suc zero)) s h = ground arith
run_state_of-eq-ok (suc (suc (suc zero))) s h = ground arith
run_state_of-eq-ok (suc (suc (suc (suc zero)))) s h = ground arith
run_state_of-eq-ok (suc (suc (suc (suc (suc n))))) s h = cc

-- A number is read as a state exactly where the state is written as that number; so a state that is
-- written is read back, and no two numbers are one state.
pub run_state_of_iff : (n : ℕ) (s : RunState) → (run_state_of n ≡ ok s) ↔ (run_state_code s ≡ n)
run_state_of_iff n s =
    (run_state_of-eq-ok n s, λ e. subst (λ m. run_state_of m ≡ ok s) e (run_state_of-code s))

pub name_state_of-code : (s : NameState) → name_state_of (name_state_code s) ≡ ok s
unfolding name_state_of name_state_code
name_state_of-code NameState.fresh = refl
name_state_of-code NameState.stale = refl
name_state_of-code NameState.short_sha = refl
