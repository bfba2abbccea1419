-- ===== src/Base/Effects.antt =====
-- How a Rust call ends: with a value, with `Err` of a message, or by a panic of its task.
-- `Action S` is a method on a shared state: what it wrote before an error or a panic stays written.
use Prim.Native.Nat.{ℕ, ◌-◌}
use Prim.Native.String.{String}
use mathlib.Core.Option.{Option, none, some}
use build_o_tron.Base.Tests.{ltb, if◌then◌else◌}

pub data Outcome {ℓ} (A : Type ℓ) : Type ℓ where
  ok : A → Outcome A
  err : String → Outcome A
  panic : String → Outcome A

abbrev pub Action {ℓ} : Type ℓ → Type ℓ → Type ℓ
Action S A = S → Outcome A × S

-- `.expect(msg)` and `.unwrap()` on a `Result`.
abbrev pub expected {ℓ} : {A : Type ℓ} → String → Outcome A → Outcome A
expected msg (ok a) = ok a
expected msg (err e) = panic msg
expected msg (panic e) = panic e

module _ {ℓ} {S A : Type ℓ} where
  abbrev pub pure : A → Action S A
  pure a s = (ok a, s)

  abbrev pub fail : String → Action S A
  fail e s = (err e, s)

  abbrev pub abort : String → Action S A
  abort e s = (panic e, s)

  abbrev pub expect : String → Action S A → Action S A
  expect msg m s = let (r, s') = m s in (expected msg r, s')

  -- `.expect(msg)` on an `Option`.
  abbrev pub expect_some : String → Option A → Action S A
  expect_some msg none = abort msg
  expect_some msg (some a) = pure a

  abbrev pub gets : (S → A) → Action S A
  gets f s = (ok (f s), s)

module _ {ℓ} {S A B : Type ℓ} where
  infixl 10 ◌>>=◌ ◌>>◌
  abbrev pub continue : Outcome A → (A → Action S B) → Action S B
  continue (ok a) f s = f a s
  continue (err e) f s = (err e, s)
  continue (panic e) f s = (panic e, s)

  abbrev pub ◌>>=◌ : Action S A → (A → Action S B) → Action S B
  ◌>>=◌ m f s = let (r, s') = m s in continue r f s'

  abbrev pub ◌>>◌ : Action S A → Action S B → Action S B
  m >> k = m >>= λ _. k

-- `a - b` on `u64`, with the overflow checks of a debug build (the one that `goodfile` runs).
abbrev pub sub_u64 : ℕ → ℕ → Outcome ℕ
sub_u64 a b = if ltb a b then panic "attempt to subtract with overflow" else ok (a - b)
