-- ===== src/Base/Inversion.antt =====
-- From an action that ended well to the steps that it took.
use mathlib.Core.Path.{◌≡◌, refl, ◌∙◌}
use mathlib.Core.Logic.{◌⊎◌, inl, inr}
use Prim.Native.String.{String}
use build_o_tron.Base.Effects.{Outcome, ok, err, panic, Action, continue, ◌>>=◌}

module _ {ℓ} {S A B : Type ℓ} where
  continue-ok :
      (r : Outcome A) (f : A → Action S B) (s : S) (b : B)
      → (continue r f s).0 ≡ ok b
      → (a : A) × (r ≡ ok a) × ((f a s).0 ≡ ok b)
  continue-ok (ok a) f s b h = (a, refl, h)
  continue-ok (err e) f s b h = cc
  continue-ok (panic e) f s b h = cc

  pub bind-ok :
      (m : Action S A) (f : A → Action S B) (s : S) (b : B)
      → ((m >>= f) s).0 ≡ ok b
      → (a : A) × ((m s).0 ≡ ok a) × ((f a (m s).1).0 ≡ ok b)
  bind-ok m f s b h = continue-ok (m s).0 f (m s).1 b h

-- What each step of an action keeps, the action keeps, however it ends.
module _ {ℓ κ} {S A B : Type ℓ} {C : Type κ} (kept : S → C) where
  continue-keeps :
      (r : Outcome A) (f : A → Action S B) (s : S)
      → ((a : A) → kept (f a s).1 ≡ kept s)
      → kept (continue r f s).1 ≡ kept s
  continue-keeps (ok a) f s k = k a
  continue-keeps (err e) f s k = refl
  continue-keeps (panic e) f s k = refl

  pub bind-keeps :
      (m : Action S A) (f : A → Action S B) (s : S)
      → kept (m s).1 ≡ kept s
      → ((a : A) (t : S) → kept (f a t).1 ≡ kept t)
      → kept ((m >>= f) s).1 ≡ kept s
  bind-keeps m f s e k = continue-keeps (m s).0 f (m s).1 (λ a. k a (m s).1) ∙ e

pub Outcome-cases {ℓ} :
    {A : Type ℓ} (r : Outcome A)
    → ((a : A) × (r ≡ ok a)) ⊎ (((e : String) × (r ≡ err e)) ⊎ ((e : String) × (r ≡ panic e)))
Outcome-cases (ok a) = inl (a, refl)
Outcome-cases (err e) = inr (inl (e, refl))
Outcome-cases (panic e) = inr (inr (e, refl))
