-- ===== src/Base/Order.antt =====
-- What `where`, `order by … desc` and `limit` make of a list of rows.
use Prim.Native.Nat.{ℕ, zero, suc, ◌≤◌}
use mathlib.Core.Path.{◌≡◌, refl, ◌∙◌}
use mathlib.Core.Bool.{Bool, true, false}
use mathlib.Core.Logic.{inl, inr}
use mathlib.Core.Option.{Option, none, some}
use mathlib.Core.List.{List, [], ◌∷◌}
use native.Mathlib.Omega.{arith}
use build_o_tron.Base.Tests.{Bool-cases}
use build_o_tron.Base.Lists.{length, take, any, not_below, insert_desc, order_desc}

module _ {ℓ} {A : Type ℓ} where
  pub any-insert_desc :
      (p : A → Bool) (key : A → Option ℕ) (x : A) (ys : List A)
      → any p (insert_desc key x ys) ≡ any p (x ∷ ys)
  any-insert_desc p key x [] = refl
  any-insert_desc p key x (y ∷ ys) = elim (Bool-cases (not_below (key x) (key y))) [
    | inl e ↦ rw e refl
    | inr e ↦ rw e (ground (arith, any-insert_desc p key x ys))
  ]

  pub any-order_desc :
      (p : A → Bool) (key : A → Option ℕ) (xs : List A) → any p (order_desc key xs) ≡ any p xs
  any-order_desc p key [] = refl
  any-order_desc p key (x ∷ xs) =
      any-insert_desc p key x (order_desc key xs) ∙ ground (arith, any-order_desc p key xs)

  pub length-insert_desc :
      (key : A → Option ℕ) (x : A) (ys : List A) → length (insert_desc key x ys) ≡ suc (length ys)
  length-insert_desc key x [] = refl
  length-insert_desc key x (y ∷ ys) = elim (Bool-cases (not_below (key x) (key y))) [
    | inl e ↦ rw e refl
    | inr e ↦ rw e (ground (arith, length-insert_desc key x ys))
  ]

  pub length-take_le : (n : ℕ) (xs : List A) → length (take n xs) ≤ n
  length-take_le zero xs = omega arith
  length-take_le (suc n) [] = omega arith
  length-take_le (suc n) (x ∷ xs) = omega (arith, length-take_le n xs)

  -- A list whose keys do not grow.
  abbrev pub IsDescending : (A → Option ℕ) → List A → Type 0
  IsDescending key [] = Unit
  IsDescending key (x ∷ []) = Unit
  IsDescending key (x ∷ y ∷ ys) = (not_below (key x) (key y) ≡ true) × IsDescending key (y ∷ ys)

not_below-flip : (a b : Option ℕ) → not_below a b ≡ false → not_below b a ≡ true
not_below-flip none none h = cc
not_below-flip none (some b) h = refl
not_below-flip (some a) none h = cc
not_below-flip (some a) (some b) h = ground arith

module _ {ℓ} {A : Type ℓ} (key : A → Option ℕ) where
  head-insert :
      (z x : A) (ys : List A)
      → not_below (key z) (key x) ≡ true
      → IsDescending key (z ∷ ys)
      → IsDescending key (insert_desc key x ys)
      → IsDescending key (z ∷ insert_desc key x ys)
  head-insert z x [] h d k = (h, k)
  head-insert z x (y ∷ ys) h d k = elim (Bool-cases (not_below (key x) (key y))) [
    | inl e ↦ rw e (h, rw e at k)
    | inr e ↦ rw e (d.0, rw e at k)
  ]

  insert_desc-IsDescending :
      (x : A) (ys : List A) → IsDescending key ys → IsDescending key (insert_desc key x ys)
  insert_desc-IsDescending x [] d = tt
  insert_desc-IsDescending x (y ∷ []) d = elim (Bool-cases (not_below (key x) (key y))) [
    | inl e ↦ rw e (e, tt)
    | inr e ↦ rw e (not_below-flip (key x) (key y) e, tt)
  ]
  insert_desc-IsDescending x (y ∷ z ∷ ys) d = elim (Bool-cases (not_below (key x) (key y))) [
    | inl e ↦ rw e (e, d)
    | inr e ↦ rw e (
        head-insert y x (z ∷ ys) (not_below-flip (key x) (key y) e) d
          (insert_desc-IsDescending x (z ∷ ys) d.1))
  ]

  pub order_desc-IsDescending : (xs : List A) → IsDescending key (order_desc key xs)
  order_desc-IsDescending [] = tt
  order_desc-IsDescending (x ∷ xs) =
      insert_desc-IsDescending x (order_desc key xs) (order_desc-IsDescending xs)

  pub take-IsDescending : (n : ℕ) (xs : List A) → IsDescending key xs → IsDescending key (take n xs)
  take-IsDescending zero xs d = tt
  take-IsDescending (suc n) [] d = tt
  take-IsDescending (suc zero) (x ∷ xs) d = tt
  take-IsDescending (suc (suc n)) (x ∷ []) d = tt
  take-IsDescending (suc (suc n)) (x ∷ y ∷ ys) d = (d.0, take-IsDescending (suc n) (y ∷ ys) d.1)
