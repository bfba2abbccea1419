-- ===== src/Base/Lists.antt =====
-- Lists measured and walked by native numbers and Boolean tests. `select`, `first?` and
-- `order_desc` are SQL's `where`, the one row of `query_row`, and `order by … desc`.
use Prim.Native.Nat.{ℕ, zero, suc}
use mathlib.Core.Bool.{Bool, true, false}
use mathlib.Core.Option.{Option, none, some}
use mathlib.Core.Path.{◌≡◌, refl, ap}
use mathlib.Core.List.{List, [], ◌∷◌, ◌++◌}
use build_o_tron.Base.Tests.{leb, if◌then◌else◌}

-- NULL sorts below every number, so it comes last in a descending order.
abbrev pub not_below : Option ℕ → Option ℕ → Bool
not_below (some a) (some b) = leb b a
not_below (some a) none = true
not_below none (some b) = false
not_below none none = true

module _ {ℓ} {A : Type ℓ} where
  abbrev pub length : List A → ℕ
  length [] = 0
  length (x ∷ xs) = suc (length xs)

  abbrev pub take : ℕ → List A → List A
  take zero xs = []
  take (suc n) [] = []
  take (suc n) (x ∷ xs) = x ∷ take n xs

  abbrev pub get_elem? : List A → ℕ → Option A
  get_elem? [] i = none
  get_elem? (x ∷ xs) zero = some x
  get_elem? (x ∷ xs) (suc i) = get_elem? xs i

  abbrev pub last? : List A → Option A
  last? [] = none
  last? (x ∷ []) = some x
  last? (x ∷ y ∷ xs) = last? (y ∷ xs)

  -- The rows for which a `where` clause holds, in their order.
  abbrev pub select : (A → Bool) → List A → List A
  select p [] = []
  select p (x ∷ xs) = let rest = select p xs in if p x then x ∷ rest else rest

  -- The first row for which the test holds.
  abbrev pub first? : (A → Bool) → List A → Option A
  first? p [] = none
  first? p (x ∷ xs) = if p x then some x else first? p xs

  -- An update of the rows for which the test holds.
  abbrev pub update : (A → Bool) → (A → A) → List A → List A
  update p f [] = []
  update p f (x ∷ xs) = (if p x then f x else x) ∷ update p f xs

  abbrev pub any : (A → Bool) → List A → Bool
  any p [] = false
  any p (x ∷ xs) = if p x then true else any p xs

  abbrev pub insert_desc : (A → Option ℕ) → A → List A → List A
  insert_desc key x [] = x ∷ []
  insert_desc key x (y ∷ ys) =
      let rest = insert_desc key x ys in if not_below (key x) (key y) then x ∷ y ∷ ys else y ∷ rest

  -- `order by key desc`; rows of equal keys keep their order.
  abbrev pub order_desc : (A → Option ℕ) → List A → List A
  order_desc key [] = []
  order_desc key (x ∷ xs) = insert_desc key x (order_desc key xs)

  abbrev pub insert_asc : (A → ℕ) → A → List A → List A
  insert_asc key x [] = x ∷ []
  insert_asc key x (y ∷ ys) =
      let rest = insert_asc key x ys in if leb (key x) (key y) then x ∷ y ∷ ys else y ∷ rest

  -- `sort_by_key`, which is stable.
  abbrev pub sort_by_key : (A → ℕ) → List A → List A
  sort_by_key key [] = []
  sort_by_key key (x ∷ xs) = insert_asc key x (sort_by_key key xs)

module _ {ℓ κ} {A : Type ℓ} (P : A → Type κ) where
  abbrev pub All : List A → Type κ
  All [] = Unit
  All (x ∷ xs) = P x × All xs

module _ {ℓ} {A : Type ℓ} where
  pub append_nil : (xs : List A) → xs ++ [] ≡ xs
  append_nil [] = refl
  append_nil (x ∷ xs) = ap (λ ys. x ∷ ys) (append_nil xs)

  pub append_assoc : (xs ys zs : List A) → (xs ++ ys) ++ zs ≡ xs ++ (ys ++ zs)
  append_assoc [] ys zs = refl
  append_assoc (x ∷ xs) ys zs = ap (λ l. x ∷ l) (append_assoc xs ys zs)
