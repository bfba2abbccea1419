-- ===== src/Core/Table/Laws.antt =====
-- What an insert and an update do to the ids of a table and to a lookup by id.
use build_o_tron.Base.{
  ℕ, suc, ◌≤◌, ◌<◌, ◌≡◌, refl, Bool, none, some, List, [], ◌∷◌, ◌++◌, All, update, ◌==◌, Bool-cases,
  inl, inr, if◌then◌else◌, arith,
}
use build_o_tron.Core.Table.Defs.{Table, insert, update_where, by_id, Ascending, IsKeyed}

module _ {ℓ κ} {A : Type ℓ} (P : A → Type κ) where
  pub All-append : (xs : List A) (x : A) → All P xs → P x → All P (xs ++ (x ∷ []))
  All-append [] x h p = (p, tt)
  All-append (y ∷ xs) x h p = (h.0, All-append xs x h.1 p)

  pub All-update :
      (p : A → Bool) (f : A → A) (xs : List A)
      → ((a : A) → P a → P (f a))
      → All P xs
      → All P (update p f xs)
  All-update p f [] k h = tt
  All-update p f (x ∷ xs) k h = elim (Bool-cases (p x)) [
    | inl e ↦ rw e (k x h.0, All-update p f xs k h.1)
    | inr e ↦ rw e (h.0, All-update p f xs k h.1)
  ]

module _ {ℓ κ μ} {A : Type ℓ} (P : A → Type κ) (Q : A → Type μ) where
  pub All-map : (xs : List A) → ((a : A) → P a → Q a) → All P xs → All Q xs
  All-map [] k h = tt
  All-map (x ∷ xs) k h = (k x h.0, All-map xs k h.1)

module _ {ℓ} {R : Type ℓ} (key : R → ℕ) where
  Ascending-append :
      (n : ℕ) (rows : List R) (r : R)
      → n < key r
      → All (λ s. key s ≤ n) rows
      → Ascending key rows
      → Ascending key (rows ++ (r ∷ []))
  Ascending-append n [] r lt b a = (tt, tt)
  Ascending-append n (s ∷ rows) r lt b a = (
    All-append (λ q. key s < key q) rows r a.0 (omega arith),
    Ascending-append n rows r lt b.1 a.1,
  )

  pub insert-IsKeyed :
      (make : ℕ → R) (t : Table R)
      → key (make (suc t.seq)) ≡ suc t.seq
      → IsKeyed key t
      → IsKeyed key (insert make t)
  insert-IsKeyed make t e h = record {
    bounded =
        All-append (λ r. key r ≤ suc t.seq) t.rows (make (suc t.seq))
          (All-map (λ r. key r ≤ t.seq) (λ r. key r ≤ suc t.seq) t.rows (λ r le. omega arith)
            h.bounded)
          (omega arith);
    ascending =
        Ascending-append t.seq t.rows (make (suc t.seq)) (omega arith) h.bounded h.ascending;
  }

  key-same :
      (p : R → Bool) (f : R → R) (r : R) → key (f r) ≡ key r → key (if p r then f r else r) ≡ key r
  key-same p f r same = elim (Bool-cases (p r)) [ inl e ↦ rw e same | inr e ↦ rw e ]

  Ascending-update :
      (p : R → Bool) (f : R → R) (rows : List R)
      → ((r : R) → key (f r) ≡ key r)
      → Ascending key rows
      → Ascending key (update p f rows)
  Ascending-update p f [] same h = tt
  Ascending-update p f (r ∷ rows) same h = (
    rw (key-same p f r (same r))
        (All-update (λ s. key r < key s) p f rows (λ s lt. rw (same s) lt) h.0),
    Ascending-update p f rows same h.1,
  )

  pub update_where-IsKeyed :
      (p : R → Bool) (f : R → R) (t : Table R)
      → ((r : R) → key (f r) ≡ key r)
      → IsKeyed key t
      → IsKeyed key (update_where p f t)
  update_where-IsKeyed p f t same h = record {
    bounded = All-update (λ r. key r ≤ t.seq) p f t.rows (λ r le. rw (same r) le) h.bounded;
    ascending = Ascending-update p f t.rows same h.ascending;
  }

  -- A row that is found stays found after an insert.
  pub by_id-append :
      (i : ℕ) (rows : List R) (r : R) {s : R}
      → by_id key i rows ≡ some s
      → by_id key i (rows ++ (r ∷ [])) ≡ some s
  by_id-append i [] r h = cc
  by_id-append i (q ∷ rows) r h = elim (Bool-cases (key q == i)) [
    | inl e ↦ rw e (rw e at h)
    | inr e ↦ rw e (by_id-append i rows r (rw e at h))
  ]

  -- The new row is found under its id, which no older row had.
  pub by_id-append_new :
      (i n : ℕ) (rows : List R) (r : R)
      → key r ≡ i
      → n < i
      → All (λ s. key s ≤ n) rows
      → by_id key i (rows ++ (r ∷ [])) ≡ some r
  by_id-append_new i n [] r e lt b = ground arith
  by_id-append_new i n (q ∷ rows) r e lt b = ground (arith, by_id-append_new i n rows r e lt b.1)

  -- The row found under an id has that id.
  pub by_id-key : (i : ℕ) (rows : List R) {s : R} → by_id key i rows ≡ some s → key s ≡ i
  by_id-key i [] h = cc
  by_id-key i (q ∷ rows) {s} h = ground (arith, by_id-key i rows {s = s})

  -- An update of the row with id `i` changes what is found under `i`, and under no other id.
  pub by_id-update :
      (i j : ℕ) (f : R → R) (rows : List R) {s : R}
      → ((r : R) → key (f r) ≡ key r)
      → by_id key j rows ≡ some s
      → by_id key j (update (λ r. key r == i) f rows) ≡ some (if j == i then f s else s)
  by_id-update i j f [] same h = cc
  by_id-update i j f (q ∷ rows) {s} same h =
      rw (key-same (λ r. key r == i) f q (same q)) (elim (Bool-cases (key q == j)) [
        | inl e ↦ let found : some q ≡ some s = rw e at h in rw e (ground arith)
        | inr e ↦ rw e (by_id-update i j f rows same (rw e at h))
      ])

  pub by_id-update-none :
      (i j : ℕ) (f : R → R) (rows : List R)
      → ((r : R) → key (f r) ≡ key r)
      → by_id key j rows ≡ none
      → by_id key j (update (λ r. key r == i) f rows) ≡ none
  by_id-update-none i j f [] same h = refl
  by_id-update-none i j f (q ∷ rows) same h =
      rw (key-same (λ r. key r == i) f q (same q))
        (ground (arith, by_id-update-none i j f rows same))
