-- ===== src/Core/DbCtx/Hosts/Identity.antt =====
-- When `id_for_host` finds an id, and which (ci-lib-core/src/dbctx.rs).
use text.Mathlib.TextPositions.{eq_refl}
use build_o_tron.Base.{
  ℕ, suc, ◌≡◌, refl, ◌↔◌, ap, true, false, none, some, List, [], ◌∷◌, ◌++◌, ok, err, any, first?,
  ==_refl, Bool-cases, inl, inr, arith,
}
use build_o_tron.Core.Protocol.{HostInfo}
use build_o_tron.Core.Db.{Db, HostRow}
use build_o_tron.Core.DbCtx.Hosts.{same_unique, same_host, host_row, find_or_add_host}

same_unique-host_row : (h : HostInfo) (i : ℕ) → same_unique h (host_row h i) ≡ true
unfolding same_unique host_row
same_unique-host_row h i = simp (eq_refl, ==_refl)

same_host-host_row : (h : HostInfo) (i : ℕ) → same_host h (host_row h i) ≡ true
unfolding host_row
same_host-host_row h i = rw (same_unique-host_row h i) (==_refl h.cpu_info.max_freq)

-- Only a row of the same unique columns can be the same host.
same_host_unique :
    (h : HostInfo) (rows : List HostRow)
    → any (same_unique h) rows ≡ false
    → any (same_host h) rows ≡ false
same_host_unique h [] e = refl
same_host_unique h (r ∷ rows) e = ground (arith, same_host_unique h rows)

first?-any-none :
    (h : HostInfo) (rows : List HostRow)
    → any (same_host h) rows ≡ false
    → first? (same_host h) rows ≡ none
first?-any-none h [] e = refl
first?-any-none h (r ∷ rows) e = ground (arith, first?-any-none h rows)

first?-any-some :
    (h : HostInfo) (rows : List HostRow)
    → any (same_host h) rows ≡ true
    → (r : HostRow) × (first? (same_host h) rows ≡ some r) × (same_host h r ≡ true)
first?-any-some h [] e = cc
first?-any-some h (r ∷ rows) e = elim (Bool-cases (same_host h r)) [
  | inl y ↦ (r, rw y, y)
  | inr n ↦ let (s, p, q) = first?-any-some h rows (ground arith) in (s, rw n p, q)
]

first?-append_new :
    (h : HostInfo) (rows : List HostRow) (r : HostRow)
    → any (same_host h) rows ≡ false
    → same_host h r ≡ true
    → first? (same_host h) (rows ++ (r ∷ [])) ≡ some r
first?-append_new h [] r e k = rw k
first?-append_new h (q ∷ rows) r e k = ground (arith, first?-append_new h rows r)

module _ (h : HostInfo) (db : Db) where
  -- A host that no row has the unique columns of gets a row, and the id of that row.
  pub find_or_add_host-new :
      any (same_unique h) db.hosts.rows ≡ false → (find_or_add_host h db).0 ≡ ok (suc db.hosts.seq)
  unfolding find_or_add_host host_row
  find_or_add_host-new e = rw e (
      rw (
        first?-append_new h db.hosts.rows (host_row h (suc db.hosts.seq))
          (same_host_unique h db.hosts.rows e) (same_host-host_row h (suc db.hosts.seq))))

  -- A host whose every column a row has gets the id of such a row, and the table is left alone.
  pub find_or_add_host-known :
      any (same_host h) db.hosts.rows ≡ true
      → (r : HostRow) × (same_host h r ≡ true) × (find_or_add_host h db ≡ (ok r.id, db))
  unfolding find_or_add_host
  find_or_add_host-known e =
      let (r, p, q) = first?-any-some h db.hosts.rows e in (r, q, rw (known_unique e) (rw p))
    where
      known_unique :
          any (same_host h) db.hosts.rows ≡ true → any (same_unique h) db.hosts.rows ≡ true
      known_unique k = elim (Bool-cases (any (same_unique h) db.hosts.rows)) [
        | inl t ↦ t
        | inr f ↦ cc (same_host_unique h db.hosts.rows f)
      ]

  -- A host with the unique columns of a row, but with another frequency than each such row, is
  -- neither added nor found.
  pub find_or_add_host-lost :
      any (same_unique h) db.hosts.rows ≡ true
      → any (same_host h) db.hosts.rows ≡ false
      → find_or_add_host h db ≡ (err "Query returned no rows", db)
  unfolding find_or_add_host
  find_or_add_host-lost e f = rw e (rw (first?-any-none h db.hosts.rows f))

  -- `id_for_host` fails exactly where a row has the host's unique columns and no such row has its
  -- maximal frequency: the constraint keeps the row out, and the query that follows does not find it.
  pub find_or_add_host-fails_iff :
      ((find_or_add_host h db).0 ≡ err "Query returned no rows")
      ↔ ((any (same_unique h) db.hosts.rows ≡ true) × (any (same_host h) db.hosts.rows ≡ false))
  find_or_add_host-fails_iff = (
    λ failed. elim (Bool-cases (any (same_unique h) db.hosts.rows)) [
      | inr f ↦ cc (find_or_add_host-new f)
      | inl u ↦ elim (Bool-cases (any (same_host h) db.hosts.rows)) [
        | inl k ↦ let (r, p, q) = find_or_add_host-known k in cc (q, failed)
        | inr n ↦ (u, n)
      ]
    ],
    λ (u, n). ap (λ x. x.0) (find_or_add_host-lost u n),
  )
