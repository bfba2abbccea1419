-- ===== src/Driver/Api/Guards.antt =====
-- Who gets past the guards of `handle_artifact` and `handle_next_job` (ci-driver/src/main.rs).
use build_o_tron.Base.{
  ℕ, String, ◌≡◌, refl, Bool, true, false, Option, none, some, List, ok, panic, first?, Bool-cases,
  inl, inr, arith, length, suc, leb, ap, [], ◌∷◌, ◌++◌, ◌<◌, bind-ok, expect, Action,
}
use mathlib.Core.Option
use build_o_tron.Core.Sql.{TokenValidity}
use build_o_tron.Core.Db.{RunRow}
use build_o_tron.Core.DbCtx.Lock.{DbCtx}
use build_o_tron.Core.DbCtx.Runs.{validity, has_token, run_for_token}
use build_o_tron.Core.Protocol.{new_task_please}
use build_o_tron.Core.DbCtx.Hosts.{id_for_host}
use build_o_tron.Driver.Client.{RunnerClient, Chunk}
use build_o_tron.Driver.Api.{
  channel_capacity, enqueue, first_of_body, on_lobby, new_client, unparsed, not_utf8, broken,
  absent, bad_request, im_a_teapot, ArtifactRequest, CreateNew, Status, store_artifact, or_reject,
  with_valid_token, ok_200, handle_artifact, Lobby, FirstChunk, authorized, handle_next_job,
}
use build_o_tron.Base.Header.{Header, text, opaque}

-- The request names, by its token, a run whose token is valid and which has a directory.
pub record IsEntitled (checked : ℕ) (request : ArtifactRequest) (ctx : DbCtx) : Type 0 where
  pub token : String
  pub row : RunRow
  pub sent : request.task_token ≡ some (text token)
  pub found : first? (has_token token) ctx.db.runs.rows ≡ some row
  pub fresh : validity checked row.started_time row.run_timeout ≡ TokenValidity.valid
  pub dir : String
  pub has_dir : row.artifacts_path ≡ some dir

or_reject-ok :
    (h : Option Header) (k : String → Action DbCtx Status) (ctx : DbCtx)
    → (or_reject h k ctx).0 ≡ ok ok_200
    → (t : String) × (h ≡ some (text t)) × ((k t ctx).0 ≡ ok ok_200)
or_reject-ok none k ctx e = cc
or_reject-ok (some (text t)) k ctx e = (t, refl, e)
or_reject-ok (some opaque) k ctx e = cc

with_valid_token-ok :
    (run : ℕ) (path : Option String) (v : TokenValidity) (k : ℕ → Action DbCtx Status) (ctx : DbCtx)
    → (with_valid_token (some (run, path, v)) k ctx).0 ≡ ok ok_200
    → (v ≡ TokenValidity.valid) × ((dir : String) × (path ≡ some dir))
with_valid_token-ok run path TokenValidity.expired k ctx e = cc
with_valid_token-ok run path TokenValidity.invalid k ctx e = cc
with_valid_token-ok run none TokenValidity.valid k ctx e = cc
with_valid_token-ok run (some dir) TokenValidity.valid k ctx e = (refl, (dir, refl))

abbrev token_of : ℕ → RunRow → ℕ × Option String × TokenValidity
token_of checked r = (r.id, r.artifacts_path, validity checked r.started_time r.run_timeout)

found_valid-ok :
    (checked : ℕ) (found : Option RunRow) (k : ℕ → Action DbCtx Status) (ctx : DbCtx)
    → (with_valid_token (Option.map (token_of checked) found) k ctx).0 ≡ ok ok_200
    → (row : RunRow) × (found ≡ some row)
      × (validity checked row.started_time row.run_timeout ≡ TokenValidity.valid)
      × ((dir : String) × (row.artifacts_path ≡ some dir))
found_valid-ok checked none k ctx e = cc
found_valid-ok checked (some row) k ctx e =
    let (v, (dir, p)) =
      with_valid_token-ok row.id row.artifacts_path
        (validity checked row.started_time row.run_timeout) k ctx e in
    (row, refl, v, (dir, p))

-- An artifact is taken only with a token: one of a run that was started, has a directory, and whose
-- token has not expired at the clock of the test.
pub handle_artifact-IsEntitled :
    (create : CreateNew) (checked now : ℕ) (request : ArtifactRequest) (ctx : DbCtx)
    → (handle_artifact create checked now request ctx).0 ≡ ok ok_200
    → IsEntitled checked request ctx
unfolding handle_artifact run_for_token
handle_artifact-IsEntitled create checked now request ctx h =
    let (token, sent, h1) = or_reject-ok request.task_token _ ctx h in
    elim (Bool-cases ctx.poisoned) [
      | inl p ↦ let k : panic "PoisonError" ≡ ok ok_200 = rw p at h1 in cc k
      | inr p ↦
          let k : (with_valid_token
                (Option.map (token_of checked) (first? (has_token token) ctx.db.runs.rows))
                (store_artifact create now request) (record { db = ctx.db; poisoned = false })).0
              ≡ ok ok_200 =
            rw p at h1 in
          let (row, found, fresh, (dir, has_dir)) =
            found_valid-ok checked (first? (has_token token) ctx.db.runs.rows)
              (store_artifact create now request) (record { db = ctx.db; poisoned = false }) k in
          record {
            token = token;
            row = row;
            sent = sent;
            found = found;
            fresh = fresh;
            dir = dir;
            has_dir = has_dir;
          }
    ]

-- A place in the channel was free, and is taken.
abbrev Takes : Lobby → Lobby → Type 0
Takes before after =
    (length before.waiting < channel_capacity)
    × (length after.waiting ≡ suc (length before.waiting))

length-append :
    (xs : List RunnerClient) (x : RunnerClient) → length (xs ++ (x ∷ [])) ≡ suc (length xs)
length-append [] x = refl
length-append (y ∷ xs) x = ap suc (length-append xs x)

enqueue-Takes :
    (c : RunnerClient) (l : Lobby) → (enqueue c l).0 ≡ ok ok_200 → Takes l (enqueue c l).1
enqueue-Takes c l h = elim (Bool-cases l.receiver_gone) [
  | inl g ↦ let k : panic "client holder is gone?" ≡ ok ok_200 = rw g at h in cc k
  | inr s ↦ elim (Bool-cases (leb channel_capacity (length l.waiting))) [
    | inl y ↦ let k : ok im_a_teapot ≡ ok ok_200 = rw y at (rw s at h) in cc k
    | inr n ↦ (ground arith, rw s (rw n (length-append l.waiting c)))
  ]
]

first_of_body-Takes :
    (body : FirstChunk) (rx : List Chunk) (tx : List Bool) (token : String) (l : Lobby)
    → (first_of_body body rx tx token l).0 ≡ ok ok_200
    → Takes l (first_of_body body rx tx token l).1
first_of_body-Takes (FirstChunk.request (new_task_please pushers info)) rx tx token l h =
    let (id, e, k) =
      bind-ok (expect "can get a host info id" (on_lobby (id_for_host info)))
        (λ id. enqueue (new_client rx tx pushers id token)) l ok_200 h in
    let (free, grown) =
      enqueue-Takes (new_client rx tx pushers id token) (on_lobby (id_for_host info) l).1 k in
    (free, rw e grown)
first_of_body-Takes (FirstChunk.request _) rx tx token l h = cc
first_of_body-Takes unparsed rx tx token l h = cc
first_of_body-Takes not_utf8 rx tx token l h = cc
first_of_body-Takes broken rx tx token l h = cc
first_of_body-Takes absent rx tx token l h = cc

-- A runner that is let in has sent the secret that is set, as the header says it, and has taken a
-- place in the channel, of which one of the eight was free.
pub handle_next_job-admits :
    (header : Option Header) (body : FirstChunk) (rx : List Chunk) (tx : List Bool) (token : String)
    (l : Lobby)
    → (handle_next_job header body rx tx token l).0 ≡ ok ok_200
    → ((h : Header) × (header ≡ some h) × (authorized l.auth_secret h ≡ true))
      × (length l.waiting < channel_capacity)
      × (length (handle_next_job header body rx tx token l).1.waiting ≡ suc (length l.waiting))
unfolding handle_next_job
handle_next_job-admits none body rx tx token l e = cc
handle_next_job-admits (some h) body rx tx token l e =
    elim (Bool-cases (authorized l.auth_secret h)) [
      | inl y ↦
          let (free, grown) = first_of_body-Takes body rx tx token l (rw y at e) in
          ((h, refl, y), free, rw y grown)
      | inr n ↦ let k : ok bad_request ≡ ok ok_200 = rw n at e in cc k
    ]
