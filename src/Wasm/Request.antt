-- ===== src/Wasm/Request.antt =====
-- `main` and `handle_req` of ci-wasm-frontend/src/main.rs: which file system a request is served from,
-- and which page it gets. The headers that hold times, versions and the host's name are left out.
use build_o_tron.Base.{
  ℕ, String, Option, none, some, List, Outcome, ok, err, panic, Action, ◌=?◌, if◌then◌else◌,
  ends_with,
}
use build_o_tron.Core.Db.{Db}
use build_o_tron.Core.DbCtx.Lock.{DbCtx, new}
use build_o_tron.Web.Index.{build_repo_index}
use build_o_tron.Wasm.Pread.{Bytes}
use build_o_tron.Wasm.Vfs.{
  DatabaseHandle, Host, OpenKind, open_in_mem, open_fd, in_mem_handle, fd_handle,
}

pub data VfsKind : Type 0 where
  fd inmem : VfsKind

-- The file system that is registered for a query string.
unfoldable pub vfs_for : Option String → VfsKind
vfs_for none = VfsKind.inmem
vfs_for (some qs) = if ends_with "vfs=fd" qs then VfsKind.fd else VfsKind.inmem

pub record Served : Type 0 where
  pub body : String
  pub vfs : VfsKind

-- An open file as SQLite sees it: its size, and its ranges by length and offset, each read by the
-- handle.
pub record File : Type 0 where
  pub size : Outcome ℕ
  pub range : ℕ → ℕ → Outcome Bytes

abbrev file_of : {H : Type 0} → DatabaseHandle H → Outcome H → Outcome File
file_of d (ok h) =
    ok (record { size = (d.size h).0; range = λ len offset. (d.read len offset h).0 })
file_of d (err e) = err e
file_of d (panic e) = panic e

-- The file that is opened for `state.db`. `choices` is what the host will make of each `pread` in
-- the reading of a range.
abbrev pub opened : Host → (ℕ → ℕ → List (Option ℕ)) → VfsKind → Outcome File
opened host choices VfsKind.inmem =
    file_of in_mem_handle (open_in_mem host "state.db" OpenKind.main_db)
opened host choices VfsKind.fd =
    file_of (fd_handle choices) (open_fd host "state.db" OpenKind.main_db)

-- `date` and `now` are the clock and chrono's format, which the index page uses; `sqlite` is what
-- SQLite makes of a file by reading ranges of it, of which one that panics ends the request.
module _ (date : ℕ → String) (now : ℕ) where
  -- `handle_req`
  unfoldable pub handle_req : String → Action DbCtx String
  unfolding build_repo_index
  handle_req path ctx = if path =? "/" then build_repo_index date now ctx else (ok "a", ctx)

  abbrev pub connected : (File → Outcome Db) → Outcome File → Outcome Db
  connected sqlite (ok file) = sqlite file
  connected sqlite (err e) = err e
  connected sqlite (panic e) = panic e

  -- `handle_req(db, &r).unwrap()`
  abbrev pub answered : VfsKind → Outcome String → Outcome Served
  answered kind (ok body) = ok (record { body = body; vfs = kind })
  answered kind (err e) = panic e
  answered kind (panic e) = panic e

  -- From the connection on, whose error panics.
  abbrev pub respond : VfsKind → String → Outcome Db → Outcome Served
  respond kind path (ok db) = answered kind (handle_req path (new db)).0
  respond kind path (err e) = panic "explicit panic"
  respond kind path (panic e) = panic e

  -- `main`
  unfoldable pub main :
      Host
      → (ℕ → ℕ → List (Option ℕ))
      → (File → Outcome Db)
      → Option String
      → String
      → Outcome Served
  unfolding vfs_for handle_req open_in_mem open_fd in_mem_handle fd_handle
  main host choices sqlite qs path =
      respond (vfs_for qs) path (connected sqlite (opened host choices (vfs_for qs)))
