-- ===== src/Wasm/Vfs.antt =====
-- `InMemVfs` and `FdVfs` of ci-wasm-frontend/src/main.rs, with their file handles: what SQLite may do
-- to the database of the edge service.
use Prim.Native.String.{◌++◌ as append}
use build_o_tron.Base.{
  ℕ, String, Bool, true, false, Option, none, some, List, Outcome, ok, err, panic, Action, pure,
  fail, length, if◌then◌else◌,
}
use build_o_tron.Wasm.Pread.{Bytes, read_in_memory, read_exact_at}

-- `sqlite_vfs::LockKind`
pub data LockKind : Type 0 where
  no_lock shared reserved_lock pending_lock exclusive : LockKind

-- `sqlite_vfs::DatabaseHandle`: the operations on an open file, whose state is `H`. A read is given
-- the length of its buffer and an offset; a write its bytes and an offset.
pub record DatabaseHandle (H : Type 0) : Type 0 where
  pub size : Action H ℕ
  pub read : ℕ → ℕ → Action H Bytes
  pub write_all_at : Bytes → ℕ → Action H (Unit {0})
  pub sync : Bool → Action H (Unit {0})
  pub set_len : ℕ → Action H (Unit {0})
  pub lock : LockKind → Action H Bool
  pub reserved : Action H Bool
  pub current_lock : Action H LockKind
  pub set_chunk_size : ℕ → Action H (Unit {0})

-- `InMemVfsHandle`: the whole file.
pub record InMemHandle : Type 0 where
  pub bytes : Bytes

-- `impl DatabaseHandle for InMemVfsHandle`
unfoldable pub in_mem_handle : DatabaseHandle InMemHandle
unfolding read_in_memory
in_mem_handle = record {
  size = λ h. (ok (length h.bytes), h);
  read = λ len offset h. (read_in_memory h.bytes offset len, h);
  write_all_at = λ buf offset. fail "no can do";
  sync = λ data_only. pure tt;
  set_len = λ size. fail "no can do";
  lock = λ kind. pure true;
  reserved = pure false;
  current_lock = pure LockKind.no_lock;
  set_chunk_size = λ chunk_size. fail "no can do";
}

-- `FdVfsHandle`: a descriptor, and the file that the host holds behind it. `choices` is what the host
-- will make of each `pread` in one call of `read_exact_at` (`Wasm.Pread`).
pub record FdHandle : Type 0 where
  pub fd : ℕ
  pub held : Bytes

-- `impl DatabaseHandle for FdVfsHandle`
unfoldable pub fd_handle : (ℕ → ℕ → List (Option ℕ)) → DatabaseHandle FdHandle
unfolding read_exact_at
fd_handle choices = record {
  size = λ h. (ok (length h.held), h);
  read = λ len offset h. (read_exact_at h.held (choices len offset) len offset, h);
  write_all_at = λ buf offset. fail "no can do";
  sync = λ data_only. pure tt;
  set_len = λ size. fail "no can do";
  lock = λ kind. pure true;
  reserved = pure false;
  current_lock = pure LockKind.no_lock;
  set_chunk_size = λ chunk_size. fail "no can do";
}

-- `sqlite_vfs::OpenKind`
pub data OpenKind : Type 0 where
  main_db main_journal temp_db temp_journal transient_db sub_journal super_journal wal : OpenKind

abbrev is_main_db : OpenKind → Bool
is_main_db OpenKind.main_db = true
is_main_db _ = false

-- The host: whether the store "ci-state" opens and exists, the values of its keys, and descriptors
-- for them, or a status that is not OK.
pub record Host : Type 0 where
  pub open_store : Outcome (Option (Unit {0}))
  pub lookup_bytes : String → Outcome (Option Bytes)
  pub lookup_as_fd : String → Outcome (ℕ × Bytes)

abbrev expect_there : {A : Type 0} → String → String → Outcome (Option A) → Outcome A
expect_there broken missing (ok (some a)) = ok a
expect_there broken missing (ok none) = panic missing
expect_there broken missing (err e) = panic broken
expect_there broken missing (panic e) = panic e

abbrev then_do : {A B : Type 0} → Outcome A → (A → Outcome B) → Outcome B
then_do (ok a) f = f a
then_do (err e) f = err e
then_do (panic e) f = panic e

-- `InMemVfs::open`: anything but the database itself is refused.
unfoldable pub open_in_mem : Host → String → OpenKind → Outcome InMemHandle
open_in_mem host db kind =
    if is_main_db kind
    then (then_do (expect_there "can open ci-state" "ci-state exists" host.open_store) λ _.
        then_do (expect_there "lookup_works" "bytes exist" (host.lookup_bytes db))
          λ bytes. ok (record { bytes = bytes }))
    else err "no"

abbrev found_store : Outcome (Option (Unit {0})) → Outcome (Unit {0})
found_store (ok (some u)) = ok tt
found_store (ok none) = err "ci-state is not an existing store"
found_store (err e) = err (append "could not open store ci-state: " e)
found_store (panic e) = panic e

abbrev good_status : Outcome (ℕ × Bytes) → Outcome (ℕ × Bytes)
good_status (ok r) = ok r
good_status (err e) = err (append "bad fastly status: " e)
good_status (panic e) = panic e

-- `lookup_fd`
unfoldable pub lookup_fd : Host → String → Outcome (ℕ × Bytes)
lookup_fd host key = then_do (found_store host.open_store) λ _. good_status (host.lookup_as_fd key)

-- `FdVfs::open`: the store is opened once more by `lookup_fd`.
unfoldable pub open_fd : Host → String → OpenKind → Outcome FdHandle
unfolding lookup_fd
open_fd host db kind =
    if is_main_db kind
    then (then_do (expect_there "can open ci-state" "ci-state exists" host.open_store)
        λ _. then_do (lookup_fd host db) λ found. ok (record { fd = found.0; held = found.1 }))
    else err "no"

-- `delete`, `exists` and `temporary_name`, which both file systems answer alike.
unfoldable pub delete : String → Outcome (Unit {0})
delete db = err "no can do"

unfoldable pub exists : String → Outcome Bool
exists db = ok false

unfoldable pub temporary_name : String
temporary_name = "temp name"
