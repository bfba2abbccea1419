-- ===== src/Wasm/Pread.antt =====
-- `FdVfsHandle::read_exact_at` and `InMemVfsHandle::read_exact_at` of ci-wasm-frontend/src/main.rs.
pub mod Whole
use build_o_tron.Base.{
  ℕ, zero, suc, ◌+◌, ◌-◌, Option, none, some, List, [], ◌∷◌, ◌++◌, Outcome, ok, panic, length, take,
  min, leb, ◌==◌, if◌then◌else◌,
}
use build_o_tron.Native.Notifier.{and_then}

abbrev pub Bytes : Type 0
Bytes = List ℕ

abbrev pub drop : ℕ → Bytes → Bytes
drop zero xs = xs
drop (suc n) [] = []
drop (suc n) (x ∷ xs) = drop n xs

-- `buf.copy_from_slice(&self.bytes[offset..][..buf.len()])`: both slices must be in range.
unfoldable pub read_in_memory : Bytes → ℕ → ℕ → Outcome Bytes
read_in_memory file offset len =
    if leb (offset + len) (length file)
    then ok (take len (drop offset file))
    else panic "range end index out of range"

-- One `pread` at an offset. How many bytes the system gives is its own choice, up to what is asked
-- for and to what the file holds there.
abbrev pub pread : Bytes → ℕ → ℕ → ℕ → Bytes
pread file choice len offset = take (min choice len) (drop offset file)

-- The `while total_read < to_read` of `FdVfsHandle::read_exact_at`, with the choices that the system
-- will make (`none`: a negative result). `remaining` is how much of the buffer is left to fill, and
-- the result is what it is filled with. `file_offs` is set once, before the loop.
unfoldable pub read_loop : Bytes → List (Option ℕ) → ℕ → ℕ → Outcome Bytes
read_loop file choices zero file_offs = ok []
read_loop file [] (suc n) file_offs = panic "stopped reading?"
read_loop file (none ∷ choices) (suc n) file_offs = panic "read err"
read_loop file (some choice ∷ choices) (suc n) file_offs =
    let got = pread file choice (suc n) file_offs in
    let rest = read_loop file choices (suc n - length got) file_offs in
    if length got == 0 then panic "stopped reading?" else and_then rest (λ more. ok (got ++ more))

-- `read_exact_at`
unfoldable pub read_exact_at : Bytes → List (Option ℕ) → ℕ → ℕ → Outcome Bytes
unfolding read_loop
read_exact_at file choices len offset = read_loop file choices len offset
