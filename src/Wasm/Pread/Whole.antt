-- ===== src/Wasm/Pread/Whole.antt =====
-- The two ways of ci-wasm-frontend/src/main.rs to read a file, compared.
use build_o_tron.Base.{
  append_nil, ℕ, zero, suc, ◌+◌, ◌-◌, ◌≤◌, ◌≡◌, true, false, Option, some, List, [], ◌∷◌, ok,
  length, take, min, leb, ◌==◌, arith, ap,
}
use build_o_tron.Wasm.Pread.{Bytes, drop, read_in_memory, read_loop, read_exact_at}

length-drop : (n : ℕ) (xs : Bytes) → length (drop n xs) ≡ length xs - n
length-drop zero xs = omega arith
length-drop (suc n) [] = omega arith
length-drop (suc n) (x ∷ xs) = grind (arith, length-drop n xs)

length-take : (n : ℕ) (xs : Bytes) → length (take n xs) ≡ min n (length xs)
length-take zero xs = omega arith
length-take (suc n) [] = omega arith
length-take (suc n) (x ∷ xs) = grind (arith, length-take n xs)

-- A range inside the file, which the system hands over whole at the first `pread`, is read as it is
-- from a file that is held in memory.
pub read_exact_at-whole :
    (file : Bytes) (choice : ℕ) (later : List (Option ℕ)) (len offset : ℕ)
    → offset + len ≤ length file
    → len ≤ choice
    → read_exact_at file (some choice ∷ later) len offset ≡ read_in_memory file offset len
unfolding read_exact_at read_in_memory read_loop
read_exact_at-whole file choice later zero offset h k = ground arith
read_exact_at-whole file choice later (suc n) offset h k =
    let m : min choice (suc n) ≡ suc n = omega arith in
    let g : length (take (suc n) (drop offset file)) ≡ suc n =
      omega (arith, length-take (suc n) (drop offset file), length-drop offset file) in
    let z : suc n - suc n ≡ 0 = omega arith in
    let l : leb (offset + suc n) (length file) ≡ true = ground arith in
    let p : (suc n == 0) ≡ false = ground arith in
    rw m (rw g (rw z (rw p (rw l (ap ok (append_nil (take (suc n) (drop offset file))))))))
