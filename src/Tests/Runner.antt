-- ===== src/Tests/Runner.antt =====
-- The theorems on ci-runner and ci-wasm-frontend at concrete inputs.
use build_o_tron.Base.{◌≡◌, refl, true, some, [], ◌∷◌, ok, err}
use build_o_tron.Runner.Build.{World, exited, Script}
use build_o_tron.Wasm.Pread.{read_exact_at}

abbrev all_works : World
all_works = record {
  execute = λ c. exited (some 0);
  artifact_opens = λ name. true;
  report_arrives = true;
  tmpdir = record { there = true; removed = ok tt; created = ok tt };
}

abbrev raises : Script
raises es = (err "test failed", es)

abbrev quiet : Script
quiet es = (ok tt, es)

-- A `pread` that gives one byte of two: the second one is read at the offset of the first again.
short_read : read_exact_at (10 ∷ 20 ∷ 30 ∷ []) (some 1 ∷ some 1 ∷ []) 2 1 ≡ ok (20 ∷ 20 ∷ [])
unfolding read_exact_at
short_read = refl
