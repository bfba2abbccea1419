-- ===== src/Tests/Copies.antt =====
-- The theorems on ci-lib-native and on the copying of artifacts at concrete inputs.
use build_o_tron.Base.{◌≡◌, ◌⊎◌, refl, true, false, List, [], ◌∷◌, ◌++◌, ok, Action}
use build_o_tron.Native.Io.{Bytes, Chunk, bytes}
use build_o_tron.Driver.Api.{store_done}
use build_o_tron.Driver.Api.Upload.{Upload, Written, store_task, store_task_complete}
use build_o_tron.Server.Stream.{Round, stream}
use build_o_tron.Server.Stream.Sent.{stream-sent}
use build_o_tron.Tests.Data.{started_ctx}

-- A file, and a sink, that take everything.
abbrev append_to : Bytes → Action Bytes (Unit {0})
append_to b s = (ok tt, s ++ b)

abbrev two_chunks : List Chunk
two_chunks = bytes (104 ∷ 105 ∷ []) ∷ bytes (10 ∷ []) ∷ []

abbrev upload : Upload
upload = record { ctx = started_ctx; file = [] }

store_task_complete_example :
    let after = (store_task append_to two_chunks 9000 1 upload).1 in
    (after.ctx ≡ started_ctx)
    ⊎ (Written append_to two_chunks upload.file after.file
        × (after.ctx ≡ (store_done 9000 1 started_ctx).1))
store_task_complete_example = store_task_complete append_to two_chunks 9000 1 upload

abbrev two_rounds : List Round
two_rounds =
    record { chunks = bytes (104 ∷ []) ∷ []; completed = false }
    ∷ record { chunks = bytes (105 ∷ []) ∷ []; completed = true }
    ∷ record { chunks = bytes (10 ∷ []) ∷ []; completed = true }
    ∷ []

stream-sent_example : (stream append_to false two_rounds []).1 ≡ 104 ∷ 105 ∷ []
stream-sent_example = stream-sent append_to two_rounds [] (λ b s. refl)
