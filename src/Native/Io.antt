-- ===== src/Native/Io.antt =====
-- ci-lib-native/src/io.rs: where the bytes of logs and artifacts go.
pub mod Copied
use Prim.Native.String.{◌++◌ as append}
use build_o_tron.Base.{
  ℕ, String, Bool, true, false, Option, none, some, List, [], ◌∷◌, ◌++◌, Outcome, ok, err, panic,
  Action, ◌>>=◌, ◌>>◌, pure, fail, length, decimal,
}

-- Bytes, as numbers below 256.
abbrev pub Bytes : Type 0
Bytes = List ℕ

-- What `AsyncWrite::poll_write` answers: how many bytes it took, or that it is to be asked again.
pub data Poll : Type 0 where
  ready : ℕ → Poll
  pending : Poll

-- `VecSink`: all that was written and not yet taken.
pub record VecSink : Type 0 where
  pub body : Bytes

unfoldable pub new : VecSink
new = record { body = [] }

unfoldable pub take_buf : VecSink → Bytes × VecSink
take_buf s = (s.body, record { body = [] })

unfoldable pub poll_write : Bytes → VecSink → Poll × VecSink
poll_write buf s = (ready (length buf), record { body = s.body ++ buf })

-- `ArtifactStream`, over hyper's channel: whether it takes a chunk, for each `try_send_data` to come
-- (past the list's end it does not), and the chunks that were sent.
pub record ArtifactStream : Type 0 where
  pub room : List Bool
  pub sent : List Bytes

abbrev try_send : Bytes → ArtifactStream → List Bool → Poll × ArtifactStream
try_send buf s [] = (pending, s)
try_send buf s (true ∷ later) =
    (ready (length buf), record { room = later; sent = s.sent ++ (buf ∷ []) })
try_send buf s (false ∷ later) = (pending, record s { room = later })

-- `poll_write` of `ArtifactStream`: a channel that is full, or closed, is asked again.
unfoldable pub poll_send : Bytes → ArtifactStream → Poll × ArtifactStream
poll_send buf s = try_send buf s s.room

pub record ArtifactDescriptor (F : Type 0) : Type 0 where
  pub job_id : ℕ
  pub artifact_id : ℕ
  pub file : F

unfoldable pub artifact_path : ℕ → ℕ → String
artifact_path job_id artifact_id =
    append (append (append "artifacts/" (decimal job_id)) "/") (decimal artifact_id)

abbrev described : {F : Type 0} → ℕ → ℕ → String → Outcome F → Outcome (ArtifactDescriptor F)
described job_id artifact_id path (ok file) =
    ok (record { job_id = job_id; artifact_id = artifact_id; file = file })
described job_id artifact_id path (err e) =
    err (append (append (append "couldn't open artifact file " path) ": ") e)
described job_id artifact_id path (panic e) = panic e

-- `ArtifactDescriptor::new`, with the `open` of a new file.
unfoldable pub open_descriptor :
    {F : Type 0} → (String → Outcome F) → ℕ → ℕ → Outcome (ArtifactDescriptor F)
unfolding artifact_path
open_descriptor create_new job_id artifact_id =
    described job_id artifact_id (artifact_path job_id artifact_id)
      (create_new (artifact_path job_id artifact_id))

-- One turn of a source: bytes, or an error. After the list's end there is nothing more.
pub data Chunk : Type 0 where
  bytes : Bytes → Chunk
  broken : String → Chunk

abbrev prefixed : {A : Type 0} → String → Outcome A → Outcome A
prefixed why (ok a) = ok a
prefixed why (err e) = err (append why e)
prefixed why (panic e) = panic e

-- `map_err(|e| format!(…))`
abbrev pub or_say : {S A : Type 0} → String → Action S A → Action S A
or_say why m s = let (r, s') = m s in (prefixed why r, s')

-- `write_all` of a destination, which polls it until all of a chunk is taken, is a parameter.
module _ {S : Type 0} (write_all : Bytes → Action S (Unit {0})) where
  -- `store_all`, over the chunks of a request's body.
  unfoldable pub store_all : List Chunk → Action S (Unit {0})
  store_all [] = pure tt
  store_all (broken e ∷ later) = fail (append "error reading: " e)
  store_all (bytes b ∷ later) =
      let rest = store_all later in do or_say "failed to write: " (write_all b); rest

  -- `forward_data`, over what each read into its buffer of a mebibyte gives: a read of no bytes is
  -- the end of the source.
  unfoldable pub forward_data : List Chunk → Action S (Unit {0})
  forward_data [] = pure tt
  forward_data (broken e ∷ later) = fail (append "failed to read: " e)
  forward_data (bytes [] ∷ later) = pure tt
  forward_data (bytes (b ∷ bs) ∷ later) =
      let rest = forward_data later in do or_say "failed to write: " (write_all (b ∷ bs)); rest
