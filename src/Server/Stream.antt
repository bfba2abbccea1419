-- ===== src/Server/Stream.antt =====
-- The task of `handle_get_artifact` of ci-web-server/src/main.rs that sends an artifact while it is
-- still being written.
pub mod Sent
use build_o_tron.Base.{
  ℕ, Bool, true, false, List, [], ◌∷◌, Outcome, ok, err, panic, Action, pure, abort,
}
use build_o_tron.Native.Io.{Bytes, Chunk, forward_data}

-- One turn of the loop: what the file gives from where the last turn stopped, up to its end of that
-- moment; and whether the artifact is found to be complete a quarter of a second later.
pub record Round : Type 0 where
  pub chunks : List Chunk
  pub completed : Bool

module _ {S : Type 0} (write_all : Bytes → Action S (Unit {0})) where
  -- How a turn's copy leads on: an error is printed, and the artifact is not looked up again.
  abbrev pub next_turn : Outcome (Unit {0}) → Action S Bool → Action S Bool → Action S Bool
  next_turn (ok u) looked_up again = looked_up
  next_turn (err e) looked_up again = again
  next_turn (panic e) looked_up again = abort e

  -- The `while artifact.completed_time.is_none()`, over the turns to come: whether it has ended.
  unfoldable pub stream : Bool → List Round → Action S Bool
  unfolding forward_data
  stream true rounds = pure true
  stream false [] = pure false
  stream false (r ∷ later) =
      let looked_up = stream r.completed later in
      let again = stream false later in
      λ s.
        let (copied, s') = forward_data write_all r.chunks s in next_turn copied looked_up again s'
