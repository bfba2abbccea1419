-- ===== src/Server/Stream/Sent.antt =====
-- What a reader of a live artifact has got when its stream ends (ci-web-server/src/main.rs).
use build_o_tron.Base.{
  ◌≡◌, ◌∙◌, sym, Bool, true, false, List, [], ◌∷◌, ◌++◌, Outcome, ok, err, panic, Action,
  append_assoc, append_nil,
}
use build_o_tron.Native.Io.{Bytes}
use build_o_tron.Native.Io.Copied.{read_error, before_error, until_empty, forward_data-sent}
use build_o_tron.Server.Stream.{Round, next_turn, stream}

-- What the turns after one add: none where it finds the artifact to be complete, which an error keeps
-- it from asking.
abbrev pub from_later : Outcome (Unit {0}) → Bool → Bytes → Bytes
from_later (ok u) true later = []
from_later (ok u) false later = later
from_later (err e) completed later = later
from_later (panic e) completed later = []

-- The bytes of the turns up to the one after which the artifact is found to be complete.
abbrev pub until_complete : List Round → Bytes
until_complete [] = []
until_complete (r ∷ later) =
    before_error (until_empty r.chunks)
    ++ from_later (read_error "failed to read: " (until_empty r.chunks)) r.completed
        (until_complete later)

one_turn :
    (write_all : Bytes → Action Bytes (Unit {0})) (copied : Outcome (Unit {0})) (completed : Bool)
    (later : List Round) (t rest : Bytes)
    → (stream write_all false later t).1 ≡ t ++ rest
    → (next_turn write_all copied
        (stream write_all completed later)
        (stream write_all false later)
        t).1
      ≡ t ++ from_later copied completed rest
unfolding stream
one_turn write_all (ok u) true later t rest h = sym (append_nil t)
one_turn write_all (ok u) false later t rest h = h
one_turn write_all (err e) completed later t rest h = h
one_turn write_all (panic e) completed later t rest h = sym (append_nil t)

-- A reader that takes everything gets what the turns read of the file up to the one after which the
-- artifact is found to be complete. Nothing is read after that, so what is written between the last
-- read and the completion is not sent.
pub stream-sent :
    (write_all : Bytes → Action Bytes (Unit {0})) (rounds : List Round) (s : Bytes)
    → ((b s : Bytes) → write_all b s ≡ (ok tt, s ++ b))
    → (stream write_all false rounds s).1 ≡ s ++ until_complete rounds
unfolding stream
stream-sent write_all [] s w = sym (append_nil s)
stream-sent write_all (r ∷ later) s w =
    let own = before_error (until_empty r.chunks) in
    let copied = read_error "failed to read: " (until_empty r.chunks) in
    rw (forward_data-sent write_all r.chunks s w) (
      one_turn write_all copied r.completed later (s ++ own) (until_complete later)
        (stream-sent write_all later (s ++ own) w)
      ∙ append_assoc s own (from_later copied r.completed (until_complete later)))
