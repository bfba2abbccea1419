-- ===== src/Native/Io/Copied.antt =====
-- What the copying loops of ci-lib-native/src/io.rs leave behind.
use Prim.Native.String.{◌++◌ as append}
use build_o_tron.Base.{
  append_nil, append_assoc, sym, String, ◌≡◌, refl, ap, ◌∙◌, List, [], ◌∷◌, ◌++◌, Outcome, ok, err,
  Action, length,
}
use build_o_tron.Native.Io.{Bytes, ready, VecSink, poll_write, Chunk, bytes, broken, forward_data}

-- The bytes of the chunks up to the first error.
abbrev pub before_error : List Chunk → Bytes
before_error [] = []
before_error (broken e ∷ later) = []
before_error (bytes b ∷ later) = b ++ before_error later

-- How a copy of the chunks ends, if its destination takes everything.
abbrev pub read_error : String → List Chunk → Outcome (Unit {0})
read_error why [] = ok tt
read_error why (broken e ∷ later) = err (append why e)
read_error why (bytes b ∷ later) = read_error why later

-- The chunks that `forward_data` sees: those before the first that is empty.
abbrev pub until_empty : List Chunk → List Chunk
until_empty [] = []
until_empty (broken e ∷ later) = broken e ∷ until_empty later
until_empty (bytes [] ∷ later) = []
until_empty (bytes (b ∷ bs) ∷ later) = bytes (b ∷ bs) ∷ until_empty later

-- Where `write_all` ends as soon as the sink has taken a whole chunk, `forward_data` leaves in a
-- `VecSink` the bytes that were read up to the first error or the end of the source, in their order,
-- and it ends well where there was no error.
forward_data-captured :
    (write_all : Bytes → Action VecSink (Unit {0})) (chunks : List Chunk) (s : VecSink)
    → ((b : Bytes) (s : VecSink)
        → (poll_write b s).0 ≡ ready (length b)
        → write_all b s ≡ (ok tt, (poll_write b s).1))
    → forward_data write_all chunks s ≡ (
      read_error "failed to read: " (until_empty chunks),
      record { body = s.body ++ before_error (until_empty chunks) },
    )
unfolding forward_data poll_write
forward_data-captured write_all [] s w =
    ap (λ x. (ok tt, record { body = x })) (sym (append_nil s.body))
forward_data-captured write_all (broken e ∷ later) s w =
    ap (λ x. (err (append "failed to read: " e), record { body = x })) (sym (append_nil s.body))
forward_data-captured write_all (bytes [] ∷ later) s w =
    ap (λ x. (ok tt, record { body = x })) (sym (append_nil s.body))
forward_data-captured write_all (bytes (b ∷ bs) ∷ later) s w = rw (w (b ∷ bs) s refl) (
    forward_data-captured write_all later (record { body = s.body ++ (b ∷ bs) }) w
    ∙ ap (λ x. (read_error "failed to read: " (until_empty later), record { body = x }))
        (append_assoc s.body (b ∷ bs) (before_error (until_empty later))))

-- The same of a destination to whose end each chunk can be written.
pub forward_data-sent :
    (write_all : Bytes → Action Bytes (Unit {0})) (chunks : List Chunk) (s : Bytes)
    → ((b s : Bytes) → write_all b s ≡ (ok tt, s ++ b))
    → forward_data write_all chunks s
      ≡ (read_error "failed to read: " (until_empty chunks), s ++ before_error (until_empty chunks))
unfolding forward_data
forward_data-sent write_all [] s w = ap (λ x. (ok tt, x)) (sym (append_nil s))
forward_data-sent write_all (broken e ∷ later) s w =
    ap (λ x. (err (append "failed to read: " e), x)) (sym (append_nil s))
forward_data-sent write_all (bytes [] ∷ later) s w = ap (λ x. (ok tt, x)) (sym (append_nil s))
forward_data-sent write_all (bytes (b ∷ bs) ∷ later) s w = rw (w (b ∷ bs) s) (
    forward_data-sent write_all later (s ++ (b ∷ bs)) w
    ∙ ap (λ x. (read_error "failed to read: " (until_empty later), x))
        (append_assoc s (b ∷ bs) (before_error (until_empty later))))
