-- ===== src/Runner/LuaArgs/Words.antt =====
-- Which commands `collect_build_args` of ci-runner/src/lua/mod.rs takes.
use build_o_tron.Base.{
  ℕ, ◌+◌, String, ◌≡◌, ◌↔◌, refl, ap, sym, subst, List, [], ◌∷◌, Outcome, ok, err, panic,
}
use build_o_tron.Native.Notifier.{and_then}
use build_o_tron.Runner.LuaArgs.{LuaItems, end, item, string, nil, table, other, words}

-- The sequence of strings.
abbrev pub strings : List String → LuaItems
strings [] = end
strings (s ∷ ss) = item (string s) (strings ss)

words-strings : (i : ℕ) (ss : List String) → words i (strings ss) ≡ ok ss
unfolding words
words-strings i [] = refl
words-strings i (s ∷ ss) = rw (words-strings (i + 1) ss) refl

and_then-ok :
    (r : Outcome (List String)) (s : String) (ss : List String)
    → and_then r (λ ws. ok (s ∷ ws)) ≡ ok ss
    → (ws : List String) × (r ≡ ok ws) × (ss ≡ s ∷ ws)
and_then-ok (ok ws) s ss h = (ws, refl, cc h)
and_then-ok (err e) s ss h = cc
and_then-ok (panic e) s ss h = cc

words-ok :
    (i : ℕ) (items : LuaItems) (ss : List String) → words i items ≡ ok ss → items ≡ strings ss
unfolding words
words-ok i end ss h = let e : [] ≡ ss = cc h in ap strings e
words-ok i (item (string s) rest) ss h =
    let (ws, e, q) = and_then-ok (words (i + 1) rest) s ss h in
    rw q (ap (item (string s)) (words-ok (i + 1) rest ws e))
words-ok i (item nil rest) ss h = cc
words-ok i (item (table _ _) rest) ss h = cc
words-ok i (item other rest) ss h = cc

-- A Lua table is taken for a command exactly where its items are strings, and the command's words
-- are these strings, from whatever index the items are counted.
pub words_iff :
    (i : ℕ) (items : LuaItems) (ss : List String) → (words i items ≡ ok ss) ↔ (items ≡ strings ss)
words_iff i items ss =
    (words-ok i items ss, λ e. subst (λ t. words i t ≡ ok ss) (sym e) (words-strings i ss))
