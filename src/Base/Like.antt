-- ===== src/Base/Like.antt =====
-- SQLite's `text like pattern`: `%` stands for any text, `_` for any character, and letters of ASCII
-- are the same in either case. The code points of the texts are compared.
use Prim.Native.Nat.{ℕ, ◌+◌}
use Prim.Native.Char.{code}
use Prim.Native.String.{String, ◌++◌ as append}
use text.Mathlib.TextLemmas.{nil-append, cons-append}
use mathlib.Core.Bool.{Bool, true, false, ◌&&◌, ◌||◌}
use mathlib.Core.List.{List, [], ◌∷◌, ◌++◌}
use mathlib.Core.Path.{◌≡◌, refl, ap, ◌∙◌}
use build_o_tron.Base.Lists.{All}
use build_o_tron.Base.Tests.{leb, ◌==◌, if◌then◌else◌}

abbrev pub codes : String → List ℕ
codes String.[] = []
codes (String.◌∷◌ c s) = code c ∷ codes s

abbrev pub fold_case : ℕ → ℕ
fold_case c = if leb b'A' c && leb c b'Z' then c + 32 else c

abbrev pub any_suffix : (List ℕ → Bool) → List ℕ → Bool
any_suffix p [] = p []
any_suffix p (c ∷ cs) = p (c ∷ cs) || any_suffix p cs

abbrev pub one_char : ℕ → (List ℕ → Bool) → List ℕ → Bool
one_char q p [] = false
one_char q p (c ∷ cs) = (q == b'_' || fold_case q == fold_case c) && p cs

unfoldable pub matches : List ℕ → List ℕ → Bool
matches [] [] = true
matches [] (c ∷ cs) = false
matches (q ∷ qs) text =
    if q == b'%' then any_suffix (matches qs) text else one_char q (matches qs) text

-- `text like pattern`
unfoldable pub like : String → String → Bool
unfolding matches
like pattern text = matches (codes pattern) (codes text)

like_lem : like "%(stdout)%" "build (STDOUT) of x" ≡ true
unfolding like
like_lem = refl

pub codes-append : (s t : String) → codes (append s t) ≡ codes s ++ codes t
codes-append String.[] t = rw (nil-append t) refl
codes-append (String.◌∷◌ c s) t = rw (cons-append c s t) (ap (λ l. code c ∷ l) (codes-append s t))

-- A text without the two characters that `like` reads as wildcards.
abbrev pub IsPlain : List ℕ → Type 0
IsPlain qs = All (λ q. ((q == b'%') ≡ false) × ((q == b'_') ≡ false)) qs

-- The one text begins with the other, letters of either case being the same.
abbrev pub begins_with : List ℕ → List ℕ → Bool
begins_with [] text = true
begins_with (q ∷ qs) [] = false
begins_with (q ∷ qs) (c ∷ cs) = fold_case q == fold_case c && begins_with qs cs

any_end : (text : List ℕ) → any_suffix (matches []) text ≡ true
unfolding matches
any_end [] = refl
any_end (c ∷ cs) = any_end cs

matches-begins_with :
    (qs text : List ℕ) → IsPlain qs → matches (qs ++ (b'%' ∷ [])) text ≡ begins_with qs text
unfolding matches
matches-begins_with [] text h = any_end text
matches-begins_with (q ∷ qs) [] h = rw (h.0.0) refl
matches-begins_with (q ∷ qs) (c ∷ cs) h =
    rw (h.0.0) (rw (h.0.1) (rw (matches-begins_with qs cs h.1) refl))

-- `like '<prefix>%'` asks whether the text begins with the prefix, if this has no wildcard.
pub like-begins_with :
    (prefix text : String)
    → IsPlain (codes prefix)
    → like (append prefix "%") text ≡ begins_with (codes prefix) (codes text)
unfolding like
like-begins_with prefix text h =
    ap (λ qs. matches qs (codes text)) (codes-append prefix "%")
    ∙ matches-begins_with (codes prefix) (codes text) h
