-- ===== src/Web/Time/Units.antt =====
-- What `duration_as_human_string` of ci-lib-web/src/lib.rs prints, by the duration's parts.
use Prim.Native.String.{◌++◌ as append}
use build_o_tron.Base.{ℕ, zero, suc, ◌+◌, ◌*◌, String, decimal, decimal3}
use build_o_tron.Web.Time.{amount}

-- The text of each combination of parts.
abbrev pub parts_text : ℕ → ℕ → ℕ → ℕ → String
parts_text zero zero s zero = append (append (decimal s) "") "s"
parts_text zero zero s (suc ms) = append (append (decimal s) (append "." (decimal3 (suc ms)))) "s"
parts_text zero (suc m) s ms = append (amount (suc m) "m") (amount s "s")
parts_text (suc h) zero s ms = append (amount (suc h) "h") ""
parts_text (suc h) (suc m) s ms = append (amount (suc h) "h") (amount (suc m) "m")

abbrev pub in_ms : ℕ → ℕ → ℕ → ℕ → ℕ
in_ms h m s ms = ((h * 60 + m) * 60 + s) * 1000 + ms
