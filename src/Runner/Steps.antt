-- ===== src/Runner/Steps.antt =====
-- `StepTracker` of ci-runner/src/main.rs, and `Step.start`, `Step.push` and `Step.advance` of
-- ci-runner/src/lua/mod.rs.
use build_o_tron.Base.{String, ◌≡◌, refl, ap, List, [], ◌∷◌, ◌++◌}

pub record StepTracker : Type 0 where
  pub scopes : List String

unfoldable pub new : StepTracker
new = record { scopes = [] }

unfoldable pub push : String → StepTracker → StepTracker
push name t = record { scopes = t.scopes ++ (name ∷ []) }

-- `Vec::pop`, with its result dropped.
abbrev pub without_last : List String → List String
without_last [] = []
without_last (x ∷ []) = []
without_last (x ∷ y ∷ xs) = x ∷ without_last (y ∷ xs)

unfoldable pub pop : StepTracker → StepTracker
pop t = record { scopes = without_last t.scopes }

unfoldable pub clear : StepTracker → StepTracker
clear t = record { scopes = [] }

unfoldable pub full_step_path : StepTracker → List String
full_step_path t = t.scopes

unfoldable pub start : String → StepTracker → StepTracker
unfolding clear push
start name t = push name (clear t)

unfoldable pub advance : String → StepTracker → StepTracker
unfolding pop push
advance name t = push name (pop t)

without_last-append : (name : String) (xs : List String) → without_last (xs ++ (name ∷ [])) ≡ xs
without_last-append name [] = refl
without_last-append name (x ∷ []) = refl
without_last-append name (x ∷ y ∷ xs) = ap (λ l. x ∷ l) (without_last-append name (y ∷ xs))

-- Advancing replaces the innermost step: after a push, it is as if the new name had been pushed; and
-- popping what was pushed gives the tracker back.
pub advance-push :
    (name next : String) (t : StepTracker)
    → (advance next (push name t) ≡ push next t) × (pop (push name t) ≡ t)
unfolding advance
advance-push name next t =
    (cc (without_last-append name t.scopes), cc (without_last-append name t.scopes))
