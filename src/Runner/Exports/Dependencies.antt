-- ===== src/Runner/Exports/Dependencies.antt =====
-- What `Build.dependencies` of ci-runner/src/lua/mod.rs finds out.
use Prim.Native.String.{◌++◌ as append}
use build_o_tron.Base.{
  ap, String, ◌≡◌, ◌↔◌, refl, Bool, true, false, List, [], ◌∷◌, Outcome, ok, err, panic,
  Outcome-cases, inl, inr, All, if◌then◌else◌,
}
use build_o_tron.Native.Notifier.{and_then}
use build_o_tron.Runner.Exports.{has_cmd, missing_deps, none_missing, check_dependencies}

abbrev pub IsThere : (String → Outcome Bool) → String → Type 0
IsThere which c = which c ≡ ok true

none-missing : (missing : List String) → none_missing missing ≡ ok tt → missing ≡ []
none-missing [] h = refl
none-missing (c ∷ cs) h = cc h

-- Is the command there, or can that not be told?
has_cmd-IsThere :
    (which : String → Outcome Bool) (c : String) → has_cmd which c ≡ ok true → IsThere which c
unfolding has_cmd
has_cmd-IsThere which c h = elim (Outcome-cases (which c)) [
  | inl (b, e) ↦ let k : ok b ≡ ok true = rw (e, has_cmd) at h in cc (e, k)
  | inr (inl (x, e)) ↦
      let k : err (append "could not fork which? " x) ≡ ok true = rw (e, has_cmd) at h in cc k
  | inr (inr (x, e)) ↦ let k : panic x ≡ ok true = rw (e, has_cmd) at h in cc k
]

IsThere-has_cmd :
    (which : String → Outcome Bool) (c : String) → IsThere which c → has_cmd which c ≡ ok true
unfolding has_cmd
IsThere-has_cmd which c h = rw (h, has_cmd) refl

prepend-none :
    (there : Bool) (c : String) (rest : Outcome (List String))
    → and_then rest (λ missing. ok (if there then missing else c ∷ missing)) ≡ ok []
    → (there ≡ true) × (rest ≡ ok [])
prepend-none true c (ok missing) h = (refl, h)
prepend-none false c (ok missing) h = cc h
prepend-none there c (err e) h = cc h
prepend-none there c (panic e) h = cc h

All-IsThere :
    (which : String → Outcome Bool) (commands : List String)
    → missing_deps which commands ≡ ok []
    → All (IsThere which) commands
unfolding missing_deps
All-IsThere which [] h = tt
All-IsThere which (c ∷ cs) h = elim (Outcome-cases (has_cmd which c)) [
  | inl (b, e) ↦
      let (t, k) = prepend-none b c (missing_deps which cs) (rw e at h) in
      (has_cmd-IsThere which c (cc (e, t)), All-IsThere which cs k)
  | inr (inl (x, e)) ↦ let k : err x ≡ ok [] = rw e at h in cc k
  | inr (inr (x, e)) ↦ let k : panic x ≡ ok [] = rw e at h in cc k
]

none_of_them :
    (which : String → Outcome Bool) (commands : List String)
    → All (IsThere which) commands
    → missing_deps which commands ≡ ok []
unfolding missing_deps
none_of_them which [] h = refl
none_of_them which (c ∷ cs) h =
    rw (IsThere-has_cmd which c h.0) (rw (none_of_them which cs h.1) refl)

ends_well : (found : Outcome (List String)) → and_then found none_missing ≡ ok tt → found ≡ ok []
ends_well (ok missing) h = ap ok (none-missing missing h)
ends_well (err e) h = cc h
ends_well (panic e) h = cc h

-- A goodfile's dependencies are met exactly where `which` finds every one of the commands.
pub check_dependencies_iff :
    (which : String → Outcome Bool) (commands : List String)
    → (check_dependencies which commands ≡ ok tt) ↔ All (IsThere which) commands
unfolding check_dependencies
check_dependencies_iff which commands = (
  (λ h. All-IsThere which commands (ends_well (missing_deps which commands) h)),
  (λ h. rw (none_of_them which commands h) refl),
)
