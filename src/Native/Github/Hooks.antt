-- ===== src/Native/Github/Hooks.antt =====
-- Which hooks ci-lib-native/src/lib.rs takes for the service's own.
use text.Mathlib.Text.{starts_with}
use build_o_tron.Base.{
  String, ◌≡◌, ◌↔◌, refl, true, ok, err, panic, Outcome-cases, Bool-cases, inl, inr,
}
use build_o_tron.Server.Json.{Value, Items, nil, cons}
use build_o_tron.Native.Github.{hook_url, any_ours, ci_url}

-- There is a hook of the service among these, and every hook before it can be read.
pub data Ours : Items → Type 0 where
  here :
      {v : Value} {vs : Items} (url : String)
      → hook_url v ≡ ok url
      → starts_with url ci_url ≡ true
      → Ours (cons v vs)
  later : {v : Value} {vs : Items} (url : String) → hook_url v ≡ ok url → Ours vs → Ours (cons v vs)

found : (items : Items) → any_ours items ≡ ok true → Ours items
unfolding any_ours
found nil h = cc h
found (cons v vs) h = elim (Outcome-cases (hook_url v)) [
  | inl (url, e) ↦ elim (Bool-cases (starts_with url ci_url)) [
    | inl y ↦ here url e y
    | inr n ↦ later url e (found vs (rw n at (rw e at h)))
  ]
  | inr (inl (x, e)) ↦ let k : err x ≡ ok true = rw e at h in cc k
  | inr (inr (x, e)) ↦ let k : panic x ≡ ok true = rw e at h in cc k
]

finds : (items : Items) → Ours items → any_ours items ≡ ok true
unfolding any_ours
finds nil h = elim h [ ]
finds (cons v vs) (here url e y) = rw e (rw y refl)
finds (cons v vs) (later url e h) = elim (Bool-cases (starts_with url ci_url)) [
  | inl y ↦ rw e (rw y refl)
  | inr n ↦ rw e (rw n (finds vs h))
]

-- A repo is found to have the service's webhook exactly where one of its hooks has a url of the
-- service, and each hook before it is an object with a config that has a url.
pub any_ours_iff : (items : Items) → (any_ours items ≡ ok true) ↔ Ours items
any_ours_iff items = (found items, finds items)
