-- ===== src/Server/Webhook/Guard.antt =====
-- Who gets past the signature check of `handle_repo_event` (ci-web-server/src/main.rs).
use build_o_tron.Base.{
  ℕ, String, ◌≡◌, ◌⊎◌, refl, Bool, true, false, Option, none, some, List, [], ◌∷◌, Outcome, ok, err,
  panic, Action, Bool-cases, Outcome-cases, inl, inr, ◌∙◌, ==_iff, ◌==◌, ap,
}
use build_o_tron.Base.Header.{Header}
use build_o_tron.Core.DbCtx.Lock.{DbCtx}
use build_o_tron.Native.Notifier.{Outside}
use build_o_tron.Server.Json.{Value}
use build_o_tron.Server.Webhook.{
  HookRequest, Crypto, same_bytes, decoded, hmac_ok, check_hmac, or_bad_request,
  header_or_bad_request, handle_repo_event, handle_github_event, Reply,
}

-- A text is one of a list's.
pub IsIn : String → List String → Type 0
IsIn key [] = ⊥
IsIn key (k ∷ ks) = (key ≡ k) ⊎ IsIn key ks

-- The signature spells the digest of the body under one of the keys.
pub record IsSigned (c : Crypto) (psks : List String) (r : HookRequest) : Type 0 where
  pub signature : String
  pub key : String
  pub sent : r.signature ≡ some (Header.text signature)
  pub is_key : IsIn key psks
  pub digest : decoded c signature ≡ ok (c.hmac_sha256 key r.body)

same_bytes-eq : (a b : List ℕ) → same_bytes a b ≡ true → a ≡ b
unfolding same_bytes
same_bytes-eq [] [] h = refl
same_bytes-eq [] (b ∷ bs) h = cc
same_bytes-eq (a ∷ as') [] h = cc
same_bytes-eq (a ∷ as') (b ∷ bs) h = elim (Bool-cases (a == b)) [
  | inl e ↦
      let k : same_bytes as' bs ≡ true = rw e at h in
      let q : a ≡ b = (==_iff a b).0 e in rw q (ap (λ x. b ∷ x) (same_bytes-eq as' bs k))
  | inr e ↦ let k : false ≡ true = rw e at h in cc k
]

hmac_ok-key :
    (c : Crypto) (body : List ℕ) (sent : String) (psks : List String)
    → hmac_ok c body sent psks ≡ ok true
    → (key : String) × IsIn key psks × (decoded c sent ≡ ok (c.hmac_sha256 key body))
unfolding hmac_ok IsIn
hmac_ok-key c body sent [] h = cc
hmac_ok-key c body sent (key ∷ keys) h = elim (Outcome-cases (decoded c sent)) [
  | inl (bytes, e) ↦ elim (Bool-cases (same_bytes bytes (c.hmac_sha256 key body))) [
    | inl y ↦ (key, inl refl, e ∙ ap ok (same_bytes-eq bytes (c.hmac_sha256 key body) y))
    | inr n ↦
        let (k, i, d) = hmac_ok-key c body sent keys (rw n at (rw (e, hmac_ok) at h)) in
        (k, inr i, d)
  ]
  | inr (inl (x, e)) ↦ let k : err x ≡ ok true = rw (e, hmac_ok) at h in cc k
  | inr (inr (x, e)) ↦ let k : panic x ≡ ok true = rw (e, hmac_ok) at h in cc k
]

check_hmac-guards :
    (c : Crypto) (verdict : Outcome Bool) (k : Action DbCtx Reply) (ctx : DbCtx)
    → (verdict ≡ ok true) ⊎ ((check_hmac c verdict k ctx).1 ≡ ctx)
check_hmac-guards c (ok true) k ctx = inl refl
check_hmac-guards c (ok false) k ctx = inr refl
check_hmac-guards c (err e) k ctx = inr refl
check_hmac-guards c (panic e) k ctx = inr refl

IsSigned-or_unchanged :
    (c : Crypto) (psks : List String) (r : HookRequest) (sent : Option Header)
    (k : Action DbCtx Reply) (ctx : DbCtx)
    → r.signature ≡ sent
    → IsSigned c psks r
      ⊎ ((header_or_bad_request c sent (λ s. check_hmac c (hmac_ok c r.body s psks) k) ctx).1 ≡ ctx)
IsSigned-or_unchanged c psks r none k ctx e = inr refl
IsSigned-or_unchanged c psks r (some Header.opaque) k ctx e = inr refl
IsSigned-or_unchanged c psks r (some (Header.text s)) k ctx e =
    elim (check_hmac-guards c (hmac_ok c r.body s psks) k ctx) [
      | inr u ↦ inr u
      | inl v ↦
          let (key, i, d) = hmac_ok-key c r.body s psks v in
          inl (record { signature = s; key = key; sent = e; is_key = i; digest = d })
    ]

-- A request whose signature is not the digest of its body under one of the keys leaves the database
-- and its lock as they are.
pub handle_repo_event-IsSigned :
    (c : Crypto) (o : Outside) (config_path : String) (psks : List String) (now : ℕ)
    (r : HookRequest) (ctx : DbCtx)
    → IsSigned c psks r ⊎ ((handle_repo_event c o config_path psks now r ctx).1 ≡ ctx)
unfolding handle_repo_event
handle_repo_event-IsSigned c o config_path psks now r ctx = by_payload r.payload
  where
    by_payload :
        (payload : Option Value)
        → IsSigned c psks r
          ⊎ ((or_bad_request c payload
                (λ v. header_or_bad_request c r.signature λ sent.
                  check_hmac c (hmac_ok c r.body sent psks) (
                    header_or_bad_request c r.kind
                      λ kind. handle_github_event o config_path now kind v))
                ctx).1
              ≡ ctx)
    by_payload none = inr refl
    by_payload (some v) =
        IsSigned-or_unchanged c psks r r.signature
          (header_or_bad_request c r.kind λ kind. handle_github_event o config_path now kind v) ctx
          refl
