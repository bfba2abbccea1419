-- ===== src/Server/Entry/Tls.antt =====
-- When the web server of ci-web-server/src/main.rs serves without TLS.
use build_o_tron.Base.{
  String, ◌≡◌, ◌⊎◌, refl, ap, Option, none, some, Outcome, ok, err, panic, inl, inr,
}
use build_o_tron.Server.Json.{Value, Members, text, object, get}
use build_o_tron.Server.Entry.{plain, address_of, with_tls, bound_to, bind_server}

with_tls-plain :
    (address at : String) (cert key : Option Value)
    → with_tls address cert key ≡ ok (plain at)
    → (address ≡ at) × (cert ≡ none) × (key ≡ none)
with_tls-plain address at none none h = (cc h, refl, refl)
with_tls-plain address at (some (text cert)) (some (text key)) h = cc h
with_tls-plain address at _ _ h = cc h

address_of-text :
    (v : Option Value) (address : String) → address_of v ≡ ok address → v ≡ some (text address)
address_of-text (some (text a)) address h = cc h
address_of-text none address h = cc h
address_of-text (some _) address h = cc h

bound_to-plain :
    (map : Members) (address : Outcome String) (at : String)
    → bound_to map address ≡ ok (plain at)
    → (address ≡ ok at) × (get map "cert_path" ≡ none) × (get map "key_path" ≡ none)
bound_to-plain map (ok address) at h =
    let (a, c, k) = with_tls-plain address at (get map "cert_path") (get map "key_path") h in
    (ap ok a, c, k)
bound_to-plain map (err e) at h = cc h
bound_to-plain map (panic e) at h = cc h

-- A server is bound without TLS only where its configuration is an address alone, or an object with
-- that address and with neither a certificate nor a key.
pub bind_server-plain :
    (conf : Value) (at : String)
    → bind_server conf ≡ ok (plain at)
    → (conf ≡ text at)
      ⊎ ((map : Members) × (conf ≡ object map)
          × (get map "address" ≡ some (text at))
          × (get map "cert_path" ≡ none)
          × (get map "key_path" ≡ none))
unfolding bind_server
bind_server-plain (text address) at h = inl (cc h)
bind_server-plain (object map) at h =
    let (a, c, k) = bound_to-plain map (address_of (get map "address")) at h in
    inr (map, refl, address_of-text (get map "address") at a, c, k)
bind_server-plain _ at h = cc h
