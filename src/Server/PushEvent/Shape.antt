-- ===== src/Server/PushEvent/Shape.antt =====
-- Which bodies `parse_push_event` of ci-web-server/src/main.rs takes.
use build_o_tron.Base.{String, ◌≡◌, ◌↔◌, refl, subst, Option, none, some}
use build_o_tron.Server.Json.{Value, Members, object, text, as_object, as_str, get}
use build_o_tron.Server.PushEvent.{
  GithubHookError, missing_element, bad_type, body_not_object, Parsed, parsed, refused, PushEvent,
  push, parse_push_event, str_at, object_at, ◌>>=◌, ok_or,
}

-- A push as GitHub's documentation has it: the members that are read, each of its type.
pub record IsPush (value : Value) (e : PushEvent) : Type 0 where
  pub body : Members
  pub repository : Members
  pub is_object : value ≡ object body
  pub after : get body "after" ≡ some (text e.tip)
  pub has_repository : get body "repository" ≡ some (object repository)
  pub full_name : get repository "full_name" ≡ some (text e.repo_name)
  pub head_commit : get body "head_commit" ≡ some (object e.head_commit)
  pub pusher : get body "pusher" ≡ some (object e.pusher)
  pub ref_name : get body "ref" ≡ some (text e.ref_name)

bind-parsed :
    {A B : Type 0} (p : Parsed A) (f : A → Parsed B) (b : B)
    → p >>= f ≡ parsed b
    → (a : A) × (p ≡ parsed a) × (f a ≡ parsed b)
bind-parsed (parsed a) f b h = (a, refl, h)
bind-parsed (refused e) f b h = cc

ok_or-parsed :
    {A : Type 0} (e : GithubHookError) (o : Option A) (a : A) → ok_or e o ≡ parsed a → o ≡ some a
ok_or-parsed e none a h = cc
ok_or-parsed e (some b) a h = cc h

as_object-object : (v : Value) (m : Members) → as_object v ≡ some m → v ≡ object m
as_object-object (object n) m h = cc h
as_object-object _ m h = cc h

as_str-text : (v : Value) (s : String) → as_str v ≡ some s → v ≡ text s
as_str-text (text t) s h = cc h
as_str-text _ s h = cc h

str_at-text :
    (m : Members) (key path s : String) → str_at m key path ≡ parsed s → get m key ≡ some (text s)
str_at-text m key path s h =
    let (v, e, f) =
      bind-parsed (ok_or (missing_element path) (get m key))
        (λ v. ok_or (bad_type path "str") (as_str v)) s h in
    let g : get m key ≡ some v = ok_or-parsed (missing_element path) (get m key) v e in
    let k : v ≡ text s = as_str-text v s (ok_or-parsed (bad_type path "str") (as_str v) s f) in
    cc (g, k)

object_at-object :
    (m : Members) (key : String) (o : Members)
    → object_at m key ≡ parsed o
    → get m key ≡ some (object o)
object_at-object m key o h =
    let (v, e, f) =
      bind-parsed (ok_or (missing_element key) (get m key))
        (λ v. ok_or (bad_type key "obj") (as_object v)) o h in
    let g : get m key ≡ some v = ok_or-parsed (missing_element key) (get m key) v e in
    let k : v ≡ object o =
      as_object-object v o (ok_or-parsed (bad_type key "obj") (as_object v) o f) in
    cc (g, k)

parsed_injective : {A : Type 0} (a b : A) → parsed a ≡ parsed b → a ≡ b
parsed_injective a b h = cc h

push_injective : (d e : PushEvent) → push d ≡ push e → d ≡ e
push_injective d e h = cc h

to_IsPush :
    (value : Value) (e : PushEvent) → parse_push_event value ≡ parsed (push e) → IsPush value e
unfolding parse_push_event
to_IsPush value e h =
    let (body, e1, h1) = bind-parsed (ok_or body_not_object (as_object value)) _ (push e) h in
    let (tip, e2, h2) = bind-parsed (str_at body "after" "after") _ (push e) h1 in
    let (repository, e3, h3) = bind-parsed (object_at body "repository") _ (push e) h2 in
    let (repo_name, e4, h4) =
      bind-parsed (str_at repository "full_name" "repository/full_name") _ (push e) h3 in
    let (head_commit, e5, h5) = bind-parsed (object_at body "head_commit") _ (push e) h4 in
    let (pusher, e6, h6) = bind-parsed (object_at body "pusher") _ (push e) h5 in
    let (ref_name, e7, h7) = bind-parsed (str_at body "ref" "ref") _ (push e) h6 in
    subst (IsPush value) (push_injective _ e (parsed_injective _ (push e) h7)) (record {
      body = body;
      repository = repository;
      is_object =
          as_object-object value body (ok_or-parsed body_not_object (as_object value) body e1);
      after = str_at-text body "after" "after" tip e2;
      has_repository = object_at-object body "repository" repository e3;
      full_name = str_at-text repository "full_name" "repository/full_name" repo_name e4;
      head_commit = object_at-object body "head_commit" head_commit e5;
      pusher = object_at-object body "pusher" pusher e6;
      ref_name = str_at-text body "ref" "ref" ref_name e7;
    })

of_IsPush :
    (value : Value) (e : PushEvent) → IsPush value e → parse_push_event value ≡ parsed (push e)
unfolding parse_push_event
of_IsPush value e p = rw p.is_object (
    rw p.after
      (rw p.has_repository (rw p.full_name (rw p.head_commit (rw p.pusher (rw p.ref_name refl))))))

-- A body is taken as a push event exactly where it is an object that has the members which are read,
-- each of its type, and the event has what they hold.
pub parse_push_event-IsPush :
    (value : Value) (e : PushEvent) → (parse_push_event value ≡ parsed (push e)) ↔ IsPush value e
parse_push_event-IsPush value e = (to_IsPush value e, of_IsPush value e)
