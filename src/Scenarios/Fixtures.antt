-- ===== src/Scenarios/Fixtures.antt =====
-- A database with one user, tokens for some claims, and a form.
use authust.Prelude.{
  ℕ, String, Bool, true, false, ◌&&◌, Option, none, some, [], ◌∷◌, ◌≡◌, ◌≢◌, refl, sym, ap, ◌∙◌,
  arith, Bool-cases, inl, inr, if◌then◌else◌,
}
use authust.Prelude.Int.{ℤ, pos}
use authust.Prelude.Eq.{◌==◌, Eq-nat, Eq-string, opt_eq}
use authust.Prelude.Res.{Res, ok, err}
use authust.Model.Query.{UniqueQuery}
use authust.Model.User.{PartialUser, PendingUser}
use authust.Model.Error.{Value, Fields, field}
use authust.Model.Stage.{StageKind, identification, user_login, internal, UserField, Stage}
use authust.Model.Policy.{Policy, PolicyKind}
use authust.Model.Flow.{Flow, FlowBinding, FlowBindingKind, authentication, none as anonymous}
use authust.PolicyEngine.Uri.{Uri, http}
use authust.Api.Error.{JwtError, PwHashError}
use authust.Api.Session.{Claims, Session, Tokens, UserRow, Database, Jar}
use authust.Executor.Externals.{Externals}
use authust.Executor.State.{CheckContextRequest}
use authust.Handler.Submission.{Form}
use authust.Handler.Tokens.{IsSound}

abbrev pub alice_row : UserRow
alice_row = record { uid = 7; name = "alice"; administrator = true; password_change_date = pos 0 }

abbrev pub alice : PartialUser
alice = record {
  uid = 7;
  name = "alice";
  avatar_url = none;
  is_admin = true;
  password_change_date = pos 0;
}

abbrev pub pending_alice : PendingUser
pending_alice = record {
  uid = 7;
  name = "alice";
  avatar_url = none;
  authenticated = true;
  is_admin = true;
}

-- Session "s1" is alice's, "s0" is nobody's.
abbrev pub db : Database
db = record {
  user_by_name = λ n. ok (if n == "alice" then some alice_row else none);
  user_by_email = λ _. ok none;
  user_by_uid = λ u. ok (if u == 7 then some alice_row else none);
  password_of = λ u. ok (if u == 7 then some "hash of secret" else none);
  session_user =
      λ s. ok (if s == "s1" then some (some 7) else if s == "s0" then some none else none);
  insert_session = λ _. ok tt;
  update_session = λ _ _. ok tt;
  connect = ok tt;
  begin = ok tt;
  commit = ok tt;
}

abbrev pub guest_claims : Claims
guest_claims = record {
  sid = "s0";
  iss = "authust";
  sub = none;
  authenticated = false;
  is_admin = false;
}

abbrev pub alice_claims : Claims
alice_claims = record {
  sid = "s0";
  iss = "authust";
  sub = some 7;
  authenticated = true;
  is_admin = true;
}

abbrev pub admin_claims : Claims
admin_claims = record {
  sid = "s1";
  iss = "authust";
  sub = some 7;
  authenticated = true;
  is_admin = true;
}

abbrev bool_eq : Bool → Bool → Bool
bool_eq true b = b
bool_eq false true = false
bool_eq false false = true

abbrev claims_eq : Claims → Claims → Bool
claims_eq c d =
    (c.sid == d.sid)
    && ((c.iss == d.iss)
        && (opt_eq c.sub d.sub
            && (bool_eq c.authenticated d.authenticated && bool_eq c.is_admin d.is_admin)))

abbrev foreign_claims : Claims
foreign_claims = record guest_claims { iss = "elsewhere" }

-- Claims of another issuer have a token too, which is refused.
abbrev pub tokens : Tokens
tokens = record {
  encode = λ c.
      if claims_eq c guest_claims
      then ok "guest"
      else if claims_eq c alice_claims
      then ok "alice"
      else if claims_eq c foreign_claims
      then ok "foreign"
      else err (JwtError.other "");
  decode = λ t.
      if t == "guest"
      then ok guest_claims
      else if t == "alice"
      then ok alice_claims
      else if t == "admin"
      then ok admin_claims
      else err (JwtError.other "");
}

abbrev get_field : String → Value → Option Value
get_field name (Value.object fields) = go name fields
  where
    go : String → Fields → Option Value
    go name Fields.end = none
    go name (field k v rest) = if k == name then some v else go name rest
get_field name _ = none

abbrev pub form_ext : Form
form_ext = record {
  value_get = get_field;
  parse_uuid = λ _. none;
  Hash = String;
  parse_hash = λ s. ok s;
  verify_password =
      λ h p. if (h == "hash of secret") && (p == "secret") then ok tt else err PwHashError.password;
}

abbrev pub login_form : Value
login_form =
    Value.object
      (field "uid" (Value.string "alice") (field "password" (Value.string "secret") Fields.end))

abbrev pub session : Session
session = record { session_id = "s0"; user_id = none; is_admin = false }

abbrev pub jar : Jar
jar = record { session_cookie = some "guest"; statements = [] }

abbrev pub ext : Externals
ext = record {
  Duration = ℤ;
  since = λ a b. a;
  seconds = λ n. n;
  lt = λ a b. true;
  AST = Bool;
  get_ast = λ _. ok (some true);
  eval = λ ast _. some ast;
}

abbrev pub uri : Uri
uri = record { text = "/flow/login"; port = none; path = "/flow/login"; query = none }

abbrev pub request : CheckContextRequest
request = record {
  uri = uri;
  host = "localhost";
  scheme = http;
  query = record { next = some "/" };
  user = none;
}

-- A login: identification with an embedded password stage, then `UserLogin`.
abbrev pub identification_stage : Stage
identification_stage = record {
  uid = pos 1;
  slug = "identification";
  kind = identification (some (UniqueQuery.uid (pos 2))) (UserField.name ∷ []);
  timeout = pos 0;
}

abbrev pub password_stage : Stage
password_stage = record {
  uid = pos 2;
  slug = "password";
  kind = StageKind.password (internal ∷ []);
  timeout = pos 0;
}

abbrev pub login_stage : Stage
login_stage = record { uid = pos 3; slug = "login"; kind = user_login; timeout = pos 0 }

abbrev pub local_policy : Policy
local_policy = record { uid = pos 1; slug = "local"; kind = PolicyKind.expression "true" }

abbrev policy_binding : FlowBinding
policy_binding = record {
  enabled = true;
  negate = false;
  order = pos 0;
  kind = FlowBindingKind.policy (UniqueQuery.uid (pos 1));
}

abbrev pub login_flow : Flow
login_flow = record {
  uid = pos 1;
  slug = "login";
  title = "Login";
  designation = authentication;
  authentication = anonymous;
  bindings = policy_binding ∷ [];
  entries =
      record { ordering = pos 0; bindings = []; stage = UniqueQuery.uid (pos 1) }
      ∷ record { ordering = pos 1; bindings = []; stage = UniqueQuery.uid (pos 3) }
      ∷ [];
}

bool_eq-eq : (a b : Bool) → bool_eq a b ≡ true → a ≡ b
bool_eq-eq a b h = ground arith

opt_eq-eq : (a b : Option ℕ) → opt_eq a b ≡ true → a ≡ b
opt_eq-eq none none h = refl
opt_eq-eq (some a) (some b) h = ground (arith, Eq-nat.beq_iff a b)
opt_eq-eq none (some b) h = cc
opt_eq-eq (some a) none h = cc

and-both : (a b : Bool) → (a && b) ≡ true → (a ≡ true) × (b ≡ true)
and-both a b h = ground arith

claims_eq-eq : (c d : Claims) → claims_eq c d ≡ true → c ≡ d
claims_eq-eq c d h =
    let (h1, r1) = and-both (c.sid == d.sid) _ h in
    let (h2, r2) = and-both (c.iss == d.iss) _ r1 in
    let (h3, r3) = and-both (opt_eq c.sub d.sub) _ r2 in
    let (h4, h5) =
      and-both (bool_eq c.authenticated d.authenticated) (bool_eq c.is_admin d.is_admin) r3 in
    let sid = (Eq-string.beq_iff c.sid d.sid).0 h1 in
    let iss = (Eq-string.beq_iff c.iss d.iss).0 h2 in
    let sub = opt_eq-eq c.sub d.sub h3 in
    let authenticated = bool_eq-eq c.authenticated d.authenticated h4 in
    let is_admin = bool_eq-eq c.is_admin d.is_admin h5 in cc

tokens_decode :
    (c : Claims) (t : String) → c.iss ≡ "authust" → tokens.encode c ≡ ok t → tokens.decode t ≡ ok c
tokens_decode c t own h = elim (Bool-cases (claims_eq c guest_claims)) [
  | inl e ↦
      let is : "guest" ≡ t = ground (arith, e, h) in rw (sym is, claims_eq-eq c guest_claims e) refl
  | inr f ↦ elim (Bool-cases (claims_eq c alice_claims)) [
    | inl e ↦
        let is : "alice" ≡ t = ground (arith, f, e, h) in
        rw (sym is, claims_eq-eq c alice_claims e) refl
    | inr g ↦ elim (Bool-cases (claims_eq c foreign_claims)) [
      | inl e ↦
          let other : c.iss ≡ "elsewhere" =
            ap (λ (d : Claims). d.iss) (claims_eq-eq c foreign_claims e) in
          absurd (string_ne (sym own ∙ other))
      | inr k ↦ absurd (ground (arith, f, g, k, h))
    ]
  ]
]
  where
    string_ne : ◌≢◌ {A = String} "authust" "elsewhere"
    string_ne = λ e. cc

decoded_issuer :
    (guest alice admin : Bool) (c : Claims)
    → ◌≡◌ {A = Res JwtError Claims}
        (if guest
          then ok guest_claims
          else if alice
          then ok alice_claims
          else if admin
          then ok admin_claims
          else err (JwtError.other ""))
        (ok c)
    → c.iss ≡ "authust"
decoded_issuer true alice admin c h = let is : guest_claims ≡ c = cc in rw (sym is) refl
decoded_issuer false true admin c h = let is : alice_claims ≡ c = cc in rw (sym is) refl
decoded_issuer false false true c h = let is : admin_claims ≡ c = cc in rw (sym is) refl
decoded_issuer false false false c h = cc

pub tokens-IsSound : IsSound tokens
tokens-IsSound = record {
  issuer = λ c t h. decoded_issuer (t == "guest") (t == "alice") (t == "admin") c h;
  decodes = tokens_decode;
}
