-- ===== src/Client/Create/Chap.antt =====
-- The credentials of a new volume.
use datera_csi.Base.{
  String, ◌≡◌, refl, Option, none, some, Option-cases, inl, inr, str_eq, if◌then◌else◌,
}
use datera_csi.Base.Dict.{Dict, lookup, get}
use datera_csi.Common.Chap.{strip, lookup-strip}
use datera_csi.Client.Sdk.{Auth}
use datera_csi.Client.Create.{auth_of, target_auth, mutual_auth, no_auth, or_blank}

-- The credentials as a function of the four entries: the target's name and password, and those of the
-- initiator.
abbrev mutual_from : Option String → Option String → Auth
mutual_from none password = no_auth
mutual_from (some user) password = record no_auth {
  kind = "mchap";
  initiator_user_name = user;
  initiator_password = or_blank password;
}

abbrev target_from : Option String → Option String → Auth → Auth
target_from none password auth = auth
target_from (some user) password auth = record auth {
  kind = if str_eq auth.kind "none" then "chap" else auth.kind;
  target_user_name = user;
  target_password = or_blank password;
}

abbrev auth_from : Option String → Option String → Option String → Option String → Auth
auth_from user password user_in password_in =
    target_from user password (mutual_from user_in password_in)

mutual_auth-lookup :
    (secrets : Dict String)
    → mutual_auth secrets no_auth
      ≡ mutual_from
          (lookup "node.session.auth.username_in" secrets)
          (lookup "node.session.auth.password_in" secrets)
unfolding mutual_auth
mutual_auth-lookup secrets = elim (Option-cases (lookup "node.session.auth.username_in" secrets)) [
  | inl e ↦ rw (e, mutual_auth)
  | inr (user, e) ↦ rw (e, mutual_auth)
]

target_auth-lookup :
    (secrets : Dict String) (auth : Auth)
    → target_auth secrets auth
      ≡ target_from
          (lookup "node.session.auth.username" secrets)
          (lookup "node.session.auth.password" secrets)
          auth
unfolding target_auth
target_auth-lookup secrets auth =
    elim (Option-cases (lookup "node.session.auth.username" secrets)) [
      | inl e ↦ rw (e, target_auth)
      | inr (user, e) ↦ rw (e, target_auth)
    ]

auth_of-lookup :
    (secrets : Dict String)
    → auth_of secrets
      ≡ auth_from
          (lookup "node.session.auth.username" secrets)
          (lookup "node.session.auth.password" secrets)
          (lookup "node.session.auth.username_in" secrets)
          (lookup "node.session.auth.password_in" secrets)
unfolding auth_of
auth_of-lookup secrets = rw (auth_of, target_auth-lookup, mutual_auth-lookup)

-- A volume is made with the credentials of the request's secrets, although these have been taken out
-- of the request: the parameters that stripping returns give the same credentials as the secrets.
pub auth_of-strip : (secrets : Dict String) → auth_of (strip secrets).1 ≡ auth_of secrets
auth_of-strip secrets = rw (
  auth_of-lookup (strip secrets).1,
  (lookup-strip "node.session.auth.username" secrets).1,
  (lookup-strip "node.session.auth.password" secrets).1,
  (lookup-strip "node.session.auth.username_in" secrets).1,
  (lookup-strip "node.session.auth.password_in" secrets).1,
  ← auth_of-lookup secrets,
)

-- The credentials for a target's name and an initiator's name, each with its password or the empty one.
pub auth_of-both :
    (secrets : Dict String) (user user_in : String)
    → lookup "node.session.auth.username" secrets ≡ some user
    → lookup "node.session.auth.username_in" secrets ≡ some user_in
    → auth_of secrets ≡ record {
      kind = "mchap";
      initiator_user_name = user_in;
      initiator_password = get "node.session.auth.password_in" secrets;
      target_user_name = user;
      target_password = get "node.session.auth.password" secrets;
    }
unfolding get
auth_of-both secrets user user_in e f = rw (auth_of-lookup secrets, e, f)

-- The kind of authentication for the names that are given.
unfoldable pub kind_for : Option String → Option String → String
kind_for target (some initiator) = "mchap"
kind_for (some target) none = "chap"
kind_for none none = "none"

kind-auth_from :
    (user password user_in password_in : Option String)
    → (auth_from user password user_in password_in).kind ≡ kind_for user user_in
unfolding kind_for
kind-auth_from none p none q = refl
kind-auth_from none p (some v) q = refl
kind-auth_from (some u) p none q = refl
kind-auth_from (some u) p (some v) q = refl

-- Mutual CHAP is used exactly if an initiator's name is given, one-way CHAP if only a target's name is,
-- and none without either, whatever passwords there are.
pub kind-auth_of :
    (secrets : Dict String)
    → (auth_of secrets).kind
      ≡ kind_for
          (lookup "node.session.auth.username" secrets)
          (lookup "node.session.auth.username_in" secrets)
kind-auth_of secrets = rw (auth_of-lookup secrets) (
    kind-auth_from (lookup "node.session.auth.username" secrets)
      (lookup "node.session.auth.password" secrets) (lookup "node.session.auth.username_in" secrets)
      (lookup "node.session.auth.password_in" secrets))
