-- ===== src/Client/Login/Credentials.antt =====
-- The portals and the credentials of a login.
use datera_csi.Base.{
  String, ℕ, zero, suc, ◌≤◌, ◌≡◌, ◌↔◌, refl, true, some, List, [], ◌∷◌, length, arith,
}
use datera_csi.Base.Dict.{Dict, lookup, lookup-nil, get-lookup}
use datera_csi.Base.Go.{Result, ok, err, panic, lift, pure, ◌>>=◌}
use datera_csi.Client.Create.{auth_of}
use datera_csi.Client.Create.Chap.{auth_of-both}
use datera_csi.Client.Volume.{Volume}
use datera_csi.Client.Host.{Host}
use datera_csi.Client.Login.{portal_at, portals, session_secrets_of}

portal_at-panics : (n : ℕ) (ips : List String) → (portal_at n ips ≡ panic) ↔ (length ips ≤ n)
unfolding portal_at
portal_at-panics n [] = ground arith
portal_at-panics zero (ip ∷ ips) = ground arith
portal_at-panics (suc n) (ip ∷ ips) = ground (arith, portal_at-panics n ips)

one_portal-panics :
    {S : Type 0} (r : Result String) (t : S)
    → (((lift r >>= λ ip. pure (ip ∷ [])) t).0 ≡ panic) ↔ (r ≡ panic)
one_portal-panics (ok ip) t = (λ h. cc, λ h. cc)
one_portal-panics (err e) t = (λ h. cc, λ h. cc)
one_portal-panics panic t = (λ h. refl, λ h. refl)

module _ (host : Host) where
  -- A login with multipath and round robin draws the number of a portal below 2, and panics exactly if
  -- the volume has no portal of that number: with fewer than two portals it may.
  pub portals-panics :
      (vol : Volume) (s : host.State)
      → ((portals host true true vol s).0 ≡ panic) ↔ (length vol.ips ≤ (host.intn 2 s).0)
  unfolding portals
  portals-panics vol s =
      let p = one_portal-panics (portal_at (host.intn 2 s).0 vol.ips) (host.intn 2 s).1 in
      let q = portal_at-panics (host.intn 2 s).0 vol.ips in (λ h. q.0 (p.0 h), λ h. p.1 (q.1 h))

-- The session's credentials are those that the volume was made with: for parameters with a name for
-- the target and one for the initiator, both directions have the same name and password.
pub session_secrets_of-auth_of :
    (chap : Dict String) (user user_in : String)
    → lookup "node.session.auth.username" chap ≡ some user
    → lookup "node.session.auth.username_in" chap ≡ some user_in
    → ((session_secrets_of chap).user_name ≡ (auth_of chap).target_user_name)
      × ((session_secrets_of chap).password ≡ (auth_of chap).target_password)
      × ((session_secrets_of chap).user_name_in ≡ (auth_of chap).initiator_user_name)
      × ((session_secrets_of chap).password_in ≡ (auth_of chap).initiator_password)
unfolding session_secrets_of
session_secrets_of-auth_of [] user user_in e f = cc (lookup-nil "node.session.auth.username")
session_secrets_of-auth_of (c ∷ cs) user user_in e f = rw (auth_of-both (c ∷ cs) user user_in e f) (
  get-lookup "node.session.auth.username" user (c ∷ cs) e,
  refl,
  get-lookup "node.session.auth.username_in" user_in (c ∷ cs) f,
  refl,
)
