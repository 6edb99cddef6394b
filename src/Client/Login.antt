-- ===== src/Client/Login.antt =====
-- pkg/client/login.go: connecting a volume to the machine over iSCSI, and disconnecting it.
pub mod Credentials
pub mod Devices
use datera_csi.Base.{
  String, ℕ, zero, suc, Bool, true, false, not, Option, none, some, List, [], ◌∷◌, map, str_eq,
  if◌then◌else◌,
}
use datera_csi.Base.Dict.{Dict, lookup, get}
use datera_csi.Base.Go.{
  plain, Error, Result, ok, err, panic, Action, pure, throw, lift, fail_if, ◌>>=◌, ◌>>◌,
}
use datera_csi.Client.Volume.{Volume}
use datera_csi.Client.Host.{TargetInfo, Secrets, Connector, Host, returned}

-- `v.Ips[n]`: out of range panics.
unfoldable pub portal_at : ℕ → List String → Result String
portal_at n [] = panic
portal_at zero (ip ∷ _) = ok ip
portal_at (suc n) (_ ∷ ips) = portal_at n ips

unfoldable pub targets_of : String → List String → List TargetInfo
targets_of iqn = map (λ ip. record { iqn = iqn; portal = ip; port = "3260" })

abbrev pub no_secrets : Secrets
no_secrets = record {
  secrets_type = "";
  user_name = "";
  password = "";
  user_name_in = "";
  password_in = "";
}

-- `if value, exists := chapParams[key]; exists`: a missing entry leaves the empty text.
unfoldable pub session_secrets_of : Dict String → Secrets
session_secrets_of [] = no_secrets
session_secrets_of chap = record {
  secrets_type = "chap";
  user_name = get "node.session.auth.username" chap;
  password = get "node.session.auth.password" chap;
  user_name_in = get "node.session.auth.username_in" chap;
  password_in = get "node.session.auth.password_in" chap;
}

-- `len(m) != 0`
abbrev pub is_given : Dict String → Bool
is_given [] = false
is_given (_ ∷ _) = true

unfoldable pub connector : Bool → String → List String → Dict String → Connector
unfolding targets_of session_secrets_of
connector multipath iqn ips chap = record {
  targets = targets_of iqn ips;
  lun = 0;
  multipath = multipath;
  retry_count = 3;
  auth_type = if is_given chap then "chap" else "";
  session_secrets = session_secrets_of chap;
  do_discovery = not (is_given chap);
  do_chap_discovery = is_given chap;
}

module _ (host : Host) where
  -- The portals that are connected to. `robin` picks one of the first two.
  unfoldable pub portals : Bool → Bool → Volume → Action host.State (List String)
  unfolding portal_at
  portals true true vol = do
    n ← (λ s. let (n, t) = host.intn 2 s in (ok n, t))
    ip ← lift (portal_at n vol.ips)
    pure (ip ∷ [])
  portals true false vol = pure vol.ips
  portals false _ vol = do ip ← lift (portal_at 0 vol.ips); pure (ip ∷ [])

  -- `iscsi.Connect(c)`
  connect_to : Bool → Dict String → Volume → List String → Action host.State (String × Option Error)
  unfolding connector
  connect_to multipath chap vol ips s =
      let (r, t) = host.connect (connector multipath vol.iqn ips chap) s in (ok r, t)

  connected : Volume → String × Option Error → Action host.State Volume
  connected vol (path, failed) = do
    returned failed
    fail_if (str_eq path "") (plain "Recieved no paths from ISCSI connector: ")
    pure (record vol { device_path = path })

  -- `(*Volume).Login`, with the volume as it is afterwards.
  unfoldable pub login : Bool → Bool → Dict String → Volume → Action host.State Volume
  unfolding portals connect_to connected
  login multipath round_robin chap vol = do
    ips ← portals multipath round_robin vol
    r ← connect_to multipath chap vol ips
    connected vol r

  -- `(*Volume).Logout`
  unfoldable pub logout : Volume → Action host.State Volume
  logout vol = do
    failed ← (λ s. let (e, t) = host.disconnect vol.iqn vol.ips s in (ok e, t))
    returned failed
    pure (record vol { device_path = "" })
