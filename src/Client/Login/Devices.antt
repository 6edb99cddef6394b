-- ===== src/Client/Login/Devices.antt =====
-- What a login leaves in the volume.
use datera_csi.Base.{String, ◌≡◌, refl, Bool, false, Option, str_eq}
use datera_csi.Base.Dict.{Dict}
use datera_csi.Base.Go.Outcomes.{Ends, bind-Ends, skip-Ends, fail_if-Ends}
use datera_csi.Base.Go.{plain, Error, Action, pure, fail_if, ◌>>=◌}
use datera_csi.Client.Volume.{Volume}
use datera_csi.Client.Host.{Host, returned}
use datera_csi.Client.Login.{login, portals, connect_to, connected}

module _ (host : Host) (vol : Volume) where
  -- The volume has a device path, and counts as formatted or not as it did; its app instance is the same.
  abbrev pub IsConnected : Volume → host.State → Type 0
  IsConnected v _ =
      (str_eq v.device_path "" ≡ false) × (v.formatted ≡ vol.formatted) × (v.ai ≡ vol.ai)

  abbrev no_path : Error
  no_path = plain "Recieved no paths from ISCSI connector: "

  abbrev found : String → Unit {0} → Action host.State Volume
  found path _ = pure (record vol { device_path = path })

  connected-Ends :
      (path : String) (failed : Option Error) (s : host.State)
      → Ends IsConnected (connected host vol (path, failed) s)
  unfolding connected
  connected-Ends path failed s =
      skip-Ends IsConnected (returned failed) (λ _. fail_if (str_eq path "") no_path >>= found path)
        s
        (λ _ t.
          bind-Ends (λ _ _. str_eq path "" ≡ false) IsConnected (fail_if (str_eq path "") no_path)
            (found path) t (fail_if-Ends (str_eq path "") no_path t) (λ _ u e. (e, refl, refl)))

  -- A login that returns leaves a device path that is not empty, and the volume formatted or not.
  pub login-Ends :
      (multipath round_robin : Bool) (chap : Dict String) (s : host.State)
      → Ends IsConnected (login host multipath round_robin chap vol s)
  unfolding login
  login-Ends multipath round_robin chap s =
      skip-Ends IsConnected (portals host multipath round_robin vol)
        (λ ips. connect_to host multipath chap vol ips >>= connected host vol) s
        (λ ips t.
          skip-Ends IsConnected (connect_to host multipath chap vol ips) (connected host vol) t
            (λ r u. connected-Ends r.0 r.1 u))
