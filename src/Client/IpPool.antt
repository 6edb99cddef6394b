-- ===== src/Client/IpPool.antt =====
-- pkg/client/ip_pool.go: looking an IP pool up by name, and assigning it to a volume.
use datera_csi.Base.{String}
use datera_csi.Base.Go.{Action, pure, lift, deref, ◌>>=◌, ◌>>◌}
use datera_csi.Client.Sdk.{Sdk, call}
use datera_csi.Client.Volume.{Volume, first_instance}

-- `IpPool`
pub record IpPool : Type 0 where
  pub name : String
  pub path : String

module _ (sdk : Sdk) where
  -- `(*DateraClient).GetIpPoolFromName`
  unfoldable pub get_ip_pool_from_name : String → Action sdk.State IpPool
  get_ip_pool_from_name name = do
    answered ← call (sdk.get_ip_pool name)
    ipp ← deref answered
    pure (record { name = ipp.name; path = ipp.path })

  -- `(*Volume).RegisterIpPool`
  unfoldable pub register_ip_pool : Volume → IpPool → Action sdk.State (Unit {0})
  register_ip_pool vol pool = do
    si ← lift (first_instance vol.ai)
    call (sdk.set_ip_pool si pool.path)
    pure tt
