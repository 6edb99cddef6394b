-- ===== src/Client/System.antt =====
-- `GetCapacity` and `GetManifest` of pkg/client/system.go.
use datera_csi.Base.{String}
use datera_csi.Base.Int.{ℤ}
use datera_csi.Base.Num.{format_bool}
use datera_csi.Base.Go.{Action, pure, deref, ◌>>=◌}
use datera_csi.Client.Sdk.{System, Sdk, call}

-- `Capacity`
pub record Capacity : Type 0 where
  pub total : ℤ
  pub provisioned : ℤ
  pub flash_total : ℤ
  pub flash_provisioned : ℤ
  pub hybrid_total : ℤ
  pub hybrid_provisioned : ℤ

-- `Manifest`
pub record Manifest : Type 0 where
  pub build_version : String
  pub callhome_enabled : String
  pub compression_enabled : String
  pub health : String
  pub l3_enabled : String
  pub name : String
  pub op_state : String
  pub sw_version : String
  pub timezone : String
  pub uuid : String

unfoldable pub capacity_of : System → Capacity
capacity_of sys = record {
  total = sys.total_capacity;
  provisioned = sys.total_provisioned_capacity;
  flash_total = sys.all_flash_total_capacity;
  flash_provisioned = sys.all_flash_provisioned_capacity;
  hybrid_total = sys.hybrid_total_capacity;
  hybrid_provisioned = sys.hybrid_provisioned_capacity;
}

unfoldable pub manifest_of : System → Manifest
manifest_of sys = record {
  build_version = sys.build_version;
  callhome_enabled = format_bool sys.callhome_enabled;
  compression_enabled = format_bool sys.compression_enabled;
  health = sys.health;
  l3_enabled = format_bool sys.l3_enabled;
  name = sys.name;
  op_state = sys.op_state;
  sw_version = sys.sw_version;
  timezone = sys.timezone;
  uuid = sys.uuid;
}

module _ (sdk : Sdk) where
  unfoldable pub get_capacity : Action sdk.State Capacity
  unfolding capacity_of
  get_capacity = do answered ← call sdk.get_system; sys ← deref answered; pure (capacity_of sys)

  unfoldable pub get_manifest : Action sdk.State Manifest
  unfolding manifest_of
  get_manifest = do answered ← call sdk.get_system; sys ← deref answered; pure (manifest_of sys)
