-- ===== src/Client/Sdk.antt =====
-- The Datera backend as the program sees it through github.com/Datera/go-sdk: a state that only the
-- calls below read and change. The SDK is not part of the repository, so it is a parameter.
use datera_csi.Base.{String, Bool, Option, none, some, List}
use datera_csi.Base.Int.{ℤ}
use datera_csi.Base.Dict.{Dict}
use datera_csi.Base.Go.{Result, ok, err, Action}
use datera_csi.Common.Errors.{ApiError, Reply, err_translator}

-- `dsdk.Snapshot`
pub record BackendSnapshot : Type 0 where
  pub uuid : String
  pub utc_ts : String
  pub path : String
  pub op_state : String

-- `dsdk.Initiator`
pub record BackendInitiator : Type 0 where
  pub name : String
  pub path : String
  pub id : String
  pub tenant : String

-- `dsdk.Volume`
pub record BackendVolume : Type 0 where
  pub size : ℤ
  pub capacity_in_use : ℤ
  pub replica_count : ℤ
  pub placement_mode : String
  pub snapshots : List BackendSnapshot

-- `dsdk.StorageInstance`, with the fields of its access and its ACL policy
pub record StorageInstance : Type 0 where
  pub op_state : String
  pub ips : List String
  pub iqn : String
  pub initiators : List BackendInitiator
  pub volumes : List BackendVolume

-- `dsdk.AppInstance`
pub record AppInstance : Type 0 where
  pub name : String
  pub admin_state : String
  pub repair_priority : String
  pub template : String
  pub storage_instances : List StorageInstance

-- `dsdk.PerformancePolicy`
pub record PerformancePolicy : Type 0 where
  pub read_iops_max : ℤ
  pub write_iops_max : ℤ
  pub total_iops_max : ℤ
  pub read_bandwidth_max : ℤ
  pub write_bandwidth_max : ℤ
  pub total_bandwidth_max : ℤ

-- `dsdk.System`, the fields that the program reads
pub record System : Type 0 where
  pub build_version : String
  pub callhome_enabled : Bool
  pub compression_enabled : Bool
  pub health : String
  pub l3_enabled : Bool
  pub name : String
  pub op_state : String
  pub sw_version : String
  pub timezone : String
  pub uuid : String
  pub total_capacity : ℤ
  pub total_provisioned_capacity : ℤ
  pub all_flash_total_capacity : ℤ
  pub all_flash_provisioned_capacity : ℤ
  pub hybrid_total_capacity : ℤ
  pub hybrid_provisioned_capacity : ℤ

-- `dsdk.AccessNetworkIpPool`
pub record BackendIpPool : Type 0 where
  pub name : String
  pub path : String

-- `dsdk.Auth`
pub record Auth : Type 0 where
  pub kind : String
  pub initiator_user_name : String
  pub initiator_password : String
  pub target_user_name : String
  pub target_password : String

-- The volume of a create request. `placement_policy` is the path of a policy.
pub record VolumeRequest : Type 0 where
  pub name : String
  pub size : ℤ
  pub placement_mode : String
  pub placement_policy : Option String
  pub replica_count : ℤ
  pub performance_policy : PerformancePolicy

pub record StorageInstanceRequest : Type 0 where
  pub name : String
  pub ip_pool : String
  pub volumes : List VolumeRequest
  pub auth : Auth

-- What an app instance is created from.
pub data Source : Type 0 where
  from_template : String → Option String → Source
  from_volume : String → Source
  from_snapshot : String → Source
  from_scratch : List StorageInstanceRequest → Source

-- `dsdk.AppInstancesCreateRequest`
pub record CreateRequest : Type 0 where
  pub name : String
  pub create_mode : String
  pub source : Source

-- `dsdk.SnapshotsCreateRequest`: the provider and the type of a remote snapshot, if it is one
pub record SnapshotRequest : Type 0 where
  pub uuid : String
  pub remote : Option (String × String)

-- The calls of the SDK. Those of an app instance, volume or snapshot take the value that they are
-- called on.
pub record Sdk : Type 1 where
  pub State : Type 0
  pub get_app_instance : String → State → Reply AppInstance × State
  pub list_app_instances : ℤ → ℤ → State → Reply (List (Option AppInstance)) × State
  pub create_app_instance : CreateRequest → State → Reply AppInstance × State
  pub set_admin_state : AppInstance → String → Bool → State → Reply AppInstance × State
  pub delete_app_instance : AppInstance → Bool → State → Reply AppInstance × State
  pub reload_app_instance : AppInstance → State → Reply AppInstance × State
  pub get_metadata : AppInstance → State → Reply (Dict String) × State
  pub set_metadata : AppInstance → Dict String → State → Reply (Dict String) × State
  pub set_volume_size : BackendVolume → ℤ → State → Reply BackendVolume × State
  pub get_policy : BackendVolume → State → Reply PerformancePolicy × State
  pub create_policy : BackendVolume → PerformancePolicy → State → Reply PerformancePolicy × State
  pub list_snapshots : BackendVolume → State → Reply (List BackendSnapshot) × State
  pub create_snapshot : BackendVolume → SnapshotRequest → State → Reply BackendSnapshot × State
  pub reload_snapshot : BackendSnapshot → State → Reply BackendSnapshot × State
  pub delete_snapshot : BackendSnapshot → State → Reply BackendSnapshot × State
  pub get_acl : StorageInstance → State → Reply (List BackendInitiator) × State
  pub set_acl :
      StorageInstance → List BackendInitiator → State → Reply (List BackendInitiator) × State
  pub get_initiator : String → State → Reply BackendInitiator × State
  pub create_initiator : String → String → State → Reply BackendInitiator × State
  pub delete_initiator : BackendInitiator → String → State → Reply BackendInitiator × State
  pub get_system : State → Reply System × State
  pub get_ip_pool : String → State → Reply BackendIpPool × State
  pub set_ip_pool : StorageInstance → String → State → Reply StorageInstance × State

-- `if err != nil {return err } else if apierr != nil {return co.ErrTranslator(apierr) }`; what is left
-- is the pointer that the call returned, which may be nil.
abbrev pub checked {ℓ} : {A : Type ℓ} → Reply A → Result (Option A)
checked r = elim r.failure [
  | some e ↦ err e
  | none ↦ elim r.api_error [ some a ↦ err (err_translator a) | none ↦ ok r.value ]
]

abbrev pub call {ℓ} : {S : Type 0} {A : Type ℓ} → (S → Reply A × S) → Action S (Option A)
call f s = let (r, t) = f s in (checked r, t)

-- An answer with a value, and one with an error of the backend.
abbrev pub answer {ℓ} : {A : Type ℓ} → A → Reply A
answer a = record { value = some a; api_error = none; failure = none }

abbrev pub denied {ℓ} : {A : Type ℓ} → ApiError → Reply A
denied e = record { value = none; api_error = some e; failure = none }
