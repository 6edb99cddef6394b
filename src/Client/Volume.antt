-- ===== src/Client/Volume.antt =====
-- pkg/client/volume.go, all but `CreateVolume`: the client's view of a volume and the calls on it.
pub mod Views
pub mod Instances
use datera_csi.Base.{
  String, Bool, true, false, Option, none, some, List, [], ◌∷◌, map, str_eq, not, if◌then◌else◌,
}
use datera_csi.Base.Int.{ℤ, ◌-ℤ◌, wrap64}
use datera_csi.Base.Text.{split}
use datera_csi.Base.Dict.{Dict, lookup, get}
use datera_csi.Base.Go.{
  plain, Result, ok, err, panic, Action, pure, throw, crash, deref, attempt, when, ◌>>=◌, ◌>>◌,
}
use datera_csi.Client.Sdk.{
  BackendVolume, BackendInitiator, StorageInstance, AppInstance, PerformancePolicy, Sdk, call,
}

-- The fields of `Volume` that the program reads or writes.
pub record Volume : Type 0 where
  pub ai : AppInstance
  pub name : String
  pub admin_state : String
  pub template : String
  pub ips : List String
  pub iqn : String
  pub initiators : List String
  pub replicas : ℤ
  pub placement_mode : String
  pub size : ℤ
  pub qos : Option PerformancePolicy
  pub device_path : String
  pub mount_path : String
  pub bind_mount_paths : Option (List String)
  pub fs_type : String
  pub fs_args : List String
  pub formatted : Bool

-- `ai.StorageInstances[0]`: an empty slice panics.
unfoldable pub first_instance : AppInstance → Result StorageInstance
first_instance ai = elim ai.storage_instances [ [] ↦ panic | si ∷ _ ↦ ok si ]

-- `si.Volumes[0]`
unfoldable pub first_volume : StorageInstance → Result BackendVolume
first_volume si = elim si.volumes [ [] ↦ panic | v ∷ _ ↦ ok v ]

-- `r.Ai.StorageInstances[0].Volumes[0]`
unfoldable pub backend_volume : AppInstance → Result BackendVolume
unfolding first_instance first_volume
backend_volume ai = elim (first_instance ai) [
  | ok si ↦ first_volume si
  | err e ↦ err e
  | panic ↦ panic
]

-- `dsdk.NewStringSet(10, xs...)`: a set, here in the order of first insertion.
unfoldable pub add_to_set : String → List String → List String
add_to_set x [] = x ∷ []
add_to_set x (y ∷ ys) = let rest = add_to_set x ys in if str_eq x y then y ∷ ys else y ∷ rest

unfoldable pub string_set : List String → List String → List String
string_set [] set = set
string_set (x ∷ xs) set = string_set xs (add_to_set x set)

-- `fmj, ok := (*md)["formatted"]`: any value but "false" counts.
unfoldable pub is_formatted : Dict String → Bool
is_formatted md = elim (lookup "formatted" md) [ none ↦ false | some v ↦ not (str_eq v "false") ]

-- The literal that `aiToClientVol` builds before the metadata is read.
unfoldable pub bare_volume :
    AppInstance → StorageInstance → BackendVolume → Option PerformancePolicy → Volume
bare_volume ai si v pp = record {
  ai = ai;
  name = ai.name;
  admin_state = ai.admin_state;
  template = ai.template;
  ips = si.ips;
  iqn = si.iqn;
  initiators = map (λ (i : BackendInitiator). i.name) si.initiators;
  replicas = v.replica_count;
  placement_mode = v.placement_mode;
  size = v.size;
  qos = pp;
  device_path = "";
  mount_path = "";
  bind_mount_paths = none;
  fs_type = "";
  fs_args = [];
  formatted = false;
}

unfoldable pub with_metadata : Dict String → Volume → Volume
with_metadata md vol = record vol {
  device_path = get "device_path" md;
  mount_path = get "mount_path" md;
  bind_mount_paths = some (string_set (split b' ' (get "bind-mount-paths" md)) []);
  fs_type = get "fs_type" md;
  fs_args = split b' ' (get "fs_args" md);
  formatted = is_formatted md;
}

module _ (sdk : Sdk) where
  -- `(*Volume).GetMetadata`
  unfoldable pub get_metadata : Volume → Action sdk.State (Dict String)
  get_metadata vol = do md ← call (sdk.get_metadata vol.ai); deref md

  -- `(*Volume).SetMetadata`. With `MetadataDebug` it also reads the metadata, to log its size.
  unfoldable pub set_metadata : Bool → Volume → Dict String → Action sdk.State (Dict String)
  unfolding get_metadata
  set_metadata debug vol md = do
    when debug (get_metadata vol)
    result ← call (sdk.set_metadata vol.ai md)
    deref result

  -- The policy is read only if `qos` is set. Without it the map is nil and each limit is 0.
  read_policy : Bool → BackendVolume → Action sdk.State (Option PerformancePolicy)
  read_policy false v = pure none
  read_policy true v = do pp ← call (sdk.get_policy v); p ← deref pp; pure (some p)

  read_metadata : Bool → Volume → Action sdk.State Volume
  read_metadata false vol = pure vol
  read_metadata true vol = do md ← get_metadata vol; pure (with_metadata md vol)

  unfoldable pub ai_to_client_vol : Option AppInstance → Bool → Bool → Action sdk.State Volume
  unfolding read_policy read_metadata
  ai_to_client_vol none qos metadata =
      throw (plain "Cannot construct a Client Volume from a nil AppInstance")
  ai_to_client_vol (some ai) qos metadata = do
    si ← (λ s. (first_instance ai, s))
    v ← (λ s. (first_volume si, s))
    pp ← read_policy qos v
    read_metadata metadata (bare_volume ai si v pp)

  -- `(*DateraClient).GetVolume`
  unfoldable pub get_volume : String → Bool → Bool → Action sdk.State Volume
  get_volume name qos metadata =
      if str_eq name ""
      then throw (plain "Volume name cannot be an empty string")
      else do ai ← call (sdk.get_app_instance name); ai_to_client_vol ai qos metadata

  -- A volume that cannot be built is logged and left out; a panic is not.
  client_volumes : List (Option AppInstance) → Action sdk.State (List Volume)
  client_volumes [] = pure []
  client_volumes (ai ∷ ais) =
      let rest = client_volumes ais in
      do
        v ← attempt (ai_to_client_vol ai false false)
        vs ← rest
        pure (elim v [ ok vol ↦ vol ∷ vs | _ ↦ vs ])

  -- `(*DateraClient).ListVolumes`
  unfoldable pub list_volumes : ℤ → ℤ → Action sdk.State (List Volume)
  unfolding client_volumes
  list_volumes max_entries start_token = do
    ais ← call (sdk.list_app_instances max_entries start_token)
    client_volumes (elim ais [ none ↦ [] | some l ↦ l ])

  -- `(*Volume).Reload`: the error of `aiToClientVol` is not looked at, and `*r = *v` reads through v.
  unfoldable pub reload : Volume → Bool → Bool → Action sdk.State Volume
  reload vol qos metadata = do
    ai ← call (sdk.reload_app_instance vol.ai)
    v ← attempt (ai_to_client_vol ai qos metadata)
    elim v [ ok new ↦ pure new | _ ↦ crash ]

  -- `(*Volume).Resize`
  unfoldable pub resize : Volume → ℤ → Action sdk.State Volume
  resize vol new_size = do
    v ← (λ s. (backend_volume vol.ai, s))
    call (sdk.set_volume_size v new_size)
    reload vol false false

  -- `(*Volume).Online`
  unfoldable pub online : Volume → Action sdk.State Volume
  online vol = do call (sdk.set_admin_state vol.ai "online" false); reload vol false false

  -- `(*Volume).Delete`
  unfoldable pub delete : Volume → Bool → Action sdk.State (Unit {0})
  delete vol force = do
    call (sdk.set_admin_state vol.ai "offline" force)
    call (sdk.delete_app_instance vol.ai force)
    pure tt

-- `(*Volume).GetUsage`: size, used, available
unfoldable pub get_usage : Volume → Result (ℤ × ℤ × ℤ)
get_usage vol = elim (backend_volume vol.ai) [
  | ok v ↦ ok (v.size, v.capacity_in_use, wrap64 (v.size -ℤ v.capacity_in_use))
  | err e ↦ err e
  | panic ↦ panic
]
