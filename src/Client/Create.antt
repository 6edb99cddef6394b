-- ===== src/Client/Create.antt =====
-- `VolOpts` and `CreateVolume` of pkg/client/volume.go, and `VendorVersion` of pkg/client/system.go.
pub mod Chap
use datera_csi.Base.{
  String, ◌<>◌, Bool, false, not, ◌&&◌, Option, none, some, [], ◌∷◌, ◌==◌, str_eq, if◌then◌else◌,
}
use datera_csi.Base.Text.{trim, join}
use datera_csi.Base.Num.{format_int, format_bool}
use datera_csi.Base.Dict.{Dict, lookup}
use datera_csi.Base.Go.{Result, ok, Action, pure, crash, lift, deref, attempt, ◌>>=◌}
use datera_csi.Common.Version.{dat_version_gte}
use datera_csi.Client.Sdk.{
  Auth, VolumeRequest, Source, from_template, from_volume, from_snapshot, from_scratch, Sdk, call,
}
use datera_csi.Client.Volume.{Volume, ai_to_client_vol}
use datera_csi.Client.Policy.{VolOpts, set_performance_policy}

-- `VolOpts.ToMap`
unfoldable pub to_map : VolOpts → Dict String
to_map v =
    ("size", format_int v.size)
    ∷ ("replica", format_int v.replica)
    ∷ ("template", v.template)
    ∷ ("fs_type", v.fs_type)
    ∷ ("fs_args", join " " v.fs_args)
    ∷ ("placement", v.placement_mode)
    ∷ ("placement_policy", v.placement_policy)
    ∷ ("clone_src", v.clone_src)
    ∷ ("clone_vol_src", v.clone_vol_src)
    ∷ ("clone_snap_src", v.clone_snap_src)
    ∷ ("ip_pool", v.ip_pool)
    ∷ ("round_robin", format_bool v.round_robin)
    ∷ ("delete_on_unmount", format_bool v.delete_on_unmount)
    ∷ ("disable_template_override", format_bool v.disable_template_override)
    ∷ ("write_iops_max", format_int v.write_iops_max)
    ∷ ("read_iops_max", format_int v.read_iops_max)
    ∷ ("total_iops_max", format_int v.total_iops_max)
    ∷ ("write_bandwidth_max", format_int v.write_bandwidth_max)
    ∷ ("read_bandwidth_max", format_int v.read_bandwidth_max)
    ∷ ("total_bandwidth_max", format_int v.total_bandwidth_max)
    ∷ ("iops_per_gb", format_int v.iops_per_gb)
    ∷ ("bandwidth_per_gb", format_int v.bandwidth_per_gb)
    ∷ []

abbrev no_auth : Auth
no_auth = record {
  kind = "none";
  initiator_user_name = "";
  initiator_password = "";
  target_user_name = "";
  target_password = "";
}

-- A missing password is logged, and stays empty.
abbrev or_blank : Option String → String
or_blank none = ""
or_blank (some s) = s

mutual_auth : Dict String → Auth → Auth
mutual_auth chap auth = elim (lookup "node.session.auth.username_in" chap) [
  | none ↦ auth
  | some user ↦ record auth {
    kind = "mchap";
    initiator_user_name = user;
    initiator_password = or_blank (lookup "node.session.auth.password_in" chap);
  }
]

target_auth : Dict String → Auth → Auth
target_auth chap auth = elim (lookup "node.session.auth.username" chap) [
  | none ↦ auth
  | some user ↦ record auth {
    kind = if str_eq auth.kind "none" then "chap" else auth.kind;
    target_user_name = user;
    target_password = or_blank (lookup "node.session.auth.password" chap);
  }
]

-- The credentials of a storage instance.
unfoldable pub auth_of : Dict String → Auth
unfolding mutual_auth target_auth
auth_of chap = target_auth chap (mutual_auth chap no_auth)

-- The volume of a new app instance. Only from version 3.3 on it names a placement policy.
volume_request : Bool → VolOpts → VolumeRequest
volume_request from_3_3 o = record {
  name = "volume-1";
  size = o.size;
  placement_mode = o.placement_mode;
  placement_policy = if from_3_3 then some ("/placement_policies/" <> o.placement_policy) else none;
  replica_count = o.replica;
  performance_policy = record {
    read_iops_max = o.read_iops_max;
    write_iops_max = o.write_iops_max;
    total_iops_max = o.total_iops_max;
    read_bandwidth_max = o.read_bandwidth_max;
    write_bandwidth_max = o.write_bandwidth_max;
    total_bandwidth_max = o.total_bandwidth_max;
  };
}

scratch : Bool → VolOpts → Dict String → Source
unfolding volume_request auth_of
scratch from_3_3 o chap = from_scratch (
    record {
      name = "storage-1";
      ip_pool = "/access_network_ip_pools/" <> o.ip_pool;
      volumes = volume_request from_3_3 o ∷ [];
      auth = auth_of chap;
    }
    ∷ [])

-- The template override is a nested map with one value, the size.
unfoldable pub template_source : VolOpts → Source
template_source o =
    from_template ("/app_templates/" <> trim (λ c. c == b'/') o.template)
      (if o.disable_template_override then none else some (format_int o.size))

module _ (sdk : Sdk) where
  -- `(*DateraClient).VendorVersion`
  unfoldable pub vendor_version : Action sdk.State String
  vendor_version = do answered ← call sdk.get_system; sys ← deref answered; pure sys.sw_version

  scratch_source : VolOpts → Dict String → Action sdk.State Source
  unfolding scratch vendor_version
  scratch_source o chap = do
    version ← vendor_version
    from_3_3 ← lift (dat_version_gte version "3.3.0.0")
    pure (scratch from_3_3 o chap)

  -- The four ways to create an app instance, in the order in which they are tried.
  unfoldable pub source_of : VolOpts → Dict String → Action sdk.State Source
  unfolding template_source scratch_source
  source_of o chap =
      if not (str_eq o.template "")
      then pure (template_source o)
      else if not (str_eq o.clone_vol_src "")
      then pure (from_volume o.clone_vol_src)
      else if not (str_eq o.clone_snap_src "")
      then pure (from_snapshot o.clone_snap_src)
      else scratch_source o chap

  -- `v.Formatted = ...` writes through v, which is nil if `aiToClientVol` failed.
  unfoldable pub mark_formatted : VolOpts → Result Volume → Action sdk.State Volume
  mark_formatted o (ok v) = pure (record v {
    formatted =
        not (str_eq o.clone_src "")
        && not (str_eq o.clone_vol_src "")
        && not (str_eq o.clone_snap_src "");
  })
  mark_formatted o _ = crash

  -- `(*DateraClient).CreateVolume`
  unfoldable pub create_volume : String → VolOpts → Bool → Dict String → Action sdk.State Volume
  unfolding source_of mark_formatted
  create_volume name o qos chap = do
    source ← source_of o chap
    ai ← call (
        sdk.create_app_instance
          (record { name = name; create_mode = "kubernetes"; source = source }))
    built ← attempt (ai_to_client_vol sdk ai false false)
    v ← mark_formatted o built
    if qos && str_eq o.template "" then set_performance_policy sdk v o else pure v
