-- ===== src/Driver/CreateVolume.antt =====
-- `CreateVolume` of pkg/driver/controller.go.
pub mod Existing
pub mod Metadata
pub mod Repeat
pub mod Size
use Prim.Native.String.{slice}
use datera_csi.Base.{
  String, ◌<>◌, ℕ, Bool, true, false, not, Option, none, some, List, [], ◌∷◌, ◌||◌, ◌&&◌, ltb, len,
  str_eq, if◌then◌else◌,
}
use datera_csi.Base.Int.{ℤ, pos, ◌*ℤ◌, wrap64, quot_ℤ, ltb_ℤ, eqb_ℤ, gib}
use datera_csi.Base.Num.{format_int}
use datera_csi.Base.Text.{join}
use datera_csi.Base.Dict.{Dict, insert, insert_all}
use datera_csi.Base.Go.{
  Error, plain, status, invalid_argument, already_exists, unknown, Result, ok, err, panic, Action,
  pure, throw, lift, attempt, fail_if, on_error, ◌>>=◌, ◌>>◌,
}
use datera_csi.Common.SnapId.{validate_snap_id}
use datera_csi.Common.Name.{gen_name}
use datera_csi.Common.Chap.{strip}
use datera_csi.Client.Sdk.{Sdk}
use datera_csi.Client.Volume.{Volume, get_volume, set_metadata}
use datera_csi.Client.Snapshots.{snapshot_path_from_csi_id}
use datera_csi.Client.Policy.{VolOpts}
use datera_csi.Client.Create.{to_map, create_volume}
use datera_csi.Driver.Env.{Env, as_code}
use datera_csi.Driver.Guard.{World, guarded}
use datera_csi.Driver.Params.{parse_vol_params}
use datera_csi.Driver.Capability.{Capability, register_all}

-- `csi.CapacityRange`, in bytes
pub record CapacityRange : Type 0 where
  pub required : ℤ
  pub limit : ℤ

-- `csi.TopologyRequirement`: whether there are requisite and preferred topologies
pub record Topology : Type 0 where
  pub requisite : Bool
  pub preferred : Bool

-- `csi.CreateVolumeRequest`. `rpc_metadata` is the metadata of the call, `snapshot` the id of the
-- snapshot if the content source is one.
pub record CreateVolumeRequest : Type 0 where
  pub name : String
  pub capacity : Option CapacityRange
  pub topology : Option Topology
  pub rpc_metadata : Option (Dict (List String))
  pub capabilities : Option (List (Option Capability))
  pub parameters : Dict String
  pub snapshot : Option String
  pub secrets : Dict String

-- `csi.Volume`. The content source of a new volume has a type only if it is a clone.
pub data Content : Type 0 where
  no_source no_type : Content
  of_volume of_snapshot : String → Content

pub record VolumeReply : Type 0 where
  pub capacity_bytes : ℤ
  pub volume_id : String
  pub content : Content

abbrev pub default_size : ℕ
default_size = 16

-- `if cr != nil && cr.LimitBytes == 0 { cr.LimitBytes = cr.RequiredBytes }`
unfoldable pub fill_limit : CapacityRange → CapacityRange
fill_limit cr = if eqb_ℤ cr.limit (pos 0) then record cr { limit = cr.required } else cr

abbrev map_range : Option CapacityRange → Option CapacityRange
map_range none = none
map_range (some cr) = some (fill_limit cr)

-- `int64(size * units.GiB)`
unfoldable pub to_bytes : ℤ → ℤ
to_bytes size = wrap64 (size *ℤ pos gib)

-- Whether an existing volume of this many bytes does not fit the request.
unfoldable pub mismatch : Option CapacityRange → ℤ → Bool
mismatch none size = false
mismatch (some cr) size = ltb_ℤ cr.limit size || not (eqb_ℤ cr.required size)

-- The size in GiB of the new volume.
unfoldable pub volume_size : Option CapacityRange → ℤ
volume_size none = pos default_size
volume_size (some cr) =
    let size = quot_ℤ cr.limit (pos gib) in
    if eqb_ℤ size (pos 0) then pos default_size else if ltb_ℤ size (pos 1) then pos 1 else size

unfoldable pub handle_topology_requirement : Option Topology → Result (Unit {0})
handle_topology_requirement none = ok tt
handle_topology_requirement (some tr) =
    if tr.requisite || tr.preferred
    then err (plain "TopologyRequirements and Preferred Topologies are currently unsupported")
    else ok tt

-- `registerMdFromCtxt`; its error is not looked at.
unfoldable pub register_rpc_metadata : Dict (List String) → Dict String → Dict String
register_rpc_metadata [] md = md
register_rpc_metadata ((k, v) ∷ rest) md = register_rpc_metadata rest (insert k (join "," v) md)

abbrev with_rpc_metadata : Option (Dict (List String)) → Dict String → Dict String
with_rpc_metadata none md = md
with_rpc_metadata (some rpc) md = register_rpc_metadata rpc md

-- The name limited to 100 bytes. A code point that byte 100 cuts is left out.
display_name : String → String
display_name name = if ltb 100 (len name) then slice name 0 100 else name

base_metadata : CreateVolumeRequest → Dict String
unfolding register_rpc_metadata display_name
base_metadata req =
    with_rpc_metadata req.rpc_metadata (insert "display_name" (display_name req.name) [])

unfoldable pub content_of : VolOpts → Content
content_of o =
    if not (str_eq o.clone_src "")
    then of_volume o.clone_src
    else if not (str_eq o.clone_vol_src "")
    then of_volume o.clone_vol_src
    else if not (str_eq o.clone_snap_src "")
    then of_snapshot o.clone_snap_src
    else no_type

-- `cr != nil && cr.RequiredBytes > cr.LimitBytes`
unfoldable pub over_limit : Option CapacityRange → Bool
over_limit none = false
over_limit (some cr) = ltb_ℤ cr.limit cr.required

over_limit_error : Option CapacityRange → Error
over_limit_error none = plain ""
over_limit_error (some cr) = plain (
    "RequiredBytes must be less than or equal to LimitBytes: ["
    <> (format_int cr.required <> (", " <> (format_int cr.limit <> "]"))))

-- The metadata of the volume: what the capabilities say, and then every parameter.
unfoldable pub volume_metadata : VolOpts → Dict String → Dict String
volume_metadata o md = insert_all (to_map o) md

module _ (sdk : Sdk) (env : Env) where
  unfoldable pub existing : Option CapacityRange → Volume → Action sdk.State VolumeReply
  existing cr vol =
      let size = to_bytes vol.size in
      if mismatch cr size
      then throw (status already_exists "Requested volume exists, but has a different size")
      else pure (record { capacity_bytes = size; volume_id = vol.name; content = no_source })

  -- The path of the snapshot to clone, "" where there is none.
  unfoldable pub clone_source : Option String → Action sdk.State String
  clone_source none = pure ""
  clone_source (some id) = do
    on_error (as_code env invalid_argument) (lift (validate_snap_id id))
    on_error (as_code env invalid_argument) (snapshot_path_from_csi_id sdk id)

  unfoldable pub with_capabilities :
      Option (List (Option Capability)) → Dict String → Action sdk.State (Dict String)
  with_capabilities none md = throw (status invalid_argument "VolumeCapabilities cannot be empty")
  with_capabilities (some vcs) md =
      on_error (as_code env invalid_argument) (lift (register_all vcs md))

  unfoldable pub override : VolOpts → VolOpts
  override o = if env.replica_override then record o { replica = pos 1 } else o

  -- The calls on the backend, and the response. A failure to store the metadata is logged.
  unfoldable pub make_volume :
      String
      → Option CapacityRange
      → VolOpts
      → Dict String
      → Dict String
      → Action sdk.State VolumeReply
  unfolding content_of
  make_volume id cr o md chap = do
    let sized = record o { size = volume_size cr }
    vol ← on_error (as_code env unknown) (create_volume sdk id sized false chap)
    attempt (set_metadata sdk env.metadata_debug vol md)
    pure (record {
      capacity_bytes = to_bytes (volume_size cr);
      volume_id = vol.name;
      content = content_of sized;
    })

  unfoldable pub new_volume :
      CreateVolumeRequest
      → String
      → Option CapacityRange
      → Dict String
      → Action sdk.State VolumeReply
  unfolding over_limit_error make_volume with_capabilities clone_source override base_metadata
  new_volume req id cr chap = do
    on_error (as_code env invalid_argument) (lift (handle_topology_requirement req.topology))
    md ← with_capabilities req.capabilities (base_metadata req)
    parsed ← on_error (as_code env invalid_argument) (lift (parse_vol_params req.parameters))
    src ← clone_source req.snapshot
    fail_if (over_limit cr) (over_limit_error cr)
    make_volume id cr (record (override parsed) { clone_snap_src = src })
        (volume_metadata parsed md) chap

  -- `if vol, err := d.dc.GetVolume(id, false, false); err == nil { ... }`, and what follows it.
  unfoldable pub existing_or_new :
      CreateVolumeRequest → String → Result Volume → Action sdk.State VolumeReply
  unfolding existing new_volume
  existing_or_new req id (ok vol) = existing (map_range req.capacity) vol
  existing_or_new req id _ = new_volume req id (map_range req.capacity) (strip req.secrets).1

  -- The body of the call, behind the guard of `InitFunc`.
  unfoldable pub create_body : CreateVolumeRequest → Action sdk.State VolumeReply
  unfolding existing_or_new
  create_body req = do
    fail_if (str_eq req.name "")
        (status invalid_argument "Name must be provided (currently empty string)")
    id ← lift (gen_name env.rune_cap env.fresh_id req.name)
    found ← attempt (get_volume sdk id false false)
    existing_or_new req id found
