-- ===== src/Driver/Volumes.antt =====
-- The other volume calls of pkg/driver/controller.go: `DeleteVolume`, `ValidateVolumeCapabilities`,
-- `ListVolumes`, `GetCapacity` and `ControllerExpandVolume`.
pub mod Deletion
use datera_csi.Base.{
  String, ℕ, Bool, true, false, Option, none, some, List, [], ◌∷◌, map, str_eq, if◌then◌else◌,
}
use datera_csi.Base.Int.{ℤ, pos, wrap64, quot_ℤ, eqb_ℤ, gib}
use datera_csi.Base.Text.{contains}
use datera_csi.Base.Num.{value, refused, num_error_text}
use datera_csi.Base.Num.Auto.{parse_int_auto}
use datera_csi.Base.Dict.{Dict}
use datera_csi.Base.Go.{
  Error, plain, status, invalid_argument, not_found, unknown, unimplemented, failed_precondition,
  Result, ok, err, panic, Action, pure, throw, crash, lift, deref, attempt, fail_if, on_error,
  ◌>>=◌, ◌>>◌,
}
use datera_csi.Client.Sdk.{Sdk, call}
use datera_csi.Client.Volume.{Volume, get_volume, list_volumes, resize}
use datera_csi.Client.Policy.{VolOpts}
use datera_csi.Client.System.{get_capacity}
use datera_csi.Client.Delete.{delete_volume}
use datera_csi.Driver.Env.{Env, as_code, error_text}
use datera_csi.Driver.Guard.{World, guarded}
use datera_csi.Driver.Capability.{mount, block, Capability}
use datera_csi.Driver.Params.{parse_vol_params}
use datera_csi.Driver.CreateVolume.{CapacityRange, fill_limit, to_bytes}

-- `CreateVolumeResponse` entries of a list
pub record Entry : Type 0 where
  pub capacity_bytes : ℤ
  pub volume_id : String

-- The token of a page: an absent one is 0.
unfoldable pub parse_token : String → Result ℤ
parse_token token = if str_eq token "" then ok (pos 0) else elim (parse_int_auto token) [
  | value n ↦ ok n
  | refused e ↦ err (status invalid_argument (num_error_text "ParseInt" token e))
]

-- `acap / int64(params.Replica)`: Go panics at 0.
unfoldable pub shared : ℤ → ℤ → Result ℤ
shared total replica = if eqb_ℤ replica (pos 0) then panic else ok (wrap64 (quot_ℤ total replica))

-- `int(size / units.GiB)` of a request; a request without a range is read through nil.
expand_size : Option CapacityRange → Result ℤ
expand_size none = panic
expand_size (some cr) = ok (quot_ℤ (fill_limit cr).required (pos gib))

abbrev entry_of : Volume → Entry
entry_of v = record { capacity_bytes = to_bytes v.size; volume_id = v.name }

-- The capabilities that `ValidateVolumeCapabilities` confirms.
abbrev confirmed : List Capability
confirmed =
    record { access = mount "" []; mode = some "SINGLE_NODE_WRITER" }
    ∷ record { access = block; mode = some "SINGLE_NODE_WRITER" }
    ∷ record { access = block; mode = some "MULTI_NODE_SINGLE_WRITER" }
    ∷ record { access = block; mode = some "MULTI_NODE_MULTI_WRITER" }
    ∷ []

module _ (sdk : Sdk) (env : Env) where
  -- What `DeleteVolume` makes of the client's error: only that of a volume with snapshots counts.
  unfoldable pub delete_outcome : Result (Unit {0}) → Action sdk.State (Unit {0})
  delete_outcome (err e) =
      if contains (error_text env e) "it has snapshots"
      then throw (
          status failed_precondition
            "Volumes with snapshots cannot be deleted.  Delete snapshots first")
      else pure tt
  delete_outcome _ = pure tt

  unfoldable pub delete_body : String → Action sdk.State (Unit {0})
  unfolding delete_outcome
  delete_body volume_id = do
    fail_if (str_eq volume_id "") (status invalid_argument "VolumeId cannot be empty")
    done ← attempt (delete_volume sdk volume_id true)
    delete_outcome done

  -- `ValidateVolumeCapabilities`: every existing volume is confirmed, with four fixed capabilities.
  unfoldable pub validate_body : String → Bool → Action sdk.State (List Capability)
  validate_body volume_id has_capabilities = do
    fail_if (str_eq volume_id "") (status invalid_argument "VolumeId cannot be empty")
    if has_capabilities
        then (do
          v ← on_error (as_code env not_found) (get_volume sdk volume_id false false)
          pure confirmed)
        else throw (status invalid_argument "VolumeCapabilities cannot be nil")

  unfoldable pub list_volumes_body : ℤ → String → Action sdk.State (List Entry)
  list_volumes_body max_entries token = do
    start ← lift (parse_token token)
    vols ← on_error (as_code env unknown) (list_volumes sdk max_entries start)
    pure (map entry_of vols)

  -- `GetCapacity`: the space of the backend, divided by the number of replicas.
  unfoldable pub get_capacity_body : Dict String → Action sdk.State ℤ
  get_capacity_body parameters = do
    o ← on_error (as_code env invalid_argument) (lift (parse_vol_params parameters))
    cap ← on_error (as_code env unknown) (get_capacity sdk)
    lift (
        shared (if str_eq o.placement_mode "all_flash" then cap.flash_total else cap.total)
          o.replica)

  -- `ControllerExpandVolume`: the bytes that were asked for are reported.
  unfoldable pub expand_body : String → Option CapacityRange → Action sdk.State ℤ
  unfolding expand_size
  expand_body volume_id cr = do
    vol ← on_error (as_code env invalid_argument) (get_volume sdk volume_id false false)
    size ← lift (expand_size cr)
    on_error (as_code env unknown) (resize sdk vol size)
    r ← deref cr
    pure r.required

  -- `ControllerPublishVolume` and `ControllerUnpublishVolume`
  unfoldable pub not_implemented : String → Action sdk.State (Unit {0})
  not_implemented message = throw (status unimplemented message)
