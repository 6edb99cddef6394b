-- ===== src/Driver/CreateVolume/Metadata.antt =====
-- The metadata that a new volume is given.
use datera_csi.Base.{
  ◌∙◌, ap, String, ◌≡◌, refl, Bool, true, false, some, [], ◌∷◌, arith, str_eq, if◌then◌else◌,
}
use datera_csi.Base.Dict.{Dict, lookup, insert, insert_all, lookup-insert}
use datera_csi.Base.Go.{ok}
use datera_csi.Client.Policy.{VolOpts}
use datera_csi.Client.Create.{to_map}
use datera_csi.Driver.Params.{parse_vol_params}
use datera_csi.Driver.CreateVolume.{volume_metadata}

-- Whether the map that is copied has the key.
unfoldable pub has_key : {V : Type 0} → String → Dict V → Bool
has_key k [] = false
has_key k ((j, v) ∷ m) = let rest = has_key k m in if str_eq j k then true else rest

lookup-insert_all_absent :
    {V : Type 0} (k : String) (src m : Dict V)
    → has_key k src ≡ false
    → lookup k (insert_all src m) ≡ lookup k m
unfolding insert_all has_key
lookup-insert_all_absent k [] m h = refl
lookup-insert_all_absent k ((j, v) ∷ src) m h =
    ground (arith, lookup-insert_all_absent k src (insert j v m), lookup-insert k j v m)

-- The metadata keeps its entry for every key that is not a key of `ToMap`.
pub volume_metadata_kept :
    (o : VolOpts) (md : Dict String) (k : String)
    → has_key k (to_map o) ≡ false
    → lookup k (volume_metadata o md) ≡ lookup k md
unfolding volume_metadata
volume_metadata_kept o md k h = lookup-insert_all_absent k (to_map o) md h

-- No parameter sets a file system.
fs_type-parse_vol_params :
    (params : Dict String) (o : VolOpts) → parse_vol_params params ≡ ok o → o.fs_type ≡ ""
unfolding parse_vol_params
fs_type-parse_vol_params params o h = ground arith

lookup-volume_metadata_fs :
    (o : VolOpts) (md : Dict String) → lookup "fs_type" (volume_metadata o md) ≡ some o.fs_type
unfolding volume_metadata insert_all to_map
lookup-volume_metadata_fs o md = simp lookup-insert

-- But the file system that a mount capability registered is lost: for all parameters that are
-- accepted and whatever the metadata held before, the new metadata names the empty file system.
pub fs_type_lost :
    (params md : Dict String) (o : VolOpts)
    → parse_vol_params params ≡ ok o
    → lookup "fs_type" (volume_metadata o md) ≡ some ""
fs_type_lost params md o h =
    lookup-volume_metadata_fs o md ∙ ap some (fs_type-parse_vol_params params o h)
