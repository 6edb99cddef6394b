-- ===== src/Driver/CreateVolume/Existing.antt =====
-- `CreateVolume` for a volume that exists.
use datera_csi.Base.{String, arith, ◌≡◌, ◌∙◌, false, str_eq, if◌then◌else◌}
use datera_csi.Base.Go.Binds.{bind-ok, attempt-ok}
use datera_csi.Base.Go.{Result, ok, err, status, already_exists, attempt}
use datera_csi.Common.Name.{gen_name}
use datera_csi.Client.Sdk.{Sdk}
use datera_csi.Client.Volume.{Volume, get_volume}
use datera_csi.Driver.Env.{Env}
use datera_csi.Driver.CreateVolume.{
  CreateVolumeRequest, VolumeReply, no_source, map_range, mismatch, to_bytes, create_body, existing,
  existing_or_new,
}

-- The answer for a volume that exists.
unfoldable pub existing_answer : CreateVolumeRequest → Volume → Result VolumeReply
existing_answer req vol =
    if mismatch (map_range req.capacity) (to_bytes vol.size)
    then err (status already_exists "Requested volume exists, but has a different size")
    else ok
        (record { capacity_bytes = to_bytes vol.size; volume_id = vol.name; content = no_source })

existing-answer :
    (sdk : Sdk) (env : Env) (req : CreateVolumeRequest) (vol : Volume) (t : sdk.State)
    → existing sdk env (map_range req.capacity) vol t ≡ (existing_answer req vol, t)
unfolding existing existing_answer
existing-answer sdk env req vol t = ground arith

-- If the request has a name and the backend has a volume of the name's id, no other call is made:
-- nothing is created, and the answer depends on the sizes alone.
pub create_body_existing :
    (sdk : Sdk) (env : Env) (req : CreateVolumeRequest) (id : String) (vol : Volume)
    (s t : sdk.State)
    → str_eq req.name "" ≡ false
    → gen_name env.rune_cap env.fresh_id req.name ≡ ok id
    → get_volume sdk id false false s ≡ (ok vol, t)
    → create_body sdk env req s ≡ (existing_answer req vol, t)
unfolding create_body existing_or_new
create_body_existing sdk env req id vol s t n g f =
    rw (create_body, n, g)
      (bind-ok (attempt (get_volume sdk id false false)) (existing_or_new sdk env req id) s
          (attempt-ok (get_volume sdk id false false) s f)
        ∙ existing-answer sdk env req vol t)
