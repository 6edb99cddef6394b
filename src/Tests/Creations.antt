-- ===== src/Tests/Creations.antt =====
-- A volume that is created and asked for again.
use datera_csi.Base.{◌≡◌, refl, ◌+◌, ◌*◌, some, none, [], ◌∷◌, ltb, if◌then◌else◌}
use datera_csi.Base.Int.{pos, gib}
use datera_csi.Base.Go.{ok}
use datera_csi.Client.Sdk.{Sdk, answer, denied}
use datera_csi.Client.Volume.{bare_volume}
use datera_csi.Driver.CreateVolume.{
  CreateVolumeRequest, VolumeReply, no_type, no_source, create_body,
}
use datera_csi.Driver.CreateVolume.Repeat.{create_body_again}
use datera_csi.Tests.Backend.{backend, setting_up, disk, storage, app, missing}

-- The small backend, whose volume is there after the first call on it.
abbrev empty_backend : Sdk
empty_backend = record backend {
  get_app_instance = λ name s. (if ltb s 1 then denied missing else answer app, s + 1);
}

abbrev five_gib : CreateVolumeRequest
five_gib = record {
  name = "pvc";
  capacity = some (record { required = pos (5 * gib); limit = pos (5 * gib) });
  topology = none;
  rpc_metadata = none;
  capabilities = some [];
  parameters = ("template", "small") ∷ [];
  snapshot = none;
  secrets = [];
}

abbrev created : VolumeReply
created = record { capacity_bytes = pos (5 * gib); volume_id = "CSI-pvc"; content = no_type }

abbrev found : VolumeReply
found = record { capacity_bytes = pos (5 * gib); volume_id = "CSI-pvc"; content = no_source }

first_call : create_body empty_backend setting_up five_gib 0 ≡ (ok created, 3)
unfolding datera_csi.Common.Name.gen_name datera_csi.Client.Volume.get_volume create_body
    datera_csi.Client.Volume.ai_to_client_vol datera_csi.Client.Volume.first_instance
    datera_csi.Client.Volume.first_volume datera_csi.Driver.CreateVolume.to_bytes
    datera_csi.Base.Int.wrap64 datera_csi.Base.Int.◌*ℤ◌ bare_volume
    datera_csi.Driver.CreateVolume.fill_limit datera_csi.Driver.CreateVolume.existing_or_new
    datera_csi.Driver.CreateVolume.new_volume datera_csi.Driver.CreateVolume.make_volume
    datera_csi.Driver.CreateVolume.with_capabilities datera_csi.Driver.CreateVolume.clone_source
    datera_csi.Driver.CreateVolume.override
    datera_csi.Driver.CreateVolume.handle_topology_requirement
    datera_csi.Driver.CreateVolume.over_limit datera_csi.Driver.CreateVolume.volume_size
    datera_csi.Driver.CreateVolume.content_of datera_csi.Driver.Capability.register_all
    datera_csi.Driver.Params.parse_vol_params datera_csi.Client.Create.create_volume
    datera_csi.Client.Create.source_of datera_csi.Client.Create.template_source
    datera_csi.Client.Create.mark_formatted datera_csi.Driver.Params.int_param
    datera_csi.Base.Num.parse_int datera_csi.Base.Num.parse_bool datera_csi.Base.Dict.get
    datera_csi.Base.Dict.insert datera_csi.Driver.Params.vol_defaults
    datera_csi.Driver.Params.bool_param datera_csi.Client.Volume.set_metadata
    datera_csi.Base.Int.quot_ℤ
first_call = refl

create_body_again_example : create_body empty_backend setting_up five_gib 3 ≡ (ok found, 4)
unfolding datera_csi.Common.Name.gen_name datera_csi.Client.Volume.get_volume
    datera_csi.Client.Volume.ai_to_client_vol datera_csi.Client.Volume.first_instance
    datera_csi.Client.Volume.first_volume datera_csi.Driver.CreateVolume.to_bytes
    datera_csi.Base.Int.wrap64 datera_csi.Base.Int.◌*ℤ◌ bare_volume
    datera_csi.Driver.CreateVolume.fill_limit
create_body_again_example =
    create_body_again empty_backend setting_up five_gib created "CSI-pvc"
      (bare_volume app storage disk none) 0 3 4 first_call refl refl refl refl
