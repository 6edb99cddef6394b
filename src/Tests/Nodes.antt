-- ===== src/Tests/Nodes.antt =====
-- The calls of the node and of the identity service, on a small machine.
use datera_csi.Base.{
  ◌↔◌, ◌≡◌, ◌≤◌, refl, String, ℕ, true, false, if◌then◌else◌, some, none, ◌==◌, str_eq, [], ◌∷◌,
  List, All, length,
}
use datera_csi.Base.Int.{pos, quot_ℤ, gib}
use datera_csi.Base.Text.{join, split}
use datera_csi.Base.Dict.{Dict, lookup, get}
use datera_csi.Base.Go.{ok, panic}
use datera_csi.Base.Go.Outcomes.{Ends}
use datera_csi.Client.System.{manifest_of}
use datera_csi.Client.Volume.{Volume, bare_volume}
use datera_csi.Client.Format.{format}
use datera_csi.Client.Mount.{bound, unbind_mount}
use datera_csi.Client.ExpandFs.{check_rounds}
use datera_csi.Client.Login.{portals, session_secrets_of}
use datera_csi.Driver.Capability.{Capability, mount}
use datera_csi.Driver.Node.Stage.{node_initiator, stage_body, unstage_body, detach}
use datera_csi.Driver.Node.Stage.Staged.{Recorded, stage_body-Recorded}
use datera_csi.Driver.Node.Stage.Unstaged.{Answered, unstage_body-Answered, detach_lost}
use datera_csi.Driver.Node.Publish.Recorded.{Lists, publish_body-Lists}
use datera_csi.Driver.Node.Publish.{publish_body, unpublish_body, published}
use datera_csi.Driver.Node.Usage.{node_expand_body}
use datera_csi.Driver.Node.Usage.Grown.{Grows, node_expand_body-Grows}
use datera_csi.Driver.Node.Publish.Kept.{Keeps, unpublish_body-Keeps}
use datera_csi.Driver.Identity.{
  Vitals, PluginInfo, manifest_data, starting, get_manifest_data, plugin_info_body, heartbeat,
}
use datera_csi.Driver.Identity.History.{beats, after, start, next, vendor_version_unset}
use datera_csi.Tests.Backend.{setting_up}
use datera_csi.Tests.Machine.{staged, system_1, machine, mounted, nameless, joined}

abbrev writer : Capability
writer = record { access = mount "xfs" []; mode = some "SINGLE_NODE_WRITER" }

stage_body-Recorded_example :
    Ends
      (Recorded joined machine setting_up "CSI-pvc" (mount "xfs" []) "/stage")
      (stage_body joined machine setting_up "CSI-pvc" "/stage" (some writer) [] (0, 0))
stage_body-Recorded_example =
    stage_body-Recorded joined machine setting_up "CSI-pvc" "/stage" writer [] (0, 0)

publish_body-Lists_example :
    Ends
      (Lists joined mounted setting_up "CSI-pvc" "/b")
      (publish_body joined mounted setting_up "CSI-pvc" "/stage" "/b" (some writer) none (0, 0))
publish_body-Lists_example =
    publish_body-Lists joined mounted setting_up "CSI-pvc" "/stage" "/b" writer none (0, 0)

node_expand_body-Grows_example :
    Ends
      (λ n t. (n ≡ pos 5368709120) × Grows mounted (quot_ℤ (pos 5368709120) (pos gib)) t.1)
      (node_expand_body joined mounted setting_up "CSI-pvc" "/stage"
        (some (record { required = pos 5368709120; limit = pos 0 }))
        (0, 0))
node_expand_body-Grows_example =
    node_expand_body-Grows joined mounted setting_up "CSI-pvc" "/stage"
      (record { required = pos 5368709120; limit = pos 0 }) (0, 0)

-- The four calls succeed there.
staging_succeeds :
    (stage_body joined machine setting_up "CSI-pvc" "/stage" (some writer) [] (0, 0)).0 ≡ ok tt
unfolding stage_body datera_csi.Driver.Capability.register_volume_capability
    datera_csi.Driver.Capability.is_supported_fs datera_csi.Driver.Node.Stage.attach node_initiator
    datera_csi.Common.Name.gen_name datera_csi.Client.Acl.create_get_initiator
    datera_csi.Client.Acl.client_iqn datera_csi.Client.Acl.register_acl
    datera_csi.Client.Volume.online datera_csi.Client.Volume.reload datera_csi.Client.Login.login
    portals datera_csi.Driver.Node.Stage.prepare datera_csi.Driver.Node.Stage.stage_fs_type
    datera_csi.Driver.Node.Stage.stage_fs_args datera_csi.Client.Format.format_volume
    datera_csi.Client.Format.find_fs datera_csi.Client.Format.find_mnt format
    datera_csi.Client.Mount.mount_volume datera_csi.Client.Mount.mount
    datera_csi.Client.Mount.mount_command datera_csi.Client.Volume.set_metadata
    datera_csi.Client.Volume.get_volume datera_csi.Client.Volume.ai_to_client_vol
    datera_csi.Client.Volume.first_instance datera_csi.Client.Volume.first_volume
    datera_csi.Client.Volume.get_metadata datera_csi.Client.Volume.with_metadata bare_volume get
    lookup datera_csi.Base.Dict.insert split datera_csi.Base.Text.trim_space
    datera_csi.Client.Host.run_cmd datera_csi.Client.Host.run_output
    datera_csi.Client.Host.command_words datera_csi.Base.Text.Fields.fields
    datera_csi.Client.Mount.device_from_mount
staging_succeeds = refl

publishing_succeeds :
    (publish_body joined mounted setting_up "CSI-pvc" "/stage" "/b" (some writer) none (0, 0)).0
    ≡ ok tt
unfolding publish_body datera_csi.Driver.Node.Publish.bind
    datera_csi.Driver.Capability.register_volume_capability
    datera_csi.Driver.Capability.is_supported_fs datera_csi.Client.Mount.bind_mount
    datera_csi.Client.Mount.mount datera_csi.Client.Mount.mount_command
    datera_csi.Client.Volume.set_metadata bound datera_csi.Client.Volume.string_set
    datera_csi.Client.Volume.add_to_set published join datera_csi.Client.Volume.get_volume
    datera_csi.Client.Volume.ai_to_client_vol datera_csi.Client.Volume.first_instance
    datera_csi.Client.Volume.first_volume datera_csi.Client.Volume.get_metadata
    datera_csi.Client.Volume.with_metadata bare_volume get lookup datera_csi.Base.Dict.insert split
    datera_csi.Base.Text.trim_space datera_csi.Client.Host.run_cmd datera_csi.Client.Host.run_output
    datera_csi.Client.Host.command_words datera_csi.Base.Text.Fields.fields
    datera_csi.Client.Mount.device_from_mount
publishing_succeeds = refl

unpublishing_succeeds : (unpublish_body joined mounted setting_up "CSI-pvc" "/b" (0, 0)).0 ≡ ok tt
unfolding unpublish_body datera_csi.Driver.Node.Publish.unpublish
    datera_csi.Driver.Node.Publish.delete_all datera_csi.Driver.Node.Publish.without_pod
    datera_csi.Client.Mount.unbind_mount datera_csi.Client.Mount.unmount
    datera_csi.Driver.Capability.register_volume_capability
    datera_csi.Driver.Capability.is_supported_fs datera_csi.Client.Mount.bind_mount
    datera_csi.Client.Mount.mount datera_csi.Client.Mount.mount_command
    datera_csi.Client.Volume.set_metadata bound datera_csi.Client.Volume.string_set
    datera_csi.Client.Volume.add_to_set published join datera_csi.Client.Volume.get_volume
    datera_csi.Client.Volume.ai_to_client_vol datera_csi.Client.Volume.first_instance
    datera_csi.Client.Volume.first_volume datera_csi.Client.Volume.get_metadata
    datera_csi.Client.Volume.with_metadata bare_volume get lookup datera_csi.Base.Dict.insert split
    datera_csi.Base.Text.trim_space datera_csi.Client.Host.run_cmd datera_csi.Client.Host.run_output
    datera_csi.Client.Host.command_words datera_csi.Base.Text.Fields.fields
    datera_csi.Client.Mount.device_from_mount
unpublishing_succeeds = refl

expanding_succeeds :
    (node_expand_body joined mounted setting_up "CSI-pvc" "/stage"
      (some (record { required = pos 5368709120; limit = pos 0 }))
      (0, 0)).0
    ≡ ok (pos 5368709120)
unfolding node_expand_body datera_csi.Client.ExpandFs.expand_volume_fs
    datera_csi.Client.ExpandFs.check_device_size check_rounds datera_csi.Client.ExpandFs.device_size
    datera_csi.Client.ExpandFs.read_size datera_csi.Base.Num.parse_int
    datera_csi.Base.Text.Fields.trim_newline datera_csi.Client.ExpandFs.in_bytes
    datera_csi.Base.Int.wrap64 datera_csi.Base.Int.◌*ℤ◌ datera_csi.Client.ExpandFs.expand_fs quot_ℤ
    datera_csi.Driver.CreateVolume.fill_limit datera_csi.Client.Volume.get_volume
    datera_csi.Client.Volume.ai_to_client_vol datera_csi.Client.Volume.first_instance
    datera_csi.Client.Volume.first_volume datera_csi.Client.Volume.get_metadata
    datera_csi.Client.Volume.with_metadata bare_volume get lookup datera_csi.Base.Dict.insert split
    datera_csi.Base.Text.trim_space datera_csi.Client.Host.run_cmd datera_csi.Client.Host.run_output
    datera_csi.Client.Host.command_words datera_csi.Base.Text.Fields.fields
    datera_csi.Client.Mount.device_from_mount
expanding_succeeds = refl

unstage_body-Answered_example :
    Answered (unstage_body joined machine setting_up "CSI-pvc" "/stage" (0, 0)).0
unstage_body-Answered_example =
    unstage_body-Answered joined machine setting_up "CSI-pvc" "/stage" (0, 0)

detach_lost_example : (detach joined nameless setting_up staged (0, 0)).0 ≡ panic
unfolding node_initiator datera_csi.Client.Acl.create_get_initiator datera_csi.Client.Acl.client_iqn
    datera_csi.Common.Name.gen_name
detach_lost_example = detach_lost joined nameless setting_up staged (0, 0) (λ u c h. cc)

abbrev reported : PluginInfo
reported = record {
  name = "driver";
  vendor_version = "1.0;";
  manifest = manifest_data (manifest_of system_1);
}

vendor_version_unset_example : reported.vendor_version ≡ join ";" ("1.0" ∷ "" ∷ [])
unfolding plugin_info_body after heartbeat datera_csi.Client.System.get_manifest starting
    get_manifest_data manifest_data manifest_of join
vendor_version_unset_example =
    vendor_version_unset joined setting_up "driver" "1.0" reported (next (start 0) beats) refl

abbrev known : Vitals ℕ
known = record {
  healthy = false;
  vendor_version = "";
  manifest = some (manifest_of system_1);
  backend = 1;
}

unpublish_body-Keeps_example :
    Ends
      (Keeps joined machine setting_up "CSI-pvc" "/b")
      (unpublish_body joined machine setting_up "CSI-pvc" "/b" (0, 0))
unpublish_body-Keeps_example = unpublish_body-Keeps joined machine setting_up "CSI-pvc" "/b" (0, 0)
