-- ===== src/Client/Connect.antt =====
-- The client's construction and its calls that the SDK takes on, pkg/client/client.go.
use datera_csi.Base.{String, Bool, Option, if◌then◌else◌}
use datera_csi.Base.Go.{Error, ok, Action, pure, ◌>>◌}
use datera_csi.Client.Host.{returned}

-- What the SDK does with its own state: `dsdk.NewSDK`, `SetDriver`, `HealthCheck` and
-- `LogsUpload.RotateUploadRemove`.
pub record SdkSetup (S : Type 0) : Type 0 where
  pub new_sdk : S → Option Error × S
  pub set_driver : String → S → S
  pub health_check : S → Option Error × S
  pub rotate_upload_remove : String → String → S → Option Error × S

module _ {S : Type 0} (setup : SdkSetup S) where
  -- A call, and its error returned.
  checked : (S → Option Error × S) → Action S (Unit {0})
  checked call s = returned (call s).0 (call s).1

  named : String → Action S (Unit {0})
  named driver s = (ok tt, setup.set_driver driver s)

  -- `NewDateraClient`
  unfoldable pub new_datera_client : Bool → String → Action S (Unit {0})
  unfolding checked named
  new_datera_client healthcheck driver = do
    checked setup.new_sdk
    named driver
    if healthcheck then checked setup.health_check else pure tt

  -- `(*DateraClient).LogPush`
  unfoldable pub log_push : String → String → Action S (Unit {0})
  unfolding checked
  log_push rule rotated = checked (setup.rotate_upload_remove rule rotated)
