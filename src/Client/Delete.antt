-- ===== src/Client/Delete.antt =====
-- `(*DateraClient).DeleteVolume` of pkg/client/volume.go.
pub mod Laws
use datera_csi.Base.{String, ◌<>◌, Bool, true, false, Option, none, some}
use datera_csi.Base.Go.{ok, plain, Action, pure, throw, ◌>>=◌, ◌>>◌}
use datera_csi.Common.Errors.{ApiError, err_translator}
use datera_csi.Client.Sdk.{Sdk}
use datera_csi.Client.Volume.{Volume, ai_to_client_vol, delete}
use datera_csi.Client.Snapshots.{has_snapshots}

module _ (sdk : Sdk) where
  -- `else if apierr != nil { return co.ErrTranslator(apierr) }`
  refuse : Option ApiError → Action sdk.State (Unit {0})
  refuse none = pure tt
  refuse (some a) = throw (err_translator a)

  -- The volume goes only if no snapshot of it was found.
  unfoldable pub delete_unless : Bool → Bool → Volume → Action sdk.State (Unit {0})
  delete_unless true force v =
      throw (plain ("Volume " <> (v.name <> " cannot be deleted because it has snapshots")))
  delete_unless false force v = delete sdk v force

  unfoldable pub rest_of_delete : Bool → Option ApiError → Volume → Action sdk.State (Unit {0})
  unfolding refuse
  rest_of_delete force failure v = do
    refuse failure
    found ← has_snapshots sdk v
    delete_unless found.1 force found.0

  -- The error of the call is overwritten by that of `aiToClientVol`, which sees the nil answer.
  unfoldable pub delete_volume : String → Bool → Action sdk.State (Unit {0})
  unfolding rest_of_delete
  delete_volume name force = do
    reply ← (λ s. let (r, t) = sdk.get_app_instance name s in (ok r, t))
    v ← ai_to_client_vol sdk reply.value false false
    rest_of_delete force reply.api_error v
