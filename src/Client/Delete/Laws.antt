-- ===== src/Client/Delete/Laws.antt =====
-- The deletion of a volume with snapshots.
use datera_csi.Base.{◌∙◌, String, ◌<>◌, ◌≡◌, Bool, true, false, none, some}
use datera_csi.Base.Go.Binds.{bind-ok}
use datera_csi.Base.Go.{plain, ok, err}
use datera_csi.Client.Sdk.{AppInstance, Sdk, answer}
use datera_csi.Client.Volume.{Volume, ai_to_client_vol}
use datera_csi.Client.Snapshots.{has_snapshots}
use datera_csi.Client.Delete.{delete_volume, rest_of_delete, delete_unless}

-- If the backend has the volume and a snapshot of it is found, the deletion is refused, and no call
-- follows the listing: the backend is left in the state in which the listing left it.
pub delete_volume_refused :
    (sdk : Sdk) (name : String) (force : Bool) (ai : AppInstance) (v r : Volume)
    (s t u w : sdk.State)
    → sdk.get_app_instance name s ≡ (answer ai, t)
    → ai_to_client_vol sdk (some ai) false false t ≡ (ok v, u)
    → has_snapshots sdk v u ≡ (ok (r, true), w)
    → delete_volume sdk name force s
      ≡ (err (plain ("Volume " <> (r.name <> " cannot be deleted because it has snapshots"))), w)
unfolding delete_volume delete_unless
delete_volume_refused sdk name force ai v r s t u w e f g =
    rw (delete_volume, e)
      (bind-ok (ai_to_client_vol sdk (some ai) false false) (rest_of_delete sdk force none) t f
        ∙ bind-ok (has_snapshots sdk v) (λ found. delete_unless sdk found.1 force found.0) u g)
