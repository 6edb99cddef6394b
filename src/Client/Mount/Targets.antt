-- ===== src/Client/Mount/Targets.antt =====
-- What a mount leaves in the volume.
use datera_csi.Base.{
  true, Option, none, some, [], ◌∷◌, ◌<>◌, eq_refl, arith, String, ◌≡◌, refl, List, str_eq,
}
use datera_csi.Base.Go.Outcomes.{Ends, skip-Ends}
use datera_csi.Base.Go.{plain, pure, fail_if, ◌>>=◌}
use datera_csi.Client.Volume.{Volume, add_to_set}
use datera_csi.Client.Mount.Binds.{is_bound}
use datera_csi.Client.Host.{Host}
use datera_csi.Client.Mount.{bound, bind_mount, mount, mount_volume, not_logged_in}

-- A mount that returns leaves its target in the volume.
pub mount_volume-Ends :
    (host : Host) (vol : Volume) (dest : String) (options : List String) (fs : String)
    (s : host.State)
    → Ends
        (λ (v : Volume) (_ : host.State). v.mount_path ≡ dest)
        (mount_volume host vol dest options fs s)
unfolding mount_volume
mount_volume-Ends host vol dest options fs s =
    let Q = λ (v : Volume) (_ : host.State). v.mount_path ≡ dest in
    let last = λ (_ : Unit {0}). pure {S = host.State} (record vol { mount_path = dest }) in
    skip-Ends Q (fail_if (str_eq vol.device_path "") (not_logged_in vol))
      (λ _. mount host vol.device_path dest options fs >>= last) s
      (λ _ t. skip-Ends Q (mount host vol.device_path dest options fs) last t (λ _ u. refl))

-- A bind mount that returns leaves the new path in the volume's set, and the app instance.
pub bind_mount-Ends :
    (host : Host) (vol : Volume) (dest fs : String) (s : host.State)
    → Ends
        (λ (v : Volume) (_ : host.State).
          (v.bind_mount_paths ≡ some (bound dest vol.bind_mount_paths)) × (v.ai ≡ vol.ai))
        (bind_mount host vol dest fs s)
unfolding bind_mount
bind_mount-Ends host vol dest fs s =
    let Q = λ (v : Volume) (_ : host.State).
      (v.bind_mount_paths ≡ some (bound dest vol.bind_mount_paths)) × (v.ai ≡ vol.ai) in
    let no_device = fail_if {S = host.State} (str_eq vol.device_path "") (not_logged_in vol) in
    let no_mount = fail_if {S = host.State} (str_eq vol.mount_path "") (
      plain (
        "Mount path doesn't exist for volume "
        <> (vol.name <> ", cannot bind-mount an unmounted volume"))) in
    let run = mount host vol.mount_path dest ("--bind" ∷ []) fs in
    let last = λ (_ : Unit {0}).
      pure {S = host.State}
        (record vol { bind_mount_paths = some (bound dest vol.bind_mount_paths) }) in
    skip-Ends Q no_device (λ _. no_mount >>= λ _. run >>= last) s
      (λ _ t.
        skip-Ends Q no_mount (λ _. run >>= last) t
          (λ _ u. skip-Ends Q run last u (λ _ w. (refl, refl))))

is_bound-add_to_set : (x : String) (ys : List String) → is_bound x (add_to_set x ys) ≡ true
unfolding is_bound add_to_set
is_bound-add_to_set x [] = rw (eq_refl x)
is_bound-add_to_set x (y ∷ ys) = ground (arith, is_bound-add_to_set x ys)

-- The set has the path that was bound.
pub is_bound-bound :
    (dest : String) (known : Option (List String)) → is_bound dest (bound dest known) ≡ true
unfolding bound is_bound
is_bound-bound dest none = rw (eq_refl dest)
is_bound-bound dest (some paths) = is_bound-add_to_set dest paths
