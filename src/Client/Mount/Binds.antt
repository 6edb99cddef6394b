-- ===== src/Client/Mount/Binds.antt =====
-- Mounting and unmounting as each other's inverse.
use datera_csi.Base.{
  String, ◌≡◌, ◌∙◌, refl, Bool, false, some, List, [], ◌∷◌, str_eq, arith, eq_refl, ◌||◌,
}
use datera_csi.Base.Go.Binds.{bind-ok, attempt-ok}
use datera_csi.Base.Go.{ok, attempt}
use datera_csi.Client.Volume.{Volume, add_to_set}
use datera_csi.Client.Host.{Host}
use datera_csi.Client.Mount.{bound, delete_from_set, unbind_mount, unmount, drop_bind}

-- The set has the path.
unfoldable pub is_bound : String → List String → Bool
is_bound x [] = false
is_bound x (y ∷ ys) = let rest = is_bound x ys in str_eq x y || rest

delete_from_set-absent :
    (x : String) (ys : List String) → is_bound x ys ≡ false → delete_from_set x ys ≡ ys
unfolding is_bound delete_from_set
delete_from_set-absent x [] h = refl
delete_from_set-absent x (y ∷ ys) h = ground (arith, delete_from_set-absent x ys)

delete_from_set-add_to_set :
    (x : String) (ys : List String)
    → is_bound x ys ≡ false
    → delete_from_set x (add_to_set x ys) ≡ ys
unfolding is_bound delete_from_set add_to_set
delete_from_set-add_to_set x [] h = rw (eq_refl x)
delete_from_set-add_to_set x (y ∷ ys) h = ground (arith, delete_from_set-add_to_set x ys)

module _ (host : Host) where
  -- A path that was not bound, bound and then unbound: if unmounting it succeeds, the volume is what it
  -- was before the path was bound.
  pub unbind_mount-bound :
      (vol : Volume) (paths : List String) (dest : String) (s t : host.State)
      → vol.bind_mount_paths ≡ some paths
      → is_bound dest paths ≡ false
      → unmount host dest s ≡ (ok tt, t)
      → unbind_mount host (record vol { bind_mount_paths = some (bound dest (some paths)) }) dest s
        ≡ (ok vol, t)
  unfolding unbind_mount bound drop_bind
  unbind_mount-bound vol paths dest s t e h k =
      bind-ok (attempt (unmount host dest))
        (drop_bind host (record vol { bind_mount_paths = some (bound dest (some paths)) }) dest) s
        (attempt-ok (unmount host dest) s k)
      ∙ rw (delete_from_set-add_to_set dest paths h, ← e)
