-- ===== src/Driver/Node/Usage/Grown.antt =====
-- What is known once `NodeExpandVolume` succeeds.
use datera_csi.Base.{String, ◌≡◌, refl, some, false, Bool-cases, inl, inr}
use mathlib.Core.Path.{subst}
use datera_csi.Base.Int.{eqb_ℤ, ℤ, pos, quot_ℤ, gib}
use datera_csi.Base.Dict.{Dict, get}
use datera_csi.Base.Go.Outcomes.{Ends, bind-Ends, skip-Ends, here-Ends, on_error-Ends}
use datera_csi.Base.Go.{
  not_found, unknown, failed_precondition, Result, ok, err, panic, pure, on_error, ◌>>=◌,
}
use datera_csi.Client.Sdk.{Sdk}
use datera_csi.Client.Volume.{Volume, get_volume, get_metadata}
use datera_csi.Client.Host.{Host, remote, local}
use datera_csi.Client.Mount.{device_from_mount}
use datera_csi.Client.ExpandFs.{check_device_size, expand_fs, expand_volume_fs}
use datera_csi.Client.ExpandFs.Sizes.{Settled, check_rounds-accepts}
use datera_csi.Driver.Env.{Env, as_code}
use datera_csi.Driver.CreateVolume.{CapacityRange, fill_limit}
use datera_csi.Driver.Node.Stage.Steps.{local-Ends_state}
use datera_csi.Driver.Node.Usage.{node_expand_body}

module _ (host : Host) where
  -- The last that was done was to grow the file system of a device, right after its size was read and
  -- accepted for the requested one.
  abbrev pub Grows : ℤ → host.State → Type 0
  Grows size t =
      (device : String) × (fs : String) × (w : host.State) × Settled host device size w
      × (expand_fs host device fs w ≡ (ok tt, t))

  expand_volume_fs-Grows :
      (path fs : String) (size : ℤ) (s : host.State)
      → Ends
          (λ (_ : Unit {0}) (t : host.State). Grows size t)
          (expand_volume_fs host path fs size s)
  unfolding expand_volume_fs check_device_size
  expand_volume_fs-Grows path fs size s =
      let Q = λ (_ : Unit {0}) (t : host.State). Grows size t in
      let check = check_device_size host in
      skip-Ends Q (device_from_mount host path)
        (λ device. check device size >>= λ _. expand_fs host device fs) s
        (λ device t.
          bind-Ends (λ (u : Unit {0}) (w : host.State). check device size t ≡ (ok u, w)) Q
            (check device size) (λ _. expand_fs host device fs) t (here-Ends (check device size) t)
            (λ _ w e.
              grown device w (check_rounds-accepts host device 60 size t w e)
                (expand_fs host device fs w) refl))
    where
      grown :
          (device : String) (w : host.State)
          → Settled host device size w
          → (p : Result (Unit {0}) × host.State) → expand_fs host device fs w ≡ p
          → Ends (λ (_ : Unit {0}) (t : host.State). Grows size t) p
      grown device w h (ok u, t) e = (device, fs, w, h, e)
      grown device w h (err x, t) e = tt
      grown device w h (panic, t) e = tt

required_kept : (cr : CapacityRange) → (fill_limit cr).required ≡ cr.required
unfolding fill_limit
required_kept cr = elim (Bool-cases (eqb_ℤ cr.limit (pos 0))) [
  | inl y ↦ rw (fill_limit, y)
  | inr y ↦ rw (fill_limit, y)
]

module _ (sdk : Sdk) (host : Host) (env : Env) where
  abbrev Site : Type 0
  Site = sdk.State × host.State

  expand-Grows :
      (volume_id path : String) (cr : CapacityRange) (s : sdk.State × host.State)
      → Ends
          (λ (n : ℤ) (t : sdk.State × host.State).
            (n ≡ (fill_limit cr).required)
            × Grows host (quot_ℤ (fill_limit cr).required (pos gib)) t.1)
          (node_expand_body sdk host env volume_id path (some cr) s)
  unfolding node_expand_body
  expand-Grows volume_id path cr s =
      let size = quot_ℤ (fill_limit cr).required (pos gib) in
      let Q = λ (n : ℤ) (t : Site). (n ≡ (fill_limit cr).required) × Grows host size t.1 in
      let read =
        on_error (as_code env not_found) (remote sdk host (get_volume sdk volume_id false false)) in
      let md_of =
        λ (v : Volume). on_error (as_code env unknown) (remote sdk host (get_metadata sdk v)) in
      let m = λ (md : Dict String). expand_volume_fs host path (get "fs_type" md) size in
      let grow =
        λ (md : Dict String). on_error (as_code env failed_precondition) (local sdk host (m md)) in
      let last = λ (_ : Unit {0}). pure {S = Site} (fill_limit cr).required in
      skip-Ends Q read (λ v. md_of v >>= λ md. grow md >>= last) s
        (λ v t.
          skip-Ends Q (md_of v) (λ md. grow md >>= last) t
            (λ md u.
              let R = λ (_ : Unit {0}) (w : Site). Grows host size w.1 in
              bind-Ends R Q (grow md) last u
                (on_error-Ends R (as_code env failed_precondition) (local sdk host (m md)) u (
                  local-Ends_state sdk host (λ (_ : Unit {0}) (w : host.State). Grows host size w)
                    (m md) u (expand_volume_fs-Grows host path (get "fs_type" md) size u.1)))
                (λ _ w h. (refl, h))))

  -- Expanding a volume, if it succeeds, reports the bytes that were required, and ends by growing the
  -- file system of a device. The size that was read of the device right before that is the required one
  -- in whole GiB, given in bytes, or that multiplied once more by 2^30, or 0.
  pub node_expand_body-Grows :
      (volume_id path : String) (cr : CapacityRange) (s : sdk.State × host.State)
      → Ends
          (λ (n : ℤ) (t : sdk.State × host.State).
            (n ≡ cr.required) × Grows host (quot_ℤ cr.required (pos gib)) t.1)
          (node_expand_body sdk host env volume_id path (some cr) s)
  node_expand_body-Grows volume_id path cr s =
      subst
        (λ (r : ℤ).
          Ends
            (λ (n : ℤ) (t : sdk.State × host.State). (n ≡ r) × Grows host (quot_ℤ r (pos gib)) t.1)
            (node_expand_body sdk host env volume_id path (some cr) s))
        (required_kept cr) (expand-Grows volume_id path cr s)
