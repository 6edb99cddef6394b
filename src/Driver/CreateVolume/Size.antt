-- ===== src/Driver/CreateVolume/Size.antt =====
-- The size of a new volume against the range that was asked for, and what a repeated call finds.
use datera_csi.Base.{
  String, true, false, refl, inl, inr, Bool-cases, str_eq, ◌∙◌, ℕ, ◌+◌, ◌*◌, ◌/◌, ◌%◌, ◌^◌, ◌≤◌,
  ◌<◌, ◌≡◌, some, arith, ltb, not, if◌then◌else◌, ◌==◌,
}
use datera_csi.Base.Int.{ℤ, pos, wrap64-eq_self, quot_ℤ, gib, mul-pos}
use datera_csi.Driver.CreateVolume.{
  CapacityRange, CreateVolumeRequest, fill_limit, volume_size, to_bytes, mismatch, default_size,
  no_source, create_body,
}
use datera_csi.Base.Go.{ok, err, status, already_exists}
use datera_csi.Common.Name.{gen_name}
use datera_csi.Client.Sdk.{Sdk}
use datera_csi.Client.Volume.{Volume, get_volume}
use datera_csi.Driver.Env.{Env}
use datera_csi.Driver.CreateVolume.Existing.{existing_answer, create_body_existing}

-- The range that the controller works with, for the sizes of a request.
abbrev pub asked : ℕ → ℕ → CapacityRange
asked required limit = fill_limit (record { required = pos required; limit = pos limit })

-- A volume of n GiB has n * 2^30 bytes, if these fit an int64.
pub to_bytes-pos : (n : ℕ) → n * gib < 2 ^ 63 → to_bytes (pos n) ≡ pos (n * gib)
unfolding to_bytes
to_bytes-pos n h = rw (mul-pos, wrap64-eq_self (pos (n * gib)) h)

volume_size-pos :
    (required : ℤ) (l : ℕ)
    → volume_size (some (record { required = required; limit = pos l }))
      ≡ pos (if ltb l gib then default_size else l / gib)
unfolding volume_size quot_ℤ
volume_size-pos required l = ground arith

-- The bytes of a new volume, for a limit of l bytes: the whole GiB of the limit, and 16 GiB where it
-- has none, whatever the required size is.
pub created_bytes :
    (required : ℤ) (l : ℕ)
    → l < 2 ^ 63
    → to_bytes (volume_size (some (record { required = required; limit = pos l })))
      ≡ pos (if ltb l gib then 16 * gib else l / gib * gib)
created_bytes required l h =
    rw
      (
        volume_size-pos required l,
        to_bytes-pos (if ltb l gib then default_size else l / gib) (ground arith),
      )
      (ground arith)

-- A new volume of a limit of at least 1 GiB and below 2^63 bytes never exceeds the limit, and falls
-- short of it by less than 1 GiB, whatever the required size is.
pub created_within :
    (required : ℤ) (l : ℕ)
    → l < 2 ^ 63
    → gib ≤ l
    → (n : ℕ) × (to_bytes (volume_size (some (record { required = required; limit = pos l })))
        ≡ pos n)
      × (n ≤ l)
      × (l < n + gib)
created_within required l h k =
    (l / gib * gib, rw (created_bytes required l h) (ground arith), omega arith, omega arith)

-- Whether a repeated request fits the volume that the first one made: for a required size above 0 and
-- below 2^63 bytes and no limit, it does exactly if the size is a whole number of GiB.
pub repeat_fits :
    (r : ℕ)
    → 0 < r
    → r < 2 ^ 63
    → mismatch (some (asked r 0)) (to_bytes (volume_size (some (asked r 0)))) ≡ not (r % gib == 0)
unfolding mismatch fill_limit
repeat_fits r p h = rw (created_bytes (pos r) r h) (ground arith)

-- The bytes of a volume for a required size of whole GiB.
whole_bytes :
    (r : ℕ)
    → 0 < r
    → r < 2 ^ 63
    → (r % gib == 0) ≡ true
    → to_bytes (volume_size (some (asked r 0))) ≡ pos r
unfolding fill_limit
whole_bytes r p h e = rw (created_bytes (pos r) r h) (ground (arith, p, e))

-- A volume of the size that a request makes is found again, for a request with a name, a required size
-- above 0 and below 2^63 bytes and no limit. The body of the call answers with the volume if the size is a
-- whole number of GiB, and with AlreadyExists if it is not.
pub repeat_answer :
    (sdk : Sdk) (env : Env) (req : CreateVolumeRequest) (id : String) (vol : Volume)
    (s t : sdk.State) (r : ℕ)
    → 0 < r
    → r < 2 ^ 63
    → req.capacity ≡ some (record { required = pos r; limit = pos 0 })
    → vol.size ≡ volume_size (some (asked r 0))
    → str_eq req.name "" ≡ false
    → gen_name env.rune_cap env.fresh_id req.name ≡ ok id
    → get_volume sdk id false false s ≡ (ok vol, t)
    → create_body sdk env req s ≡ (
      (if r % gib == 0
          then ok (record { capacity_bytes = pos r; volume_id = vol.name; content = no_source })
          else err (status already_exists "Requested volume exists, but has a different size")),
      t,
    )
unfolding existing_answer
repeat_answer sdk env req id vol s t r p h cap size named gen found =
    create_body_existing sdk env req id vol s t named gen found
    ∙ rw (cap, size)
        (elim (Bool-cases (r % gib == 0)) [
          | inl y ↦ rw (repeat_fits r p h, y, whole_bytes r p h y) refl
          | inr n ↦ rw (repeat_fits r p h, n) refl
        ])
