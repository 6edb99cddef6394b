-- ===== src/Client/Policy/Caps.antt =====
-- The total limits of a volume's traffic.
use datera_csi.Base.{
  ℕ, ◌*◌, ◌^◌, ◌<◌, ◌≤◌, ◌≡◌, ◌⊎◌, inl, inr, refl, Bool-cases, arith, ltb, ◌==◌, if◌then◌else◌,
}
use datera_csi.Base.Int.{ℤ, pos, mul-pos, wrap64-eq_self}
use datera_csi.Client.Policy.{VolOpts, capped, policy_of}

-- The least of two numbers.
abbrev pub LeastOf : ℕ → ℕ → ℤ → Type 0
LeastOf a b t = (n : ℕ) × (t ≡ pos n) × (n ≤ a) × (n ≤ b) × ((n ≡ a) ⊎ (n ≡ b))

-- A limit, and a rate for each GiB of a size: a rate of 0 is none.
abbrev pub IsCap : ℕ → ℕ → ℕ → ℤ → Type 0
IsCap max rate size t = ((rate ≡ 0) × (t ≡ pos max)) ⊎ ((0 < rate) × LeastOf max (rate * size) t)

capped-pos :
    (max rate size : ℕ)
    → rate * size < 2 ^ 63
    → capped (pos max) (pos rate) (pos size)
      ≡ pos (if rate == 0 then max else if ltb (rate * size) max then rate * size else max)
unfolding capped
capped-pos max rate size h =
    rw (capped, mul-pos, wrap64-eq_self (pos (rate * size)) h) (ground arith)

least : (a b : ℕ) → LeastOf a b (pos (if ltb b a then b else a))
least a b = elim (Bool-cases (ltb b a)) [
  | inl y ↦ rw y (b, refl, ground (arith, y), omega arith, inr refl)
  | inr n ↦ rw n (a, refl, omega arith, ground (arith, n), inl refl)
]

capped-IsCap :
    (max rate size : ℕ)
    → rate * size < 2 ^ 63
    → IsCap max rate size (capped (pos max) (pos rate) (pos size))
capped-IsCap max rate size h = rw (capped-pos max rate size h) (elim (Bool-cases (rate == 0)) [
  | inl y ↦ rw y (inl (ground (arith, y), refl))
  | inr n ↦ rw n (inr (ground (arith, n), least max (rate * size)))
])

-- Each total limit of the policy is the option where the rate for each GiB is 0, and the smaller of the
-- option and the rate times the size where it is above 0, if options and size are not negative and the
-- products fit an int64. An option of 0, which stands for no limit, so stays 0 whatever the rate is.
pub policy_of-totals :
    (o : VolOpts) (iops iops_rate bandwidth bandwidth_rate size : ℕ)
    → o.total_iops_max ≡ pos iops
    → o.iops_per_gb ≡ pos iops_rate
    → o.total_bandwidth_max ≡ pos bandwidth
    → o.bandwidth_per_gb ≡ pos bandwidth_rate
    → o.size ≡ pos size
    → iops_rate * size < 2 ^ 63
    → bandwidth_rate * size < 2 ^ 63
    → IsCap iops iops_rate size (policy_of o).total_iops_max
      × IsCap bandwidth bandwidth_rate size (policy_of o).total_bandwidth_max
unfolding policy_of
policy_of-totals o iops iops_rate bandwidth bandwidth_rate size a b c d e h k = (
  rw (a, b, e) (capped-IsCap iops iops_rate size h),
  rw (c, d, e) (capped-IsCap bandwidth bandwidth_rate size k),
)
