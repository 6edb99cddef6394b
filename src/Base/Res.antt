-- ===== src/Base/Res.antt =====
-- Chains of fallible steps without a state.
use datera_csi.Base.Go.{Result, ok, err, panic}

infixl 5 ◌>>=◌
abbrev pub ◌>>=◌ {ℓ κ} : {A : Type ℓ} {B : Type κ} → Result A → (A → Result B) → Result B
ok a >>= f = f a
err e >>= f = err e
panic >>= f = panic
