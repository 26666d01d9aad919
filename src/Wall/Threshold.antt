-- ===== src/Wall/Threshold.antt =====
-- The threshold that the token of a ticket is measured against (exp/onl/thr/thr.go and phi.go).
use dd.Base.{ℕ, ◌-◌, ◌^◌, Bool, Result, ok, ◌>>=◌, ◌>>◌, panic, fail_if, or_panic, ltb, length}
use dd.Base.Bytes.{Bytes}
use dd.Externals.{Decimals}
use dd.Block.{set_bytes}

module _ ⦃d : Decimals⦄ where
  -- `base`
  unfoldable pub base : d.Decimal → Result d.Decimal
  base f = or_panic (d.sub (d.whole 1) f) "thr/base"

  -- `alpha`
  unfoldable pub alpha : ℕ → ℕ → Result d.Decimal
  alpha a total = do
    fail_if (ltb total a) (panic "the total stake should be larger then the identity's stake")
    or_panic (d.quo (d.whole a) (d.whole total)) "thr/alpha"

  -- `Phi`
  unfoldable pub phi : d.Decimal → ℕ → ℕ → Result d.Decimal
  unfolding base alpha
  phi f a total = do
    b ← base f
    e ← alpha a total
    p ← or_panic (d.pow b e) "thr/phi"
    or_panic (d.sub (d.whole 1) p) "thr/phi"

  -- `Dec`: the token over the greatest number of its length
  unfoldable pub dec : Bytes → Result d.Decimal
  dec t = or_panic (d.quo (d.whole (set_bytes 0 t)) (d.whole (256 ^ length t - 1))) "thr/dec"

  -- `Thr`
  unfoldable pub thr : d.Decimal → ℕ → ℕ → Bytes → Result Bool
  unfolding phi dec
  thr f a total t = do p ← phi f a total; y ← dec t; ok (d.less y p)
