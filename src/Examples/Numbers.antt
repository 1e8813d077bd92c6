-- ===== src/Examples/Numbers.antt =====
-- Numbers with their usual comparison, for the examples.
use Prim.Native.Nat.{compare}
use vlib.Base.{ℕ, arith}
use vlib.Cmp.{CmpFn, IsCmp}

abbrev pub nat_cmp : CmpFn ℕ
nat_cmp a b = compare a b

pub nat_cmp-IsCmp : IsCmp nat_cmp
nat_cmp-IsCmp = record { exchange = λ a b. ground arith; trans = λ a b c p q. ground arith }
