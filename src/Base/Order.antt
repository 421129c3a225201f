-- ===== src/Base/Order.antt =====
-- A strict total order given by a Boolean test, such as a `Less` method.
use mathlib.Core.Path.{◌≡◌}
use mathlib.Core.Bool.{Bool, true, false}
use gobol.Base.Text.{str_lt, str_lt-asymm, str_lt_trans, str_lt-total}

pub record IsStrictOrder {ℓ} {K : Type ℓ} (less : K → K → Bool) : Type ℓ where
  pub asymm : (a b : K) → less a b ≡ true → less b a ≡ false
  pub trans : (a b c : K) → less a b ≡ true → less b c ≡ true → less a c ≡ true
  pub total : (a b : K) → less a b ≡ false → less b a ≡ false → a ≡ b

pub str_lt-IsStrictOrder : IsStrictOrder str_lt
str_lt-IsStrictOrder = record { asymm = str_lt-asymm; trans = str_lt_trans; total = str_lt-total }
