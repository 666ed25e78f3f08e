-- ===== src/Result.antt =====
-- `netc_result_t` of include/netc.h: a value for `NETC_OK`, or an error. `undefined_behaviour` is no code of the
-- program: it marks a run that C leaves undefined in the functions that return no context. Those that do
-- return `none` for such a run.
use netc.Prelude.{Bool, true, false}

pub data Error : Type 0 where
  nomem toobig corrupt dict_invalid buf_small ctx_null unsupported version invalid_arg : Error
  undefined_behaviour : Error

abbrev pub is_undefined : Error → Bool
is_undefined undefined_behaviour = true
is_undefined e = false

pub data Result {ℓ} (A : Type ℓ) : Type ℓ where
  ok : A → Result A
  err : Error → Result A

infixl 5 ◌>>=◌
abbrev pub ◌>>=◌ {ℓ κ} : {A : Type ℓ} {B : Type κ} → Result A → (A → Result B) → Result B
ok a >>= f = f a
err e >>= f = err e
