-- ===== src/Buffer/Errors.antt =====
-- The exceptions that the code of realhf/system/buffer.py raises, as results.
use rea_lhf.Base.{Bool, Option, false, none, some, true}

pub data Error : Type 0 where
  assertion_error index_error buffer_full attribute_error key_error : Error

pub data Result (A : Type 0) : Type 0 where
  raise : Error → Result A
  ok : A → Result A

abbrev pub or_raise : {A : Type 0} → Option A → Error → Result A
or_raise none e = raise e
or_raise (some a) e = ok a

abbrev pub guard : Bool → Error → Result (Unit {0})
guard false e = raise e
guard true e = ok tt

infixl 5 ◌>>=◌
abbrev pub ◌>>=◌ : {A B : Type 0} → Result A → (A → Result B) → Result B
raise e >>= k = raise e
ok a >>= k = k a
