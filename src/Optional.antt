-- ===== src/Optional.antt =====
-- optional.go: the three states of a write field. The constructors are the zero Optional, SetNull
-- and Set; json.Marshal at the value's type is a parameter.
use ynab_go.Base.{Bool, true, false, Option, none, some, Bytes, codes}

pub data Optional (T : Type 0) : Type 0 where
  unset : Optional T
  set_null : Optional T
  set : T → Optional T

module _ {T : Type 0} where
  -- `Get`, with `none` for false.
  unfoldable pub get : Optional T → Option T
  get unset = none
  get set_null = none
  get (set v) = some v

  -- `IsZero`: what omitzero leaves out.
  unfoldable pub is_zero : Optional T → Bool
  is_zero unset = true
  is_zero _ = false

  -- `IsNull`.
  unfoldable pub is_null : Optional T → Bool
  is_null set_null = true
  is_null _ = false

  -- `MarshalJSON`.
  unfoldable pub marshal : (T → Option Bytes) → Optional T → Option Bytes
  marshal encode unset = some (codes "null")
  marshal encode set_null = some (codes "null")
  marshal encode (set v) = encode v
