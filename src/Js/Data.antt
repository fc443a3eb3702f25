-- ===== src/Js/Data.antt =====
-- JavaScript values. A finite number stands for a multiple of 10^-12; `object` says whether its
-- prototype is `Object.prototype` or null (a plain object), and lists its own properties.
use tenant_trust.Common.{ℕ, ◌*◌, String, Bool}
use tenant_trust.Common.Int.{ℤ}

pub data Num : Type 0 where
  finite : ℤ → Num
  infinite : Bool → Num
  nan : Num

mutual
  pub data Value : Type 0 where
    undefined : Value
    null : Value
    boolean : Bool → Value
    number : Num → Value
    string : String → Value
    array : Items → Value
    object : Bool → Fields → Value

  pub data Items : Type 0 where
    nil : Items
    cons : Value → Items → Items

  pub data Fields : Type 0 where
    end : Fields
    field : String → Value → Fields → Fields

-- The number 1.
abbrev pub one : ℕ
one = 1_000_000_000_000

abbrev pub points : ℕ → ℕ
points n = n * one
