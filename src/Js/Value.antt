-- ===== src/Js/Value.antt =====
-- The values themselves: property access, truthiness, `||`, `??`, `typeof`.
use account_abstraction.Base.{
  ◌≡◌, ◌↔◌, arith, eq_iff, ℕ, zero, suc, String, Bool, true, false, not, List, [], ◌∷◌, ◌==◌,
  if◌then◌else◌, nat_beq,
}

-- `negsuc n` is -(n + 1).
pub data ℤ : Type 0 where
  pos : ℕ → ℤ
  negsuc : ℕ → ℤ

abbrev pub int_beq : ℤ → ℤ → Bool
int_beq (pos a) (pos b) = nat_beq a b
int_beq (negsuc a) (negsuc b) = nat_beq a b
int_beq _ _ = false

-- `int` and `frac` are numbers (`frac` keeps the text of one that is no integer), `big` is a bigint.
mutual
  pub data Value : Type 0 where
    undefined null nan : Value
    bool : Bool → Value
    int : ℤ → Value
    frac : String → Value
    big : ℤ → Value
    str : String → Value
    obj : Fields → Value
    arr : Items → Value

  -- the properties of an object, in their order
  pub data Fields : Type 0 where
    end : Fields
    field : String → Value → Fields → Fields

  -- the elements of an array
  pub data Items : Type 0 where
    nil : Items
    cons : Value → Items → Items

abbrev pub items : Items → List Value
items nil = []
items (cons v vs) = v ∷ items vs

abbrev pub from_items : List Value → Items
from_items [] = nil
from_items (v ∷ vs) = cons v (from_items vs)

abbrev pub field_of : String → Fields → Value
field_of k end = undefined
field_of k (field j v fs) = if j == k then v else field_of k fs

abbrev pub is_nullish : Value → Bool
is_nullish undefined = true
is_nullish null = true
is_nullish _ = false

abbrev pub is_undefined : Value → Bool
is_undefined undefined = true
is_undefined _ = false

-- `Boolean(v)`
abbrev pub truthy : Value → Bool
truthy undefined = false
truthy null = false
truthy nan = false
truthy (bool b) = b
truthy (int (pos zero)) = false
truthy (int _) = true
truthy (frac _) = true
truthy (big (pos zero)) = false
truthy (big _) = true
truthy (str s) = not (s == "")
truthy (arr _) = true
truthy (obj _) = true

-- `a || b` and `a ?? b`
abbrev pub or_else : Value → Value → Value
or_else a b = if truthy a then a else b

abbrev pub nullish_or : Value → Value → Value
nullish_or a b = if is_nullish a then b else a

-- `v?.k`, and `v.k` where `v` is known not to be null or undefined. The program reads no built-in
-- property of a text, a number or an array this way.
abbrev pub opt_get : Value → String → Value
opt_get (obj fs) k = field_of k fs
opt_get _ k = undefined

-- `typeof v === "object"`, which holds of null and of arrays too
abbrev pub is_object : Value → Bool
is_object null = true
is_object (arr _) = true
is_object (obj _) = true
is_object _ = false

abbrev pub is_string : Value → Bool
is_string (str _) = true
is_string _ = false

-- `Number.isInteger(v)`
abbrev pub is_integer : Value → Bool
is_integer (int _) = true
is_integer _ = false

-- `v === "text"`
abbrev pub is_text : Value → String → Bool
is_text (str s) t = s == t
is_text _ t = false

abbrev pub text_of : Value → String
text_of (str s) = s
text_of _ = ""

-- `[a, b]` of an array of values
abbrev pub element : ℕ → Items → Value
element i nil = undefined
element zero (cons v vs) = v
element (suc i) (cons v vs) = element i vs

pub is_text_iff : (v : Value) (t : String) → (is_text v t ≡ true) ↔ (v ≡ str t)
is_text_iff (str s) t = ground (arith, eq_iff s t)
is_text_iff v t = ground arith
