-- ===== src/Json.antt =====
-- The Python values that `json.loads` returns, and `dict.get` on them. A number with a fraction or
-- an exponent is kept as its text, since no code here computes with one.
use nebula_ca_harness.Prelude.{ℕ, String, Bool, List, [], ◌∷◌, ◌==◌, string_eq, if◌then◌else◌}

-- `negsuc n` is -(n + 1).
pub data ℤ : Type 0 where
  pos : ℕ → ℤ
  negsuc : ℕ → ℤ

mutual
  pub data Fields : Type 0 where
    end : Fields
    field : String → Value → Fields → Fields

  pub data Items : Type 0 where
    nil : Items
    cons : Value → Items → Items

  pub data Value : Type 0 where
    obj : Fields → Value
    arr : Items → Value
    null : Value
    bool : Bool → Value
    str : String → Value
    int : ℤ → Value
    float : String → Value

-- `d.get(key)`: a missing key gives `None`, as a JSON `null` does.
unfoldable pub get : Fields → String → Value
get end key = null
get (field k v d) key = if k == key then v else get d key

abbrev pub elements : Items → List Value
elements nil = []
elements (cons v vs) = v ∷ elements vs
