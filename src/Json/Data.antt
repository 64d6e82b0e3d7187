-- ===== src/Json/Data.antt =====
-- One type for the values of a dynamically typed payload.
use ha_wattpilot.Base.{ℕ, Bool, true, false, not, List, [], ◌∷◌, Text, ℤ, pos, negsuc, ◌==◌}

-- A double: `fin m k` is m / 2 ^ k, which every finite one is for some m and k.
pub data Float : Type 0 where
  fin : ℤ → ℕ → Float
  infinity neg_infinity nan : Float

mutual
  pub data Value : Type 0 where
    null : Value
    bool : Bool → Value
    int : ℤ → Value
    float : Float → Value
    text : Text → Value
    list : Items → Value
    dict : Dict → Value
    -- A `SimpleNamespace` with these attributes.
    namespace : Dict → Value

  pub data Items : Type 0 where
    nil : Items
    cons : Value → Items → Items

  -- A `dict` with text keys, in insertion order.
  pub data Dict : Type 0 where
    end : Dict
    entry : Text → Value → Dict → Dict

abbrev pub float_is_zero : Float → Bool
float_is_zero (fin (pos n) k) = n == 0
float_is_zero _ = false

-- `bool(value)`
unfoldable pub truthy : Value → Bool
truthy null = false
truthy (bool b) = b
truthy (int (pos n)) = not (n == 0)
truthy (int (negsuc n)) = true
truthy (float x) = not (float_is_zero x)
truthy (text []) = false
truthy (text (_ ∷ _)) = true
truthy (list nil) = false
truthy (list (cons _ _)) = true
truthy (dict end) = false
truthy (dict (entry _ _ _)) = true
truthy (namespace _) = true

unfoldable pub items_to_list : Items → List Value
items_to_list nil = []
items_to_list (cons v vs) = v ∷ items_to_list vs
