-- ===== src/Json/Equality.antt =====
-- Python's `==` on the values of a payload. A bool is a number, and a dict has no order.
use ha_wattpilot.Base.{
  Bool, true, false, ◌&&◌, Option, none, some, text_eq, ◌==◌, if◌then◌else◌, ℕ, suc,
}
use ha_wattpilot.Json.Data.{
  Value, null, text, list, dict, namespace, Items, nil, cons, Dict, end, entry, Float,
}
use ha_wattpilot.Json.Lookup.{get}
use ha_wattpilot.Json.Numbers.{as_number, float_le}

unfoldable pub dict_size : Dict → ℕ
dict_size end = 0
dict_size (entry _ _ d) = suc (dict_size d)

unfoldable pub number_eq : Option Float → Option Float → Bool
number_eq (some x) (some y) = float_le x y && float_le y x
number_eq _ _ = false

unfoldable mutual
  unfolding get number_eq as_number dict_size

  pub value_eq : Value → Value → Bool
  value_eq null null = true
  value_eq (text s) (text t) = text_eq s t
  value_eq (list vs) (list ws) = items_eq vs ws
  value_eq (dict d) (dict e) = dict_size d == dict_size e && is_contained d e
  value_eq (namespace d) (namespace e) = dict_size d == dict_size e && is_contained d e
  value_eq v w = number_eq (as_number v) (as_number w)

  pub items_eq : Items → Items → Bool
  items_eq nil nil = true
  items_eq (cons v vs) (cons w ws) =
      let rest = items_eq vs ws in if value_eq v w then rest else false
  items_eq _ _ = false

  -- Every entry of the first is one of the second.
  pub is_contained : Dict → Dict → Bool
  is_contained end e = true
  is_contained (entry k v d) e =
      let rest = is_contained d e in
      (elim (get k e) [ some w ↦ value_eq v w | none ↦ false ]) && rest
