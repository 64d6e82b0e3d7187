-- ===== src/Json/Namespaces.antt =====
-- The second parse of a frame makes a namespace of every object (`object_hook`), and `_plain_json`
-- of api/client.py turns it back.
use ha_wattpilot.Base.{◌≡◌, refl, ap, Bool, true, false, ◌&&◌, arith}
use ha_wattpilot.Json.Data.{
  Value, null, bool, int, float, text, list, dict, namespace, Items, nil, cons, Dict, end, entry,
}

-- `json.loads(raw, object_hook=lambda d: SimpleNamespace(**d))`, on what `json.loads(raw)` gives.
unfoldable mutual
  pub as_namespaces : Value → Value
  as_namespaces null = null
  as_namespaces (bool b) = bool b
  as_namespaces (int z) = int z
  as_namespaces (float x) = float x
  as_namespaces (text s) = text s
  as_namespaces (list vs) = list (as_namespaces_items vs)
  as_namespaces (dict d) = namespace (as_namespaces_dict d)
  as_namespaces (namespace d) = namespace d

  pub as_namespaces_items : Items → Items
  as_namespaces_items nil = nil
  as_namespaces_items (cons v vs) = cons (as_namespaces v) (as_namespaces_items vs)

  pub as_namespaces_dict : Dict → Dict
  as_namespaces_dict end = end
  as_namespaces_dict (entry k v d) = entry k (as_namespaces v) (as_namespaces_dict d)

-- `_plain_json`: a plain dict is returned as it is.
unfoldable mutual
  pub plain_json : Value → Value
  plain_json null = null
  plain_json (bool b) = bool b
  plain_json (int z) = int z
  plain_json (float x) = float x
  plain_json (text s) = text s
  plain_json (list vs) = list (plain_json_items vs)
  plain_json (dict d) = dict d
  plain_json (namespace d) = dict (plain_json_dict d)

  pub plain_json_items : Items → Items
  plain_json_items nil = nil
  plain_json_items (cons v vs) = cons (plain_json v) (plain_json_items vs)

  pub plain_json_dict : Dict → Dict
  plain_json_dict end = end
  plain_json_dict (entry k v d) = entry k (plain_json v) (plain_json_dict d)

-- A value of `json.loads`: no namespace anywhere.
unfoldable mutual
  pub is_plain : Value → Bool
  is_plain null = true
  is_plain (bool b) = true
  is_plain (int z) = true
  is_plain (float x) = true
  is_plain (text s) = true
  is_plain (list vs) = is_plain_items vs
  is_plain (dict d) = is_plain_dict d
  is_plain (namespace d) = false

  pub is_plain_items : Items → Bool
  is_plain_items nil = true
  is_plain_items (cons v vs) = is_plain v && is_plain_items vs

  pub is_plain_dict : Dict → Bool
  is_plain_dict end = true
  is_plain_dict (entry k v d) = is_plain v && is_plain_dict d

mutual
  unfolding as_namespaces plain_json is_plain

  restored : (v : Value) → is_plain v ≡ true → plain_json (as_namespaces v) ≡ v
  restored null h = refl
  restored (bool b) h = refl
  restored (int z) h = refl
  restored (float x) h = refl
  restored (text s) h = refl
  restored (list vs) h = ap list (restored_items vs h)
  restored (dict d) h = ap dict (restored_dict d h)
  restored (namespace d) h = cc

  restored_items :
      (vs : Items) → is_plain_items vs ≡ true → plain_json_items (as_namespaces_items vs) ≡ vs
  restored_items nil h = refl
  restored_items (cons v vs) h = ground (arith, restored v, restored_items vs)

  restored_dict : (d : Dict) → is_plain_dict d ≡ true → plain_json_dict (as_namespaces_dict d) ≡ d
  restored_dict end h = refl
  restored_dict (entry k v d) h = ground (arith, restored v, restored_dict d)

-- Turning the namespaces of a parsed frame back into plain containers gives exactly what a plain
-- parse of the frame gives, at any depth.
pub plain_json-as_namespaces : (v : Value) → is_plain v ≡ true → plain_json (as_namespaces v) ≡ v
plain_json-as_namespaces v h = restored v h
