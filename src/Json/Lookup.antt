-- ===== src/Json/Lookup.antt =====
-- The operations of a Python dict, and their laws.
use ha_wattpilot.Base.{
  ◌≡◌, refl, sym, Bool, Option, none, some, List, [], ◌∷◌, arith, Text, text_eq, text_eq_iff,
  if◌then◌else◌, is_some, or_default, inl, inr, text_eq_refl, Bool-cases,
}
use ha_wattpilot.Json.Data.{Value, Dict, end, entry}

-- `d.get(k)`, with `none` for a missing key.
unfoldable pub get : Text → Dict → Option Value
get k end = none
get k (entry j v d) = if text_eq j k then some v else get k d

-- `d[k] = v`
unfoldable pub insert : Text → Value → Dict → Dict
insert k v end = entry k v end
insert k v (entry j w d) = if text_eq j k then entry j v d else entry j w (insert k v d)

-- `k in d`
abbrev pub has : Text → Dict → Bool
has k d = is_some (get k d)

-- `d.get(k, default)`
abbrev pub get_else : Text → Value → Dict → Value
get_else k v d = or_default (get k d) v

-- The pairs of `d.items()`, in order.
unfoldable pub to_list : Dict → List (Text × Value)
to_list end = []
to_list (entry k v d) = (k, v) ∷ to_list d

unfoldable pub keys : Dict → List Text
keys end = []
keys (entry k v d) = k ∷ keys d

pub get-insert :
    (k j : Text) (v : Value) (d : Dict)
    → get j (insert k v d) ≡ (if text_eq k j then some v else get j d)
unfolding get insert
get-insert k j v end = refl
get-insert k j v (entry i w d) = elim (Bool-cases (text_eq i k)) [
  | inl same ↦ rw same (rw (sym ((text_eq_iff i k).0 same)) (ground arith))
  | inr other ↦
      rw other
        (ground (arith, get-insert k j v d, text_eq_iff i j, text_eq_iff k j, text_eq_iff i k))
]

pub get-insert_self : (k : Text) (v : Value) (d : Dict) → get k (insert k v d) ≡ some v
get-insert_self k v d = rw (get-insert k k v d) (rw text_eq_refl)
