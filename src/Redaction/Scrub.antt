-- ===== src/Redaction/Scrub.antt =====
-- `scrub`: the addresses, the serial and the fields that are known by name, at any depth.
use ha_wattpilot.Base.{
  ℕ, zero, suc, ◌-◌, Bool, true, false, not, ◌&&◌, Option, none, some, List, [], ◌∷◌, ◌++◌, Text,
  codes, if◌then◌else◌, ◌==◌, drop, length, or_default,
}
use ha_wattpilot.Json.{
  Value, null, bool, int, float, text, list, dict, namespace, Items, nil, cons, Dict, end, entry,
  get, truthy,
}
use ha_wattpilot.Entities.{starts_with}
use ha_wattpilot.Entities.Identity.{is_among}

-- The compiled patterns, which Python's `re` matches.
pub data Pattern : Type 0 where
  mac_re ipv4_candidate ipv6_candidate : Pattern

-- Python's `str.lower`, the `sub` of a pattern with what replaces a match, and the version that
-- `ipaddress.ip_address` reads, `none` being a ValueError.
pub record TextLibrary : Type 0 where
  pub lower : Text → Text
  pub sub : Pattern → (Text → Text) → Text → Text
  pub ip_version : Text → Option ℕ

unfoldable pub mac_sentinel : Text
mac_sentinel = codes "xx:xx:xx:xx:xx:xx"

unfoldable pub redacted : Value
redacted = text (codes "<redacted>")

unfoldable pub net_fields : List Text
net_fields =
    codes "ip"
    ∷ codes "gw"
    ∷ codes "gateway"
    ∷ codes "netmask"
    ∷ codes "subnet"
    ∷ codes "dns"
    ∷ codes "dns0"
    ∷ codes "dns1"
    ∷ codes "dns2"
    ∷ codes "ssid"
    ∷ codes "bssid"
    ∷ codes "ipv6"
    ∷ codes "resolv"
    ∷ []

unfoldable pub secret_fields : List Text
secret_fields = codes "key" ∷ codes "password" ∷ codes "pass" ∷ []

unfoldable pub net_replacements : Dict
unfolding mac_sentinel redacted
net_replacements = entry (codes "ssid") (text (codes "TestNet")) (
    entry (codes "bssid") (text mac_sentinel) (
      entry (codes "ipv6") (list (cons (text (codes "2001:db8::1")) nil))
        (entry (codes "resolv") redacted end)))

unfoldable pub safe_address_values : List Text
safe_address_values =
    []
    ∷ codes "0.0.0.0"
    ∷ codes "255.255.255.0"
    ∷ codes "192.0.2.1"
    ∷ codes "::"
    ∷ codes "0:0:0:0:0:0:0:0"
    ∷ []

unfoldable pub is_safe_address : Value → Bool
unfolding is_among safe_address_values
is_safe_address null = true
is_safe_address (list nil) = true
is_safe_address (text s) = is_among s safe_address_values
is_safe_address _ = false

-- `text.split("%")[0]`
unfoldable pub before_percent : Text → Text
before_percent [] = []
before_percent (c ∷ s) = let rest = before_percent s in if c == b'%' then [] else c ∷ rest

-- `text.replace(old, new)`; the number counts the code points of a match that are still to skip.
unfoldable pub replace_from : Text → Text → ℕ → Text → Text
unfolding starts_with
replace_from old new skipped [] = []
replace_from old new (suc skipped) (c ∷ s) = replace_from old new skipped s
replace_from old new zero (c ∷ s) =
    let next = replace_from old new (length old - 1) s in
    let rest = replace_from old new 0 s in if starts_with old (c ∷ s) then new ++ next else c ∷ rest

unfoldable pub stand_in : Value → Value → Value
stand_in value replacement = if truthy value then replacement else value

abbrev pub is_flag : Value → Bool
is_flag (bool _) = true
is_flag _ = false

-- What takes the place of a field with this name, when one has to.
unfoldable pub net_replacement : Text → Value
unfolding net_replacements
net_replacement name = or_default (get name net_replacements) (text (codes "192.0.2.1"))

module _ (py : TextLibrary) where
  unfoldable pub documentation_address : Text → Text
  unfolding before_percent is_among safe_address_values
  documentation_address s = elim (py.ip_version (before_percent s)) [
    | none ↦ s
    | some version ↦
        if is_among s safe_address_values
        then s
        else if version == 6
        then codes "2001:db8::1"
        else codes "192.0.2.1"
  ]

  unfoldable pub replace_serial : Option Text → Text → Text
  unfolding replace_from
  replace_serial none s = s
  replace_serial (some []) s = s
  replace_serial (some (c ∷ cs)) s = replace_from (c ∷ cs) (codes "123456") 0 s

  unfoldable pub scrub_text : Option Text → Text → Text
  unfolding documentation_address mac_sentinel replace_serial
  scrub_text serial s = py.sub ipv6_candidate documentation_address (
      py.sub ipv4_candidate documentation_address
        (replace_serial serial (py.sub mac_re (λ found. mac_sentinel) s)))

  -- `key.lower().removeprefix("static")`
  unfoldable pub field_name : Text → Text
  unfolding starts_with
  field_name key = let s = py.lower key in if starts_with (codes "static") s then drop 6 s else s

  -- `_field_replacement`, with `none` for `_KEEP`.
  unfoldable pub field_replacement : Text → Value → Option Value
  unfolding is_among secret_fields net_fields stand_in is_safe_address net_replacement redacted
      field_name
  field_replacement key value =
      let name = field_name key in
      if is_among name secret_fields && not (is_flag value)
      then some (stand_in value redacted)
      else if is_among name net_fields && not (is_safe_address value)
      then some (net_replacement name)
      else none

module _ (py : TextLibrary) (serial : Option Text) where
  unfoldable mutual
    unfolding scrub_text field_replacement

    pub scrub : Value → Value
    scrub null = null
    scrub (bool b) = bool b
    scrub (int z) = int z
    scrub (float x) = float x
    scrub (text s) = text (scrub_text py serial s)
    scrub (list vs) = list (scrub_items vs)
    scrub (dict d) = dict (scrub_fields d)
    scrub (namespace d) = namespace d

    pub scrub_items : Items → Items
    scrub_items nil = nil
    scrub_items (cons v vs) = cons (scrub v) (scrub_items vs)

    pub scrub_fields : Dict → Dict
    scrub_fields end = end
    scrub_fields (entry k v d) =
        entry k (or_default (field_replacement py k (scrub v)) (scrub v)) (scrub_fields d)
