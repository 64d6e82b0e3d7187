-- ===== src/Redaction/Clean.antt =====
-- What `scrub` leaves in the fields that are known by name.
use ha_wattpilot.Base.{
  ◌≡◌, refl, sym, Bool, true, false, not, ◌&&◌, ◌||◌, Option, List, [], ◌∷◌, arith, Text, codes,
  text_eq, text_eq_iff, all, or_default, Bool-cases, inl, inr,
}
use ha_wattpilot.Json.{
  Value, null, bool, int, float, text, list, dict, namespace, Items, nil, cons, Dict, end, entry,
  get, truthy,
}
use ha_wattpilot.Entities.Identity.{is_among}
use ha_wattpilot.Redaction.Called.{
  secrets, networks, is_called, is_called-secret, is_called-network,
}
use ha_wattpilot.Redaction.Scrub.{
  TextLibrary, redacted, mac_sentinel, stand_in, is_flag, net_fields, secret_fields,
  net_replacement, net_replacements, is_safe_address, safe_address_values, field_name,
  field_replacement, scrub, scrub_items, scrub_fields,
}

-- What tells of nobody's network: nothing, an address for documentation or none, and the stand-ins.
abbrev pub is_anonymous : Value → Bool
is_anonymous null = true
is_anonymous (list nil) = true
is_anonymous (list (cons (text s) nil)) = text_eq s (codes "2001:db8::1")
is_anonymous (text s) = is_among s (
    []
    ∷ codes "0.0.0.0"
    ∷ codes "255.255.255.0"
    ∷ codes "192.0.2.1"
    ∷ codes "::"
    ∷ codes "0:0:0:0:0:0:0:0"
    ∷ codes "TestNet"
    ∷ codes "xx:xx:xx:xx:xx:xx"
    ∷ codes "<redacted>"
    ∷ [])
is_anonymous _ = false

abbrev pub is_redacted : Value → Bool
is_redacted (text s) = text_eq s (codes "<redacted>")
is_redacted _ = false

module _ (py : TextLibrary) where
  -- A secret is a flag, empty, or redacted; an address or a network's name is nobody's.
  unfoldable pub is_clean_field : Text → Value → Bool
  unfolding is_called
  is_clean_field key value =
      (not (is_called py key secrets) || is_flag value || not (truthy value) || is_redacted value)
      && (not (is_called py key networks) || is_anonymous value)

  -- Every field, at any depth, is clean.
  unfoldable mutual
    unfolding is_clean_field

    pub is_clean : Value → Bool
    is_clean null = true
    is_clean (bool b) = true
    is_clean (int z) = true
    is_clean (float x) = true
    is_clean (text s) = true
    is_clean (list vs) = are_clean vs
    is_clean (dict d) = are_fields_clean d
    is_clean (namespace d) = true

    pub are_clean : Items → Bool
    are_clean nil = true
    are_clean (cons v vs) = is_clean v && are_clean vs

    pub are_fields_clean : Dict → Bool
    are_fields_clean end = true
    are_fields_clean (entry k v d) = (is_clean_field k v && is_clean v) && are_fields_clean d

-- A key that satisfies a test is none that fails it.
pub text_eq-other : (f : Text → Bool) (s t : Text) → f s ≡ true → f t ≡ false → text_eq s t ≡ false
text_eq-other f s t holds fails = elim (Bool-cases (text_eq s t)) [
  | inr other ↦ other
  | inl same ↦ let e = (text_eq_iff s t).0 same in cc
]

is_among-disjoint :
    (name : Text) (xs ys : List Text)
    → all (λ x. not (is_among x ys)) xs ≡ true
    → is_among name xs ≡ true
    → is_among name ys ≡ false
unfolding is_among
is_among-disjoint name [] ys apart h = cc
is_among-disjoint name (x ∷ xs) ys apart h = elim (Bool-cases (text_eq x name)) [
  | inl same ↦ let e = (text_eq_iff x name).0 same in rw (sym e) (ground arith)
  | inr other ↦ ground (arith, is_among-disjoint name xs ys)
]

secret-net_fields :
    (name : Text) → is_among name secret_fields ≡ true → is_among name net_fields ≡ false
unfolding is_among secret_fields net_fields text_eq
secret-net_fields name h = is_among-disjoint name secret_fields net_fields refl h

-- Whether a test holds of every value.
values_hold : (Value → Bool) → Dict → Bool
values_hold good end = true
values_hold good (entry k v d) = good v && values_hold good d

get-holds :
    (good : Value → Bool) (k : Text) (d : Dict) (default : Value)
    → values_hold good d ≡ true
    → good default ≡ true
    → good (or_default (get k d) default) ≡ true
unfolding get values_hold
get-holds good k end default h e = e
get-holds good k (entry j v d) default h e = ground (arith, get-holds good k d default)

is_safe_address-is_anonymous : (v : Value) → is_safe_address v ≡ true → is_anonymous v ≡ true
unfolding is_safe_address safe_address_values is_among
is_safe_address-is_anonymous null h = refl
is_safe_address-is_anonymous (list nil) h = refl
is_safe_address-is_anonymous (text s) h = ground (arith, h)
is_safe_address-is_anonymous _ h = cc

module _ (py : TextLibrary) where
  redacted-is_clean : is_clean py redacted ≡ true
  unfolding redacted is_clean
  redacted-is_clean = refl

  redacted-is_redacted : is_redacted redacted ≡ true
  unfolding redacted text_eq
  redacted-is_redacted = refl

  net_replacement-stands :
      (name : Text)
      → (is_anonymous (net_replacement name) ≡ true) × (is_clean py (net_replacement name) ≡ true)
  unfolding net_replacement net_replacements redacted values_hold is_among text_eq is_clean
      mac_sentinel
  net_replacement-stands name = (
    get-holds is_anonymous name net_replacements (text (codes "192.0.2.1")) refl refl,
    get-holds (is_clean py) name net_replacements (text (codes "192.0.2.1")) refl refl,
  )

  uncalled : (a b : Bool) → (a ≡ true → b ≡ true) → b ≡ false → a ≡ false
  uncalled true b h apart = cc (h refl)
  uncalled false b h apart = refl

  -- What is called neither a secret nor a network is clean as it is, and so is what each may be.
  is_clean_secret :
      (key : Text) (v : Value)
      → is_called py key networks ≡ false
      → (is_flag v || not (truthy v) || is_redacted v) ≡ true
      → is_clean_field py key v ≡ true
  unfolding is_clean_field
  is_clean_secret key v other fine = rw other (ground (arith, fine))

  is_clean_network :
      (key : Text) (v : Value)
      → is_called py key secrets ≡ false
      → (not (is_called py key networks) || is_anonymous v) ≡ true
      → is_clean_field py key v ≡ true
  unfolding is_clean_field
  is_clean_network key v other fine = rw (other, fine) refl

  both_clean : (a b : Bool) → a ≡ true → b ≡ true → (a && b) ≡ true
  both_clean a b h k = rw (h, k) refl

  is_clean_field-replaced :
      (key : Text) (v : Value)
      → is_clean py v ≡ true
      → (is_clean_field py key (or_default (field_replacement py key v) v)
          && is_clean py (or_default (field_replacement py key v) v))
        ≡ true
  unfolding field_replacement stand_in
  is_clean_field-replaced key v h =
      let name = field_name py key in
      elim (Bool-cases (is_among name secret_fields)) [
        | inl secret ↦
            let apart = secret-net_fields name secret in
            let other = uncalled _ _ (is_called-network py key) apart in
            elim (Bool-cases (is_flag v)) [
              | inl flag ↦
                  rw (field_replacement, secret, flag, apart)
                    (both_clean _ _ (is_clean_secret key v other (rw flag refl)) h)
              | inr shown ↦ elim (Bool-cases (truthy v)) [
                | inl full ↦
                    rw (field_replacement, secret, shown, full)
                      (both_clean _ _
                        (is_clean_secret key redacted other (ground (arith, redacted-is_redacted)))
                        redacted-is_clean)
                | inr empty ↦
                    rw (field_replacement, secret, shown, empty)
                      (both_clean _ _ (is_clean_secret key v other (rw (shown, empty) refl)) h)
              ]
            ]
        | inr common ↦
            let plain = uncalled _ _ (is_called-secret py key) common in
            elim (Bool-cases (is_among name net_fields)) [
              | inl network ↦ elim (Bool-cases (is_safe_address v)) [
                | inl safe ↦
                    let fine = is_safe_address-is_anonymous v safe in
                    rw (field_replacement, common, network, safe)
                      (both_clean _ _ (is_clean_network key v plain (ground (arith, fine))) h)
                | inr told ↦
                    let (fine, clean) = net_replacement-stands name in
                    rw (field_replacement, common, network, told)
                      (both_clean _ _
                        (is_clean_network key (net_replacement name) plain (ground (arith, fine)))
                        clean)
              ]
              | inr other ↦
                  let uncounted = uncalled _ _ (is_called-network py key) other in
                  rw (field_replacement, common, other)
                    (both_clean _ _ (is_clean_network key v plain (rw uncounted refl)) h)
            ]
      ]

module _ (py : TextLibrary) (serial : Option Text) where
  mutual
    unfolding scrub is_clean

    scrub-is_clean_value : (v : Value) → is_clean py (scrub py serial v) ≡ true
    scrub-is_clean_value null = refl
    scrub-is_clean_value (bool b) = refl
    scrub-is_clean_value (int z) = refl
    scrub-is_clean_value (float x) = refl
    scrub-is_clean_value (text s) = refl
    scrub-is_clean_value (list vs) = scrub-are_clean vs
    scrub-is_clean_value (dict d) = scrub-are_fields_clean d
    scrub-is_clean_value (namespace d) = refl

    scrub-are_clean : (vs : Items) → are_clean py (scrub_items py serial vs) ≡ true
    scrub-are_clean nil = refl
    scrub-are_clean (cons v vs) = ground (arith, scrub-is_clean_value v, scrub-are_clean vs)

    scrub-are_fields_clean : (d : Dict) → are_fields_clean py (scrub_fields py serial d) ≡ true
    scrub-are_fields_clean end = refl
    scrub-are_fields_clean (entry k v d) =
        let here = is_clean_field-replaced py k (scrub py serial v) (scrub-is_clean_value v) in
        let there = scrub-are_fields_clean d in rw (here, there) refl

-- Whatever a payload holds, after `scrub` every field at any depth that is called `key`, `password` or
-- `pass` is a flag, empty or redacted, and every one that is named as an address or a network is empty,
-- an address of nobody's or a stand-in, however the name is cased and whether or not `static` precedes
-- it.
pub scrub-is_clean :
    (py : TextLibrary) (serial : Option Text) (v : Value) → is_clean py (scrub py serial v) ≡ true
scrub-is_clean py serial v = scrub-is_clean_value py serial v
