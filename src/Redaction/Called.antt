-- ===== src/Redaction/Called.antt =====
-- How a field inside a container is called (`_field_replacement`).
use ha_wattpilot.Base.{
  ◌≡◌, refl, ◌∙◌, ◌++◌, drop, if◌then◌else◌, text_eq_sound, Bool, true, false, ◌&&◌, ◌||◌, List, [],
  ◌∷◌, arith, Text, codes, text_eq, Bool-cases, inl, inr,
}
use ha_wattpilot.Entities.{starts_with}
use ha_wattpilot.Entities.Identity.{is_among}
use ha_wattpilot.Setup.Serials.{text_eq_sym}
use ha_wattpilot.Redaction.Scrub.{TextLibrary, net_fields, secret_fields, field_name}

-- The names of secrets, and of addresses and networks, in lower case.
abbrev pub secrets : List Text
secrets = codes "key" ∷ codes "password" ∷ codes "pass" ∷ []

abbrev pub networks : List Text
networks =
    codes "ip"
    ∷ codes "gw"
    ∷ codes "gateway"
    ∷ codes "netmask"
    ∷ codes "subnet"
    ∷ codes "dns"
    ∷ codes "dns0"
    ∷ codes "dns1"
    ∷ codes "dns2"
    ∷ codes "ssid"
    ∷ codes "bssid"
    ∷ codes "ipv6"
    ∷ codes "resolv"
    ∷ []

module _ (py : TextLibrary) where
  -- Whether a field is called one of these names, however it is cased, `static` before it or not.
  unfoldable pub is_called : Text → List Text → Bool
  is_called key [] = false
  is_called key (name ∷ names) =
      text_eq (py.lower key) name
      || text_eq (py.lower key) (codes "static" ++ name)
      || is_called key names

-- `removeprefix("static")`
abbrev plain_name : Text → Text
plain_name s = if starts_with (codes "static") s then drop 6 s else s

-- A name with no `static` before it stands for itself, and so does what follows one.
are_plain : List Text → Bool
unfolding starts_with
are_plain [] = true
are_plain (name ∷ names) =
    text_eq (plain_name name) name
    && text_eq (plain_name (codes "static" ++ name)) name
    && are_plain names

module _ (py : TextLibrary) where
  is_called-field_name :
      (key : Text) (names : List Text)
      → are_plain names ≡ true
      → is_called py key names ≡ true
      → is_among (field_name py key) names ≡ true
  unfolding is_called are_plain is_among field_name
  is_called-field_name key [] plain called = cc
  is_called-field_name key (name ∷ names) plain called =
      elim (Bool-cases (text_eq (py.lower key) name)) [
        | inl itself ↦
            let e = text_eq_sound (py.lower key) name itself in
            let stands : text_eq (plain_name name) name ≡ true = ground (arith, plain) in
            let here : text_eq name (plain_name (py.lower key)) ≡ true =
              rw e (text_eq_sym name (plain_name name) ∙ stands) in
            rw here refl
        | inr bare ↦ elim (Bool-cases (text_eq (py.lower key) (codes "static" ++ name))) [
          | inl static ↦
              let e = text_eq_sound (py.lower key) (codes "static" ++ name) static in
              let stands : text_eq (plain_name (codes "static" ++ name)) name ≡ true =
                ground (arith, plain) in
              let here : text_eq name (plain_name (py.lower key)) ≡ true =
                rw e (text_eq_sym name (plain_name (codes "static" ++ name)) ∙ stands) in
              rw here refl
          | inr other ↦
              let later =
                is_called-field_name key names (ground (arith, plain))
                  (ground (arith, called, bare, other)) in
              ground (arith, later)
        ]
      ]

  pub is_called-secret :
      (key : Text)
      → is_called py key secrets ≡ true
      → is_among (field_name py key) secret_fields ≡ true
  unfolding secret_fields are_plain starts_with text_eq
  is_called-secret key h = is_called-field_name key secrets refl h

  pub is_called-network :
      (key : Text)
      → is_called py key networks ≡ true
      → is_among (field_name py key) net_fields ≡ true
  unfolding net_fields are_plain starts_with text_eq
  is_called-network key h = is_called-field_name key networks refl h
