-- ===== src/Redaction/Alike.antt =====
-- That the diagnostics tell nothing of what they withhold.
use ha_wattpilot.Base.{
  ℕ, zero, suc, ◌≡◌, refl, ap, sym, ◌∙◌, Bool, true, false, not, ◌&&◌, ◌||◌, Option, none, some,
  List, [], ◌∷◌, ◌++◌, arith, Text, codes, text_eq, text_eq_iff, text_eq_refl, text_eq_sound,
  if◌then◌else◌, ◌==◌, or_default, Bool-cases, Option-cases, ◌⊎◌, inl, inr, is_some, length,
  show_nat, pos,
}
use ha_wattpilot.Json.{
  Value, null, int, text, list, dict, Items, nil, cons, Dict, end, entry, get, get_else, has,
  truthy,
}
use ha_wattpilot.Entities.Identity.{is_among}
use ha_wattpilot.Redaction.Scrub.{TextLibrary, stand_in, scrub_fields, scrub}
use ha_wattpilot.Redaction.Properties.{
  drop_keys, replacements, stand_in_field, sanitized_companion, chip_digit, replacement_for,
  car_profile, car_profiles, is_option, unknown_profile, describe_with_length, sanitized_card,
  sanitized_cards, sanitized_cards_from, sanitize_property, sanitize_all, sanitize_snapshot,
  serial_of,
}
use ha_wattpilot.Redaction.Companion.{companion_keys, AlikeAt, stand_ins-at}
use ha_wattpilot.Redaction.Clean.{text_eq-other}

-- The properties that are withheld whole: credentials, tokens and logs.
abbrev pub withheld_keys : List Text
withheld_keys =
    codes "wsl"
    ∷ codes "ipw"
    ∷ codes "cak"
    ∷ codes "wak"
    ∷ codes "facwak"
    ∷ codes "ocppck"
    ∷ codes "ocppcc"
    ∷ codes "faccak"
    ∷ codes "data"
    ∷ codes "dll"
    ∷ codes "ocppfu"
    ∷ codes "ocppu"
    ∷ []

-- The properties with a stand-in: the serial, names, the access point, and free text.
abbrev pub replaced_keys : List Text
replaced_keys =
    codes "sse"
    ∷ codes "fna"
    ∷ codes "ffna"
    ∷ codes "wan"
    ∷ codes "fwan"
    ∷ codes "host"
    ∷ codes "hsta"
    ∷ codes "hsts"
    ∷ codes "hste"
    ∷ codes "wae"
    ∷ codes "log"
    ∷ codes "wsm"
    ∷ codes "cle"
    ∷ codes "ocppfd"
    ∷ codes "ocpptt"
    ∷ codes "otaif"
    ∷ codes "wss"
    ∷ codes "lri"
    ∷ codes "cdv"
    ∷ codes "fntp"
    ∷ codes "ftls"
    ∷ codes "lbh"
    ∷ codes "ledo"
    ∷ codes "stao"
    ∷ codes "lom"
    ∷ []

-- The properties whose values are replaced whole: those with a stand-in, and the names of chips.
unfoldable pub is_replaced : Text → Bool
unfolding chip_digit
is_replaced k = is_some (chip_digit k) || is_among k replaced_keys

-- Whether a profile tells which car somebody drives: `default` does not.
unfoldable pub names_car : Text → Bool
names_car s = is_option s car_profiles && not (text_eq s (codes "default"))

-- Two ID chips that differ in whose they are: in the name, in the number and in any further field.
pub record AreAlikeCards (card other : Dict) : Type 0 where
  pub names :
      truthy (get_else (codes "name") null card) ≡ true
      × (truthy (get_else (codes "name") null other) ≡ true)
  pub ids :
      truthy (get_else (codes "cardId") null card) ≡ truthy (get_else (codes "cardId") null other)
  pub energies :
      get_else (codes "energy") (int (pos 0)) card ≡ get_else (codes "energy") (int (pos 0)) other

-- Two lists of ID chips, chip by chip.
pub data AlikeItems : Items → Items → Type 0 where
  no_more : AlikeItems nil nil
  same_card : (v : Value) → {vs ws : Items} → AlikeItems vs ws → AlikeItems (cons v vs) (cons v ws)
  alike_cards :
      {card other : Dict}
      → {vs ws : Items} → AreAlikeCards card other
      → AlikeItems vs ws
      → AlikeItems (cons (dict card) vs) (cons (dict other) ws)

-- Two values of a property that differ in what identifies an owner or an installation.
pub data Alike (py : TextLibrary) (serial : Option Text) (k : Text) : Value → Value → Type 0 where
  same_value : {v w : Value} → v ≡ w → Alike py serial k v w
  withheld : {v w : Value} → is_among k withheld_keys ≡ true → Alike py serial k v w
  replaced :
      {v w : Value}
      → is_replaced k ≡ true
      → truthy v ≡ true
      → truthy w ≡ true
      → Alike py serial k v w
  chips_of_others :
      {v w : Value} (vs ws : Items)
      → k ≡ codes "cards"
      → v ≡ list vs
      → w ≡ list ws
      → AlikeItems vs ws
      → Alike py serial k v w
  time_servers :
      {v w : Value} (b c : ℕ) (s t : Text)
      → k ≡ codes "ts"
      → v ≡ text (b ∷ s)
      → w ≡ text (c ∷ t)
      → Alike py serial k v w
  known_profiles :
      {v w : Value} (s t : Text)
      → k ≡ codes "ct"
      → v ≡ text s
      → w ≡ text t
      → names_car s ≡ true
      → names_car t ≡ true
      → Alike py serial k v w
  -- Two companion devices that still differ in one of their identifiers behind the scrub of their fields.
  companions :
      {v w : Value} (f : Text) (d e : Dict)
      → k ≡ codes "cci"
      → is_among f companion_keys ≡ true
      → v ≡ dict d
      → w ≡ dict e
      → AlikeAt f (scrub_fields py serial d) (scrub_fields py serial e)
      → Alike py serial k v w
  -- One difference after another.
  between :
      {v w : Value} (u : Value)
      → Alike py serial k v u
      → Alike py serial k u w
      → Alike py serial k v w

-- Two snapshots, property by property.
pub data AlikeSnapshots (py : TextLibrary) (serial : Option Text) : Dict → Dict → Type 0 where
  no_properties : AlikeSnapshots py serial end end
  property :
      {k : Text} {v w : Value} {d e : Dict}
      → Alike py serial k v w
      → AlikeSnapshots py serial d e
      → AlikeSnapshots py serial (entry k v d) (entry k w e)

sanitized_card-alike :
    (index : ℕ) {card other : Dict}
    → AreAlikeCards card other
    → sanitized_card index (dict card) ≡ sanitized_card index (dict other)
unfolding sanitized_card stand_in
sanitized_card-alike index h = rw (h.names.0, h.names.1, h.ids, h.energies) refl

sanitized_cards-alike :
    (index : ℕ) {vs ws : Items}
    → AlikeItems vs ws
    → sanitized_cards_from index vs ≡ sanitized_cards_from index ws
unfolding sanitized_cards_from
sanitized_cards-alike index no_more = refl
sanitized_cards-alike index (same_card v h) = rw (sanitized_cards-alike (suc index) h) refl
sanitized_cards-alike index (alike_cards c h) =
    rw (sanitized_card-alike index c, sanitized_cards-alike (suc index) h) refl

keys_of : Dict → List Text
keys_of end = []
keys_of (entry k v d) = k ∷ keys_of d

is_among-keys_of : (k : Text) (d : Dict) → is_among k (keys_of d) ≡ has k d
unfolding is_among keys_of get
is_among-keys_of k end = refl
is_among-keys_of k (entry j v d) = elim (Bool-cases (text_eq j k)) [
  | inl here ↦ rw here refl
  | inr there ↦ rw there (is_among-keys_of k d)
]

-- The stand-ins of the code are for these properties.
has-replacements : (k : Text) → is_among k replaced_keys ≡ true → has k replacements ≡ true
unfolding replacements keys_of
has-replacements k h = sym (is_among-keys_of k replacements) ∙ h

module _ (k : Text) (h : is_replaced k ≡ true) where
  -- No replaced property has a rule of its own.
  is_replaced-rules :
      (text_eq k (codes "cards") ≡ false)
      × (text_eq k (codes "cci") ≡ false)
      × (text_eq k (codes "ts") ≡ false)
      × (text_eq k (codes "ct") ≡ false)
  unfolding is_replaced chip_digit is_among text_eq ha_wattpilot.Base.is_decimal
  is_replaced-rules = (
    text_eq-other is_replaced k (codes "cards") h refl,
    text_eq-other is_replaced k (codes "cci") h refl,
    text_eq-other is_replaced k (codes "ts") h refl,
    text_eq-other is_replaced k (codes "ct") h refl,
  )

  replaced_key : chip_digit k ≡ none → is_among k replaced_keys ≡ true
  unfolding is_replaced
  replaced_key chip = ground (arith, h, chip)

  replacement_for-truthy :
      (v w : Value)
      → truthy v ≡ true
      → truthy w ≡ true
      → (r : Value) × (replacement_for k v ≡ some r) × (replacement_for k w ≡ some r)
  unfolding replacement_for stand_in is_replaced
  replacement_for-truthy v w e f =
      let other = is_replaced-rules.3 in
      elim (Option-cases (chip_digit k)) [
        | inr (digit, chip) ↦
            (text (codes "Card " ++ digit ∷ []), rw (other, chip, e) refl, rw (other, chip, f) refl)
        | inl chip ↦ elim (Option-cases (get k replacements)) [
          | inr (r, found) ↦ (r, rw (other, chip, found, e) refl, rw (other, chip, found, f) refl)
          | inl found ↦ cc (sym (has-replacements k (replaced_key chip)) ∙ ap is_some found)
        ]
      ]

names_car-not_empty :
    (s : Text) → names_car s ≡ true → (text_eq s [] ≡ false) × (text_eq s (codes "default") ≡ false)
unfolding names_car is_option car_profiles ha_wattpilot.Redaction.Properties.options_of
    ha_wattpilot.Entities.select_descriptions text_eq
names_car-not_empty s h =
    (text_eq-other names_car s [] h refl, text_eq-other names_car s (codes "default") h refl)

names_car-known :
    (s : Text) → names_car s ≡ true → car_profile (text s) ≡ text (codes "<known profile>")
unfolding car_profile names_car
names_car-known s h = ground (arith, names_car-not_empty s h)

module _ (py : TextLibrary) (serial : Option Text) where
  sanitize_property-Alike :
      (k : Text) (v w : Value)
      → Alike py serial k v w
      → (is_among k drop_keys ≡ true)
        ⊎ (sanitize_property py serial k v ≡ sanitize_property py serial k w)
  unfolding sanitize_property stand_in sanitized_cards sanitized_companion scrub replacement_for
      truthy text_eq drop_keys
  sanitize_property-Alike k v w (same_value e) = inr (ap (sanitize_property py serial k) e)
  sanitize_property-Alike k v w (withheld h) = inl h
  sanitize_property-Alike k v w (companions f d e key known x y h) =
      inr (rw (key, x, y) (ap dict (stand_ins-at f known h)))
  sanitize_property-Alike k v w (between u first second) =
      elim (sanitize_property-Alike k v u first) [
        | inl dropped ↦ inl dropped
        | inr one ↦ elim (sanitize_property-Alike k u w second) [
          | inl dropped ↦ inl dropped
          | inr other ↦ inr (one ∙ other)
        ]
      ]
  sanitize_property-Alike k v w (replaced h e f) =
      let rules = is_replaced-rules k h in
      let (r, one, other) = replacement_for-truthy k h v w e f in
      inr (rw (rules.0, rules.1, rules.2, one, other) refl)
  sanitize_property-Alike k v w (chips_of_others vs ws key e f h) =
      inr (rw (key, e, f, sanitized_cards-alike 0 h) refl)
  sanitize_property-Alike k v w (time_servers b c s t key e f) = inr (rw (key, e, f) refl)
  sanitize_property-Alike k v w (known_profiles s t key e f one other) =
      inr (rw (key, e, f, names_car-known s one, names_car-known t other) refl)

  sanitize_all-Alike :
      {d e : Dict}
      → AlikeSnapshots py serial d e
      → sanitize_all py serial d ≡ sanitize_all py serial e
  unfolding sanitize_all
  sanitize_all-Alike no_properties = refl
  sanitize_all-Alike (property {k} {v} {w} {d} {e} here there) =
      elim (sanitize_property-Alike k v w here) [
        | inl dropped ↦ rw (dropped, sanitize_all-Alike there) refl
        | inr same ↦ rw (same, sanitize_all-Alike there) refl
      ]

-- Two snapshots that are scrubbed of the same serial, and differ only in what identifies an owner or
-- an installation, give the same diagnostics: these do not depend on any of the twelve properties that
-- are withheld, nor, beyond whether there is one, on a property with a stand-in, on the name and the
-- number of an ID chip and its further fields, on the id, the label and the common name of the
-- companion device, on the time server, and on which of the known cars is chosen.
pub sanitize_snapshot-Alike :
    (py : TextLibrary) {d e : Dict} (serial : Option Text)
    → AlikeSnapshots py (serial_of d serial) d e
    → serial_of d serial ≡ serial_of e serial
    → sanitize_snapshot py d serial ≡ sanitize_snapshot py e serial
unfolding sanitize_snapshot
sanitize_snapshot-Alike py {d} {e} serial h own =
    sanitize_all-Alike py (serial_of d serial) h ∙ ap (λ s. sanitize_all py s e) own
