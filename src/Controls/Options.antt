-- ===== src/Controls/Options.antt =====
-- That a chosen option is the one shown, once the charger repeats it.
use ha_wattpilot.Base.{
  ℕ, zero, suc, ◌≡◌, refl, ap, ◌∙◌, Bool, true, false, not, ◌&&◌, ◌||◌, Option, none, some, List,
  [], ◌∷◌, arith, Text, text_eq, text_eq_sound, text_eq_refl, if◌then◌else◌, Bool-cases,
  Option-cases, inl, inr, get_elem?, all, is_some, ℤ, show_int, codes, ◌++◌, eq_of_parts,
}
use ha_wattpilot.Json.{
  Value, null, get_else, int, list, items_to_list, Dict, value_eq, number_eq, as_number, float_le,
  fin,
}
use ha_wattpilot.Json.Order.{fin_le_iff, fin_le_refl}
use ha_wattpilot.Entities.{Labels, SelectDescription, select_descriptions, number_descriptions}
use ha_wattpilot.Readings.{matching_label}
use ha_wattpilot.Controls.Select.{
  presets, current_range, is_preset, offers, wire_options, current_option, wire_value,
  select_option, is_empty,
}

-- Whether each value of these options is shown under its label in a table, and is no empty text.
unfoldable pub are_shown : Labels → Labels → Bool
unfolding matching_label
are_shown table [] = true
are_shown table ((value, label) ∷ options) =
    (not (is_empty value)
      && (elim (matching_label table value) [ some l ↦ text_eq l label | none ↦ false ]))
    && are_shown table options

wire_value-are_shown :
    (table : Labels) (option : Text) (value : Value) (options : Labels)
    → are_shown table options ≡ true
    → wire_value option options ≡ some value
    → (is_empty value ≡ false) × (matching_label table value ≡ some option)
unfolding are_shown wire_value
wire_value-are_shown table option value [] h found = cc
wire_value-are_shown table option value ((v, label) ∷ options) h found =
    elim (Bool-cases (text_eq label option)) [
      | inl same ↦
          let e = text_eq_sound label option same in
          elim (Option-cases (matching_label table v)) [
            | inl missing ↦ ground (arith, h, found)
            | inr (l, shown) ↦
                let f : text_eq l label ≡ true = ground (arith, h) in
                let g = text_eq_sound l label f in ground (arith, h, found, g, e)
          ]
      | inr other ↦ ground (arith, wire_value-are_shown table option value options, h, found)
    ]

-- The fixed tables show what they offer.
tables_shown :
    all
      (λ (d : SelectDescription).
        is_some d.common.companion_key || are_shown d.select_options d.select_options)
      select_descriptions
    ≡ true
unfolding are_shown select_descriptions value_eq float_le text_eq
tables_shown = refl

-- Options that are whole currents under their own labels.
data AreCurrents : Labels → Type 0 where
  no_currents : AreCurrents []
  more_currents :
      (z : ℤ)
      → {options : Labels} → AreCurrents options
      → AreCurrents ((int z, show_int z ++ codes " A") ∷ options)

AreCurrents-append :
    (z : ℤ) {options : Labels}
    → AreCurrents options
    → AreCurrents (options ++ (int z, show_int z ++ codes " A") ∷ [])
AreCurrents-append z no_currents = more_currents z no_currents
AreCurrents-append z (more_currents y c) = more_currents y (AreCurrents-append z c)

offered-AreCurrents :
    (b : Bool) (z : ℤ) {options : Labels}
    → AreCurrents options
    → AreCurrents (if b then options ++ (int z, show_int z ++ codes " A") ∷ [] else options)
offered-AreCurrents true z c = AreCurrents-append z c
offered-AreCurrents false z c = c

presets-AreCurrents :
    (limits : Option (ℤ × ℤ)) (vs : List Value) (options : Labels)
    → AreCurrents options
    → AreCurrents (presets limits options vs)
unfolding presets
presets-AreCurrents limits [] options c = c
presets-AreCurrents limits (int z ∷ vs) options c =
    presets-AreCurrents limits vs _
      (offered-AreCurrents (is_preset limits (int z) && not (offers z options)) z c)
presets-AreCurrents limits (v ∷ vs) options c = presets-AreCurrents limits vs options c

value_eq-int : (y z : ℤ) → value_eq (int y) (int z) ≡ true → y ≡ z
unfolding value_eq number_eq as_number
value_eq-int y z h =
    let below : float_le (fin y 0) (fin z 0) ≡ true = ground (arith, h) in
    let above : float_le (fin z 0) (fin y 0) ≡ true = ground (arith, h) in
    let le = (fin_le_iff y z 0 0).0 below in
    let ge = (fin_le_iff z y 0 0).0 above in eq_of_parts y z (omega (arith, le, ge))

value_eq-int_self : (z : ℤ) → value_eq (int z) (int z) ≡ true
unfolding value_eq number_eq as_number
value_eq-int_self z = rw (fin_le_refl z 0) refl

matching_label-current :
    (z : ℤ) (front rest : Labels)
    → AreCurrents front
    → matching_label (front ++ (int z, show_int z ++ codes " A") ∷ rest) (int z)
      ≡ some (show_int z ++ codes " A")
unfolding matching_label
matching_label-current z [] rest c = rw (value_eq-int_self z) refl
matching_label-current z (_ ∷ front) rest (more_currents y c) =
    elim (Bool-cases (value_eq (int y) (int z))) [
      | inl same ↦ rw (same, value_eq-int y z same) refl
      | inr other ↦ rw other (matching_label-current z front rest c)
    ]

append_cons :
    (front : Labels) (o : Value × Text) (os : Labels) → (front ++ o ∷ []) ++ os ≡ front ++ o ∷ os
append_cons [] o os = refl
append_cons (f ∷ front) o os = ap (λ (ls : Labels). f ∷ ls) (append_cons front o os)

currents_shown :
    (front : Labels) {options : Labels}
    → AreCurrents front
    → AreCurrents options
    → are_shown (front ++ options) options ≡ true
unfolding are_shown
currents_shown front c no_currents = refl
currents_shown front c (more_currents z {options} more) =
    let o : Value × Text = (int z, show_int z ++ codes " A") in
    let later : are_shown (front ++ o ∷ options) options ≡ true =
      rw⁻¹ (append_cons front o options)
        (currents_shown (front ++ o ∷ []) (AreCurrents-append z c) more) in
    rw (matching_label-current z front options c, text_eq_refl (show_int z ++ codes " A"), later)
      refl

listed_shown :
    (limits : Option (ℤ × ℤ)) (v : Value)
    → (let options : Labels = elim v [
      | list allowed ↦ presets limits [] (items_to_list allowed)
      | _ ↦ []
    ] in
        are_shown options options ≡ true)
unfolding are_shown
listed_shown limits (list allowed) =
    currents_shown [] no_currents
      (presets-AreCurrents limits (items_to_list allowed) [] no_currents)
listed_shown limits v = refl

all-get_elem? :
    (holds : SelectDescription → Bool) (i : ℕ) (ds : List SelectDescription) (d : SelectDescription)
    → all holds ds ≡ true
    → get_elem? ds i ≡ some d
    → holds d ≡ true
all-get_elem? holds i [] d h found = cc
all-get_elem? holds zero (e ∷ ds) d h found = ground (arith, h, found)
all-get_elem? holds (suc i) (e ∷ ds) d h found =
    all-get_elem? holds i ds d (ground (arith, h)) found

wire_options_shown :
    (i : ℕ) (d : SelectDescription) (variant : Option Text) (properties : Dict)
    → get_elem? select_descriptions i ≡ some d
    → are_shown (wire_options d variant properties) (wire_options d variant properties) ≡ true
unfolding wire_options
wire_options_shown i d variant properties found = elim (Option-cases d.common.companion_key) [
  | inl fixed ↦
      let same : wire_options d variant properties ≡ d.select_options =
        rw (wire_options, fixed) refl in
      let covered = all-get_elem? _ i select_descriptions d tables_shown found in
      let shown : are_shown d.select_options d.select_options ≡ true =
        ground (arith, covered, fixed) in
      rw same shown
  | inr (key, companion) ↦
      let limits = current_range variant d.common.charger_key number_descriptions in
      let allowed = get_else key null properties in
      let same : wire_options d variant properties
          ≡ (elim allowed [ list vs ↦ presets limits [] (items_to_list vs) | _ ↦ [] ]) =
        rw (wire_options, companion) refl in
      rw same (listed_shown limits allowed)
]

-- On every select, for every variant and whatever presets the charger allows, a choice that writes a
-- value is shown again as the option chosen once the charger repeats that value.
pub select_option-current_option :
    (i : ℕ) (d : SelectDescription) (variant : Option Text) (properties : Dict) (option : Text)
    (value : Value)
    → get_elem? select_descriptions i ≡ some d
    → select_option d variant properties option ≡ some value
    → current_option d variant properties value ≡ some option
unfolding select_option current_option
select_option-current_option i d variant properties option value found chosen =
    let table = wire_options d variant properties in
    let shown = wire_options_shown i d variant properties found in
    let (kept, label) = wire_value-are_shown table option value table shown chosen in
    let read : (elim d.empty_string_means [
      | some meant ↦ if is_empty value then meant else value
      | none ↦ value
    ])
        ≡ value =
      elim (Option-cases d.empty_string_means) [
        | inl none_meant ↦ rw none_meant refl
        | inr (meant, given) ↦ rw (given, kept) refl
      ] in
    ap (matching_label table) read ∙ label
