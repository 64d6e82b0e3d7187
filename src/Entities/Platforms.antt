-- ===== src/Entities/Platforms.antt =====
-- The descriptions of each platform, with the fields that the platform's code reads.
use ha_wattpilot.Base.{ℕ, ℤ, pos, Bool, false, Option, none, List, [], Text}
use ha_wattpilot.Json.{Value}
use ha_wattpilot.Entities.Descriptions.{Description}

-- A table from wire values to labels, in its order.
abbrev pub Labels : Type 0
Labels = List (Value × Text)

pub data CompanionRole : Type 0 where
  prices boot_clock live_power : CompanionRole

-- `WattpilotSensorEntityDescription`
pub record SensorDescription : Type 0 where
  pub common : Description
  pub device_class : Option Text
  pub state_class : Option Text
  pub native_unit_of_measurement : Option Text
  pub suggested_display_precision : Option ℕ
  pub enum : Option Labels
  pub value_index : Option ℕ
  pub index_attributes : List (Text × ℕ)
  pub namespace_value : Option Text
  pub namespace_attributes : List Text
  pub html_unescape : Bool
  pub clamp_non_negative : Bool
  pub monotonic : Bool
  pub reset_tolerant_monotonic : Bool
  pub highest_reading : Bool
  pub switched_phases : Bool
  pub null_is_zero : Bool
  pub cards_index : Option ℕ
  pub chip_index : Option ℕ
  pub companion_role : Option CompanionRole

abbrev pub sensor : Description → SensorDescription
sensor d = record {
  common = d;
  device_class = none;
  state_class = none;
  native_unit_of_measurement = none;
  suggested_display_precision = none;
  enum = none;
  value_index = none;
  index_attributes = [];
  namespace_value = none;
  namespace_attributes = [];
  html_unescape = false;
  clamp_non_negative = false;
  monotonic = false;
  reset_tolerant_monotonic = false;
  highest_reading = false;
  switched_phases = false;
  null_is_zero = false;
  cards_index = none;
  chip_index = none;
  companion_role = none;
}

-- `WattpilotNumberEntityDescription`
pub record NumberDescription : Type 0 where
  pub common : Description
  pub set_as_int : Bool
  pub zero_means_null : Bool
  pub wire_scale : ℕ
  -- The bounds, which are whole numbers all.
  pub native_min_value : ℤ
  pub native_max_value : ℤ

abbrev pub number : Description → NumberDescription
number d = record {
  common = d;
  set_as_int = false;
  zero_means_null = false;
  wire_scale = 1;
  native_min_value = pos 0;
  native_max_value = pos 100;
}

-- `WattpilotSelectEntityDescription`
pub record SelectDescription : Type 0 where
  pub common : Description
  pub select_options : Labels
  pub empty_string_means : Option Value

-- `WattpilotSwitchEntityDescription`
pub record SwitchDescription : Type 0 where
  pub common : Description
  pub invert : Bool

-- `WattpilotBinarySensorEntityDescription`
pub record BinarySensorDescription : Type 0 where
  pub common : Description
  pub on_values : List Value
  pub off_values : List Value

-- `WattpilotButtonEntityDescription`
pub record ButtonDescription : Type 0 where
  pub common : Description
  pub press_value : Value
