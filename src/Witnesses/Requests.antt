-- ===== src/Witnesses/Requests.antt =====
-- Concrete inputs for the theorems on the API definition, on what is written, and on the wait for a
-- reboot.
use ha_wattpilot.Base.{
  ℕ, ◌<◌, ◌≡◌, ◌⊎◌, refl, true, false, none, some, [], ◌∷◌, ◌++◌, arith, codes, text_eq,
  if◌then◌else◌, pos, negsuc, leb,
}
use ha_wattpilot.Json.{
  Value, bool, int, text, list, dict, nil, cons, Dict, end, entry, get, insert, of_int,
}
use ha_wattpilot.Api.Library.{Library}
use ha_wattpilot.Api.Connection.{new_connection}
use ha_wattpilot.Api.Client.{
  Wattpilot, new_client, ok, raised, value_raised, other_raised, coerce_value, Waited,
  next_trip_seconds,
}
use ha_wattpilot.Api.Definition.{load_api_definition}
use ha_wattpilot.Api.Definition.Writes.{IsExpected, coerce_value-IsExpected}
use ha_wattpilot.Api.Definition.Loads.{is_well_formed, load_api_definition-is_well_formed}
use ha_wattpilot.Entries.{ConfigEntry}
use ha_wattpilot.Setup.{Installation}
use ha_wattpilot.Controls.{DayTime, apply_time, DaysApart, apply_time-next_trip}

abbrev plain_library : Library
plain_library = record {
  encode = λ s. s;
  pbkdf2_base64 = λ p s. p ++ s;
  sha256_hex = λ s. s;
  hashpw = λ p s. some (p ++ s);
  hmac_hex = λ k m. k ++ m;
  dumps = λ v. codes "{}";
  str_of = λ v. codes "1.5";
  int_of_text = λ s. none;
  float_of_text = λ s. none;
  float_of_int = λ z. some (of_int z);
}

-- One property, listed twice.
abbrev ampere : Dict
ampere =
    entry (codes "key") (text (codes "amp")) (entry (codes "jsonType") (text (codes "integer")) end)

abbrev ampere_again : Dict
ampere_again = entry (codes "key") (text (codes "amp")) end

abbrev definition : Value
definition = dict (
    entry (codes "messages") (list nil)
      (entry (codes "properties") (list (cons (dict ampere) (cons (dict ampere_again) nil))) end))

coerce_value-IsExpected_example :
    IsExpected
      (coerce_value plain_library (entry (codes "amp") (dict ampere) end) (codes "amp") (bool true))
unfolding load_api_definition get insert text_eq
coerce_value-IsExpected_example =
    coerce_value-IsExpected plain_library definition (entry (codes "amp") (dict ampere) end)
      (codes "amp") (bool true) refl

load_api_definition-is_well_formed_example :
    ((properties : Dict) × (load_api_definition definition ≡ ok properties)
      × (is_well_formed definition ≡ true))
    ⊎ (((load_api_definition definition ≡ raised (value_raised (codes "ValueError")))
          ⊎ (load_api_definition definition ≡ raised (value_raised (codes "TypeError"))))
        × (is_well_formed definition ≡ false))
load_api_definition-is_well_formed_example = load_api_definition-is_well_formed definition

abbrev signed_off : Wattpilot
signed_off = new_connection true 10 600 (new_client (codes "secret") (some (codes "10000001")))

-- A charger that is back after 30 seconds; an attempt before then fails after one.
abbrev attempt : ℕ → ℕ → Wattpilot → Waited
attempt now remaining w =
    if leb 300 now
    then record { took = 20; error = none; client = w }
    else record { took = 10; error = some (other_raised (codes "OSError")); client = w }

abbrev reboot : Waited
reboot = record { took = 50; error = none; client = signed_off }

-- An entry of the fork, keyed on its address.
abbrev fork_data : ConfigEntry
fork_data = record {
  entry_id = codes "b";
  unique_id = some (codes "10.0.0.8");
  title = codes "Garage";
  options = entry (codes "friendly_name") (text (codes "Garage")) (
      entry (codes "ip_address") (text (codes "10.0.0.8"))
        (entry (codes "password") (text (codes "secret")) end));
}

abbrev alone : Installation
alone = record { entries = fork_data ∷ []; ignored = []; cards = [] }

-- 23:59:59 is set; one second before midnight is reported as well.
apply_time-next_trip_example :
    ((t : DayTime) × (apply_time plain_library (int (negsuc 0)) ≡ some t)
      × (t.hour < 24)
      × (t.minute < 60)
      × (t.second < 60)
      × DaysApart (negsuc 0) (next_trip_seconds t.hour t.minute t.second))
    × (apply_time plain_library (int (pos (next_trip_seconds 23 59 59)))
        ≡ some (record { hour = 23; minute = 59; second = 59 }))
apply_time-next_trip_example =
    apply_time-next_trip plain_library (negsuc 0) 23 59 59 (omega arith) (omega arith) (omega arith)
