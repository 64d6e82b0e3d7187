-- ===== src/Witnesses/Redaction.antt =====
-- Concrete inputs for the theorems on the diagnostics.
use ha_wattpilot.Base.{
  ℕ, ◌+◌, ◌≡◌, refl, true, ◌&&◌, none, some, ◌++◌, map, Text, codes, text_eq, if◌then◌else◌, leb,
  pos,
}
use ha_wattpilot.Json.{Value, null, bool, int, text, list, dict, Items, nil, cons, Dict, end, entry}
use ha_wattpilot.Redaction.{
  Pattern, mac_re, ipv4_candidate, ipv6_candidate, TextLibrary, scrub, sanitize_snapshot,
}
use ha_wattpilot.Redaction.Clean.{is_clean, scrub-is_clean}
use ha_wattpilot.Redaction.Companion.{at_field, behind}
use ha_wattpilot.Redaction.Alike.{
  AreAlikeCards, no_more, same_card, alike_cards, same_value, withheld, replaced, chips_of_others,
  companions, time_servers, known_profiles, AlikeSnapshots, no_properties, property,
  sanitize_snapshot-Alike,
}

abbrev lower_ascii : ℕ → ℕ
lower_ascii c = if leb b'A' c && leb c b'Z' then c + 32 else c

-- A text is an address of the charger's, or has none in it.
abbrev sub_address : Pattern → (Text → Text) → Text → Text
sub_address mac_re f s = if text_eq s (codes "AA:BB:CC:DD:EE:FF") then f s else s
sub_address ipv4_candidate f s = if text_eq s (codes "10.0.0.7") then f s else s
sub_address ipv6_candidate f s = s

abbrev one_address : TextLibrary
one_address = record {
  lower = map lower_ascii;
  sub = sub_address;
  ip_version = λ s. if text_eq s (codes "10.0.0.7") then some 4 else none;
}

-- A Wi-Fi slot with its key.
abbrev wifis : Value
wifis = list (
    cons
      (dict (
        entry (codes "SSID") (text (codes "Home")) (
          entry (codes "key") (text (codes "hunter2"))
            (entry (codes "staticIp") (text (codes "10.0.0.7")) end))))
      nil)

scrub-is_clean_example :
    is_clean one_address (scrub one_address (some (codes "10000001")) wifis) ≡ true
scrub-is_clean_example = scrub-is_clean one_address (some (codes "10000001")) wifis

abbrev chip_of : Text → Text → Dict
chip_of name card =
    entry (codes "name") (text name)
      (entry (codes "cardId") (text card) (entry (codes "energy") (int (pos 42)) end))

-- A solar inverter, whose label is its owner's choice.
abbrev inverter_of : Text → Dict
inverter_of name =
    entry (codes "id") (text (codes "12345678"))
      (entry (codes "label") (text name) (entry (codes "message") (text (codes "ok")) end))

abbrev snapshot_of : Text → Text → Text → Text → Text → Dict
snapshot_of password host name server car = entry (codes "wak") (text password) (
    entry (codes "host") (text (codes "Wattpilot_" ++ host)) (
      entry (codes "cards") (list (cons (dict (chip_of name host)) (cons null nil))) (
        entry (codes "ts") (text (codes "ntp." ++ server)) (
          entry (codes "ct") (text car) (
            entry (codes "cci") (dict (inverter_of name))
              (entry (codes "amp") (int (pos 16)) end))))))

abbrev ours : Dict
ours =
    snapshot_of (codes "hunter2") (codes "10000001") (codes "Ada") (codes "home")
      (codes "renaultZoe")

abbrev theirs : Dict
theirs =
    snapshot_of (codes "letmein") (codes "20000002") (codes "Bob") (codes "lan") (codes "kiaSoul")

snapshots_alike : AlikeSnapshots one_address (some (codes "10000001")) ours theirs
unfolding ha_wattpilot.Entities.Identity.is_among ha_wattpilot.Redaction.Alike.is_replaced
    ha_wattpilot.Redaction.Alike.names_car ha_wattpilot.Redaction.is_option
    ha_wattpilot.Redaction.car_profiles ha_wattpilot.Redaction.options_of
    ha_wattpilot.Entities.select_descriptions text_eq ha_wattpilot.Json.truthy ha_wattpilot.Json.get
    ha_wattpilot.Redaction.chip_digit ha_wattpilot.Redaction.scrub ha_wattpilot.Redaction.scrub_text
snapshots_alike = property (withheld refl) (
    property (replaced refl refl refl) (
      property
        (chips_of_others _ _ refl refl refl (
          alike_cards (record { names = (refl, refl); ids = refl; energies = refl })
            (same_card null no_more)))
        (property (time_servers _ _ _ _ refl refl refl) (
          property (known_profiles _ _ refl refl refl refl refl) (
            property
              (companions (codes "label") _ _ refl refl refl refl
                (behind refl (at_field refl refl)))
              (property (same_value refl) no_properties))))))

sanitize_snapshot-Alike_example :
    sanitize_snapshot one_address ours (some (codes "10000001"))
    ≡ sanitize_snapshot one_address theirs (some (codes "10000001"))
unfolding ha_wattpilot.Redaction.serial_of
sanitize_snapshot-Alike_example =
    sanitize_snapshot-Alike one_address (some (codes "10000001")) snapshots_alike refl
