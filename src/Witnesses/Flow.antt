-- ===== src/Witnesses/Flow.antt =====
-- Concrete inputs for the theorems on the flows.
use ha_wattpilot.Base.{
  ℕ, ◌≡◌, refl, Bool, true, false, not, ◌&&◌, ◌||◌, none, some, List, [], ◌∷◌, ◌++◌, arith, Text,
  codes, text_eq, Bool-cases, inl, inr, is_some, if◌then◌else◌,
}
use ha_wattpilot.Json.{Dict, bool, text, end, entry, get, truthy}
use ha_wattpilot.Entries.{ConfigEntry, has_unique_id, awaits_serial, is_in, is_value}
use ha_wattpilot.Setup.{Installation, entry_of, update_entry}
use ha_wattpilot.Setup.Serials.{are_apart, shares}
use ha_wattpilot.Flow.{
  Home, Manager, entries, setup_error, other_state, entry_with, with_host, no_errors,
  is_set_up_again, is_new_host, Address, ipv4, ipv6, reconfigure, reauth_confirm, reconfigured,
  with_password,
}
use ha_wattpilot.Flow.Changes.{Knows}
use ha_wattpilot.Flow.Serials.{
  Step, Reach, here, next, set_up, announced, moved, ignored, Reach-are_apart, Reach-Knows, Vouches,
  Step-StaysOr,
}
use ha_wattpilot.Flow.Hosts.{StaysOr}
use ha_wattpilot.Flow.Agreement.{setup_decides, reconfigure-check_identity}

abbrev known_entry : ConfigEntry
known_entry = record {
  entry_id = codes "a";
  unique_id = some (codes "10000001");
  title = codes "Wattpilot";
  options = entry (codes "host") (text (codes "10.0.0.7")) end;
}

-- An entry of the fork, keyed on its address.
abbrev fork_entry : ConfigEntry
fork_entry = record {
  entry_id = codes "b";
  unique_id = some (codes "10.0.0.8");
  title = codes "Garage";
  options = entry (codes "awaiting_serial") (bool true) end;
}

abbrev two_entries : Installation
two_entries = record {
  entries = known_entry ∷ fork_entry ∷ [];
  ignored = codes "20000002" ∷ [];
  cards = [];
}

-- The entries but those with this serial.
without_entry : Text → List ConfigEntry → List ConfigEntry
unfolding has_unique_id
without_entry serial [] = []
without_entry serial (e ∷ es) =
    let rest = without_entry serial es in if has_unique_id serial e then rest else e ∷ rest

without_entry_missing :
    (serial : Text) (es : List ConfigEntry)
    → entry_with serial es ≡ none
    → without_entry serial es ≡ es
unfolding without_entry entry_with
without_entry_missing serial [] missing = refl
without_entry_missing serial (e ∷ es) missing =
    ground (arith, missing, without_entry_missing serial es)

-- One way for Home Assistant to do what the flows rely on.
abbrev plain_manager : Manager
plain_manager = record {
  configured = λ by_user serial h.
      is_some (entry_with serial h.entries) || (not by_user && is_in serial h.ignored);
  take = λ e host h. record h { entries = update_entry (with_host host e) h.entries };
  add = λ e h. record h { entries = h.entries ++ e ∷ [] };
  ignore = λ serial h. record h {
    entries = without_entry serial h.entries;
    ignored = serial ∷ h.ignored;
  };
  configured_lem = λ by_user serial e h found. rw found refl;
  take_lem = λ e host h. refl;
  reloads_for = λ e host s. is_set_up_again s && is_new_host host e;
  reloads_for_lem = λ e host s. refl;
  add_lem = λ e h alone. refl;
  ignore_lem = λ serial h missing. without_entry_missing serial h.entries missing;
}

-- The first entry's setup has failed.
abbrev home : Home
home = record {
  installation = two_entries;
  state = λ id. if text_eq id (codes "a") then setup_error else other_state;
  available = λ id. false;
  reloads = [];
}

-- The fork's entry finds the first charger, and then its own; the first one is moved to the second.
abbrev history : (h : Home) × Reach plain_manager home h
history = (
  _,
  next
      (next
        (next (next (next here (set_up (codes "b") (codes "10000001"))) (announced false [] end))
          (set_up (codes "b") (codes "20000002")))
        (moved (codes "a") (codes "10.0.0.9") (codes "secret") (no_errors (codes "20000002"))))
      (ignored (codes "30000003")),
)

Reach-are_apart_example : are_apart (entries (history.0)) ≡ true
unfolding are_apart shares text_eq has_unique_id
Reach-are_apart_example = Reach-are_apart plain_manager (history.1) refl

Reach-Knows_example : Knows (codes "a") (codes "10000001") (entries (history.0))
unfolding are_apart shares text_eq has_unique_id entry_of awaits_serial get truthy is_value
Reach-Knows_example =
    Reach-Knows plain_manager (codes "a") (codes "10000001") (history.1) refl
      (record { keeper = known_entry; found = refl; serial_known = refl; settled = refl })

-- The probe at the new address has found the charger of the first entry.
abbrev found_again :
    Step plain_manager home
      (reconfigure
        (codes "a")
        (codes "10.0.0.9")
        (codes "secret")
        (no_errors (codes "10000001"))
        home).1
found_again = moved (codes "a") (codes "10.0.0.9") (codes "secret") (no_errors (codes "10000001"))

Step-StaysOr_example : StaysOr (Vouches found_again) (codes "a") (codes "10000001") (entries home) (
    entries
      (reconfigure
        (codes "a")
        (codes "10.0.0.9")
        (codes "secret")
        (no_errors (codes "10000001"))
        home).1)
unfolding are_apart shares text_eq has_unique_id entry_of awaits_serial get truthy is_value
Step-StaysOr_example =
    Step-StaysOr plain_manager (codes "a") (codes "10000001") found_again refl
      (record { keeper = known_entry; found = refl; serial_known = refl; settled = refl })

reconfigure-check_identity_example :
    (reconfigure (codes "b") (codes "10.0.0.9") (codes "secret") (no_errors (codes "20000002")) home
      ≡ setup_decides
          (codes "reconfigure")
          (reconfigured (codes "10.0.0.9") (codes "secret") fork_entry)
          (codes "20000002")
          home)
    × (reauth_confirm (codes "b") (codes "secret") (no_errors (codes "20000002")) home
        ≡ setup_decides
            (codes "reauth_confirm")
            (with_password (codes "secret") fork_entry)
            (codes "20000002")
            home)
unfolding are_apart shares text_eq has_unique_id entry_of
reconfigure-check_identity_example =
    reconfigure-check_identity (codes "b") (codes "10.0.0.9") (codes "secret") (codes "20000002")
      fork_entry home refl refl

-- An IPv6 address, a link-local one, and the one that the charger is at now.
abbrev announced_at : List Address
announced_at = ipv6 ∷ ipv4 169 254 1 2 ∷ ipv4 10 0 0 9 ∷ []

abbrev announcement : Dict
announcement = entry (codes "serial") (text (codes "10000001")) end
