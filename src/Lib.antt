-- ===== src/Lib.antt =====
-- The Wattpilot integration for Home Assistant, modelled from its Python source.
--
-- A client talks to a charger over one WebSocket. `Connection` (custom_components/wattpilot/api/
-- connection.py) owns the socket, the reader and the attempts to open; it hands each frame to the
-- client and tells it when the connection is reset. `Wattpilot` (api/client.py) reads the frames:
-- it checks who answers, signs in, keeps the cache of properties, and sends commands whose answers
-- it matches by number. The hub (hub.py) subscribes to those properties, holds pushes back for an
-- interval, and tells the entities of them and of the charger's availability.
--
-- Base            native numbers, integers, lists, texts (lists of code points), Unicode classes
-- Json            values of JSON, Python dicts and numbers; Json.Namespaces is the parse with an
--                 object hook and `_plain_json`
-- Api.Errors      api/exceptions.py and `mask_serial` of api/client.py
-- Api.Models      api/models.py
-- Api.Auth        api/auth.py
-- Api.Library     what Python and packages provide, as a parameter
-- Api.Connection  api/connection.py: State (the fields and the methods on them), Lifecycle (open and
--                 close), Reader (the message loop), Steps (all of them, in any order)
-- Api.Client      api/client.py: State, Coercion (conversions before a write), Properties (the
--                 cache), Handshake, Commands, Messages (`_handle_message`), Firmware (an update and
--                 the wait for its reboot), Requests (writes of several steps), Reboot (that the
--                 wait ends)
-- Api.Definition  api/definition.py: Loads, Lookup and Writes (what loads, and what it means for writes)
-- Hub             hub.py: State (fields, and methods between waits), Steps (all of them, in any
--                 order), Writes (errors), Announce (availability), Deliver (pushes), Retire
--                 (shutdown)
-- Entries         const.py (Naming, Names) and registry_migration.py (Registry, Known, Suffixes,
--                 Targets, Collisions)
-- Update          update.py: the versions on offer, the newest of them, and what may be installed
-- Entities        descriptions.py: Descriptions (the filters), Platforms and Tables (what each platform
--                 has); entity.py: Identity (unique ids); Support (the entities of the button lock)
-- Readings        readings.py
-- Sensor          sensor.py: Convert (the reading in a payload), Hold (the steps back), Apply (what a
--                 push does), Held, Totals, Restored and Average (what totals and averages promise);
--                 Prices is the price list of readings.py
-- Redaction       redaction.py: Scrub (values at any depth), Properties (property by property),
--                 Called, Clean, Companion and Alike (what the diagnostics withhold)
-- Setup           __init__.py: Adopt (the identity of an entry), Serials (what it promises), Firmware
--                 (the reload after an update), Migrate and Fork (entries of the fork), Masks (its
--                 log lines), Entry (the setup around these)
-- Flow            config_flow.py: State (what Home Assistant keeps and does), Probe, Steps, Discovery
--                 (announcements); Changes (what may become of the entries), Refines, Creates and
--                 Announces (that each step does no more), Hosts (what becomes of addresses), Serials
--                 (so in any order), Agreement (with the setup), Adding, Addresses and Moved
-- Controls        select.py: Select (options, what is shown and written), Options (that they agree);
--                 number.py, time.py, switch.py, binary_sensor.py, button.py: Number, Time, Switch;
--                 Unknown (the warning about an unknown value)
-- Services        services.py
-- Witnesses       the theorems at concrete inputs
--
-- A coroutine is cut at its waits: each piece between two waits is one step, so every interleaving
-- of the callers, the reader and the network is a list of events. The handler of a frame is one
-- step. Where a wait is for a probe, an answer or a reboot, what it came to is an argument. The
-- client is the `owner` of the connection's record; its methods are actions on the pair, which may
-- raise. A frame enters as what `json.loads` makes of it, with the token that
-- `generate_token` would draw. Loops are structural recursion, but for the search for a free device
-- name, whose fuel is one round more than names are taken, and for the attempts after a reboot, whose
-- fuel is one more than the units of time that are left. Floats are
-- exact: an integer over a power of two, infinity or NaN. Delays are whole multiples of a unit.
-- Error messages are held by their parts. Futures are numbered by the command they belong to.
--
-- Not modelled: sockets, threads and time themselves, log lines other than the warnings of `skip`,
-- the hash functions and the arithmetic of doubles (fields of parameters), the reading and parsing of
-- the file with the API definition, the parts of a description that only Home Assistant reads
-- (icons, categories), the schemas of forms, and the setup of the platforms, which only hands
-- entities to Home Assistant.
pub mod Base
pub mod Json
pub mod Api
pub mod Hub
pub mod Entries
pub mod Update
pub mod Entities
pub mod Readings
pub mod Sensor
pub mod Redaction
pub mod Setup
pub mod Flow
pub mod Controls
pub mod Services
mod Witnesses
