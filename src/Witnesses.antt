-- ===== src/Witnesses.antt =====
-- The theorems at concrete inputs, and runs of the models.
mod Wire
mod Session
mod Entries
mod Entities
mod Redaction
mod Sensors
mod Setup
mod Registry
mod Controls
mod Flow
mod Requests
