-- ===== src/Tests.antt =====
-- The theorems at concrete inputs.
mod LidMaps
mod Sessions
mod Bots
mod Hubs
mod Keys
mod Phones
mod Settings
mod Devices
mod AppStates
mod CommandLines
mod Payloads
mod Migrations
mod Starts
mod Events
