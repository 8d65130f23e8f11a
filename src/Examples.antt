-- ===== src/Examples.antt =====
-- The theorems at concrete inputs.
mod Texts
mod Fields
mod Searches
mod Descriptors
mod Changes
mod Settings
mod Vpd
mod VpdQuiet
mod Options
mod Names
mod Commands
mod SetOption
