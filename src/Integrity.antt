-- ===== src/Integrity.antt =====
-- The integrity of the item tables: what src/chk_sdparm_data.c is run to check before a release,
-- for the tables that a search can select.
pub mod Placed
pub mod Clash
pub mod Update
