-- ===== src/Options.antt =====
-- The options of a call of sdparm: how src/sdparm_access.c reads them, and how src/sdparm.c reads
-- the page that one of them names.
pub mod PageArg
pub mod PageText
pub mod Cases
pub mod Parse
pub mod Merge
pub mod Bounds
pub mod Valid
