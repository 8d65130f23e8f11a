-- ===== src/Tables/Consts.antt =====
-- The numbers of src/sdparm.h by which the tables are written, and the device types of sg_lib.h.
mod Pages
mod Vpds
mod Flags
pub use Pages.*
pub use Vpds.*
pub use Flags.*
