-- ===== src/SgLib.antt =====
-- What sdparm calls of the sg3_utils library (lib/ and include/ hold a copy of it, which the
-- build may replace by an installed one). The operations are parameters of the model, and the
-- laws below are what the library's comments and SCSI say of them.
pub mod Bits
mod Defs
pub mod Model
pub use Defs.{SgLib, SgLibLaws, Fits, next_from}
