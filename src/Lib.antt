-- ===== src/Lib.antt =====
-- sdparm, a program that shows and changes the mode pages of SCSI devices.
--
-- The program is table driven: src/sdparm_data.c and src/sdparm_data_vendor.c list mode pages,
-- VPD pages and the items (bit fields) of mode pages; src/sdparm_access.c searches these tables and
-- reads and writes items; src/sdparm.c fetches mode pages from a device, changes items of them and
-- writes them back. The files here follow that division.
--
-- - Prelude and its children: tests, lists, integers, text and bits, shared by all parts. C's int
--   is an integer without a bound (ℤ); a uint64_t has its reduction by 2 ^ 64 written out.
-- - Tables: the types of src/sdparm.h (Types), its numbers (Consts) and all rows of the tables of
--   src/sdparm_data.c and src/sdparm_data_vendor.c (the other children), less the texts that are
--   only printed. A table is a list, whose end stands for the sentinel row.
-- - SgLib: what the program calls of the sg3_utils library, as a record of functions (SgLib) with
--   the laws that its header promises (SgLibLaws), and a concrete instance (SgLib/Model).
-- - Strings: sdp_strcase_eq, sdp_strcase_eq_upto.
-- - Field: sdp_mpage_len, sdp_mitem_get_value, sdp_mitem_get_value_check, sdp_mitem_set_value,
--   sdp_signed_decimal_str, sdp_get_desc_id. A mode page is the list of its bytes.
-- - Lookup: sdp_get_mp_nm, sdp_get_vpd_detail, sdp_find_mitem_by_acron and the other searches of
--   src/sdparm_access.c. The goto of sdp_get_mp_nm and the recursion of sdp_get_vpd_detail run on
--   fuel 3, which is more than the rounds that they make.
-- - Integrity: what src/chk_sdparm_data.c checks of the item tables, for every table that a search
--   can select, and what follows for writes of items.
-- - Descriptor: report_number_of_descriptors, the count in print_a_mitem_desc and
--   desc_adjust_start_byte of src/sdparm.c. The walk over descriptors has as fuel the page's length
--   and one, and moves on by a byte at least in each round.
-- - ModeSelect: ll_mode_sense, change_mode_page (Change), set_def_mode_page, set_mp_defaults and
--   set_all_page_defaults (Defaults) of src/sdparm.c. A device is any function from the requests
--   made so far to the next answer, so nothing is assumed of its state. A function returns its
--   result and the log of requests, the latest first.
-- - Settings: build_mp_settings of src/sdparm.c: the loop over the parts of an argument (Build), how
--   one setting by acronym is read (Text), how its item is found (the search in Settings itself) and
--   how a value is cut. The search has 1003 rounds of fuel, more than any table has rows; the loop
--   over the parts has one more than there are characters. sscanf of the C library is a parameter.
-- - SetOption: from the text of --set= to the device, the composition of Settings and
--   ModeSelect.Change.
-- - Commands: sdp_build_cmd of src/sdparm_cmd.c, and sdp_process_cmd with the commands that it sends
--   (Process), against a device that answers by its whole history of requests.
-- - Options: sdp_parse_cmdline and chk_short_opts of src/sdparm_access.c (Cases, Parse), as a fold
--   over what getopt_long finds, and parse_page_str of src/sdparm.c (PageArg, PageText). A switch
--   is a table of its cases without an argument and a chain of tests for the others.
-- - Vpd: the decoders of src/sdparm_vpd.c that walk through the descriptors of a VPD page. A page is
--   the list of its bytes, a decoder gives the rows that it shows and how it ends, and a read beyond
--   the page is one of the endings. The loops have as fuel the number of bytes that are left. What
--   is shown is the result of a plain call, without -H, and for SCSI ports without --quiet; the JSON
--   output holds the same fields. Quiet is decode_dev_ids_quiet, which carries a held address from
--   round to round.
-- - Examples: the theorems at concrete inputs.
--
-- The parts work together as in src/sdparm.c: Options reads the command line and the page, Settings
-- makes the settings for that page from the texts of --get=, --set= and --clear=, looking items up
-- by Lookup in Tables, and ModeSelect.Change takes these settings to a device by way of Descriptor
-- and Field. Vpd uses SgLib only.
--
-- Not modelled: the library itself (lib, include), getopt_long and sscanf of the C library, the
-- checks of main on combinations of options, the VPD pages that have single fields only, device
-- constituents and third party copy, printing and JSON output, the opening of devices, and malloc
-- failures. The texts of messages are left out everywhere.
pub mod Prelude
pub mod Tables
pub mod Vpd
pub mod Strings
pub mod SgLib
pub mod Field
pub mod Lookup
pub mod Integrity
pub mod Descriptor
pub mod ModeSelect
pub mod Settings
pub mod Commands
pub mod Options
pub mod SetOption
pub mod Examples
