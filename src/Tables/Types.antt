-- ===== src/Tables/Types.antt =====
-- The templates of src/sdparm.h by which the tables of src/sdparm_data.c are written. The texts
-- that are only printed (`description`, `js_name`, `extra`, `dl_name`, `de_name`) are left out.
use Prim.Native.Nat.{ℕ}
use Prim.Native.String.{String}
use mathlib.Core.Bool.{Bool}
use mathlib.Core.Option.{Option, some}
use mathlib.Core.List.{List}
use sdparm.Prelude.Int.{ℤ}

-- struct sdparm_mode_descriptor_t
pub record Descriptor : Type 0 where
  pub num_descs_off : ℤ
  pub num_descs_bytes : ℤ
  pub num_descs_inc : ℤ
  pub first_desc_off : ℕ
  pub desc_len : ℤ
  pub desc_len_off : ℤ
  pub desc_len_bytes : ℤ
  pub have_desc_id : Bool

-- struct sdparm_mp_name_t. `mp_desc` is `none` for NULL.
pub record MpName : Type 0 where
  pub page : ℕ
  pub subpage : ℕ
  pub com_pdt : ℤ
  pub ro : Bool
  pub mp_acron : String
  pub mp_name : String
  pub mp_desc : Option Descriptor

-- struct sdparm_mp_item_t. `acron` is `none` for NULL: an item given by numbers has no acronym.
pub record MpItem : Type 0 where
  pub acron : Option String
  pub pg_num : ℕ
  pub subpg_num : ℕ
  pub com_pdt : ℤ
  pub start_byte : ℕ
  pub start_bit : ℕ
  pub num_bits : ℕ
  pub flags : ℕ

-- struct sdparm_vpd_page_t
pub record VpdPage : Type 0 where
  pub vpd_num : ℤ
  pub subvalue : ℕ
  pub com_pdt : ℤ
  pub vpd_acron : String
  pub vpd_name : String

-- struct sdparm_vendor_name_t
pub record VendorName : Type 0 where
  pub vendor_id : ℕ
  pub acron : String
  pub name : String

-- struct sdparm_transport_pair and struct sdparm_vendor_pair; `none` is a NULL pointer.
pub record TablePair : Type 0 where
  pub mpage : Option (List MpName)
  pub mitem : Option (List MpItem)

-- struct sdparm_val_desc_t
pub record ValDesc : Type 0 where
  pub val : ℕ
  pub desc : String

-- struct sdparm_command_t
pub record Command : Type 0 where
  pub cmd_num : ℕ
  pub cmd_name : String
  pub min_abbrev : String

-- One line of a table.
abbrev pub item : String → ℕ → ℕ → ℤ → ℕ → ℕ → ℕ → ℕ → MpItem
item a pn spn pdt sb sbit nb fl = record {
  acron = some a;
  pg_num = pn;
  subpg_num = spn;
  com_pdt = pdt;
  start_byte = sb;
  start_bit = sbit;
  num_bits = nb;
  flags = fl;
}

abbrev pub page : ℕ → ℕ → ℤ → Bool → String → String → Option Descriptor → MpName
page pn spn pdt r a n d = record {
  page = pn;
  subpage = spn;
  com_pdt = pdt;
  ro = r;
  mp_acron = a;
  mp_name = n;
  mp_desc = d;
}

abbrev pub vpd_page : ℤ → ℕ → ℤ → String → String → VpdPage
vpd_page n sv pdt a nm = record {
  vpd_num = n;
  subvalue = sv;
  com_pdt = pdt;
  vpd_acron = a;
  vpd_name = nm;
}

abbrev pub vendor : ℕ → String → String → VendorName
vendor i a n = record { vendor_id = i; acron = a; name = n }

abbrev pub val_desc : ℕ → String → ValDesc
val_desc v d = record { val = v; desc = d }

abbrev pub command : ℕ → String → String → Command
command n c a = record { cmd_num = n; cmd_name = c; min_abbrev = a }

abbrev pub pair : List MpName → List MpItem → TablePair
pair ps is = record { mpage = some ps; mitem = some is }
