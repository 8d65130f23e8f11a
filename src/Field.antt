-- ===== src/Field.antt =====
-- The accessors of a mode page's items in src/sdparm_access.c. A mode page is the list of its
-- bytes; a pointer into it is what is left of the list from there on.
pub mod Splice
pub mod RoundTrip
pub mod Values
use sdparm.Prelude.{
  ℕ, ◌+◌, ◌-◌, ◌*◌, ◌/◌, ◌%◌, ◌^◌, Bool, true, false, ◌||◌, Option, none, some, List, ◌++◌, get_or,
  take, drop, leb, ltb, ◌==◌, if◌then◌else◌,
}
use sdparm.Prelude.Int.{ℤ, pos, negsuc}
use sdparm.SgLib.{SgLib}
use sdparm.Tables.Types.{MpItem}
use Prim.Native.Nat.{bit_and, bit_or}

module _ (sg : SgLib) where
  -- sdp_mpage_len: with SPF set (byte 0, bit 6) the header has 4 bytes, else 2.
  unfoldable pub mpage_len : List ℕ → ℕ
  mpage_len mp =
      if bit_and (get_or mp 0 0) 0x40 == 0
      then get_or mp 1 0 + 2
      else sg.get_unaligned_be16 (drop 2 mp) + 4

  -- sdp_mitem_get_value
  unfoldable pub mitem_get_value : MpItem → List ℕ → ℕ
  mitem_get_value mpi mp = sg.get_big_endian (drop mpi.start_byte mp) mpi.start_bit mpi.num_bits

  -- sdp_mitem_set_value, which returns the page as written.
  unfoldable pub mitem_set_value : ℕ → MpItem → List ℕ → List ℕ
  mitem_set_value val mpi mp =
      take mpi.start_byte mp
      ++ sg.set_big_endian val (drop mpi.start_byte mp) mpi.start_bit mpi.num_bits

-- The switch of sdp_mitem_get_value_check: the value of `*all_setp` behind it.
unfoldable pub all_set_flag : ℕ → ℕ → Bool → Bool
all_set_flag num_bits res old =
    if num_bits == 8
    then (if res == 0xff then true else old)
    else if num_bits == 16
    then (if res == 0xffff then true else old)
    else if num_bits == 24
    then (if res == 0xff_ffff then true else old)
    else if num_bits == 32
    then (if res == 0xffff_ffff then true else old)
    else if num_bits == 48
    then (if res == 0xffff_ffff_ffff then true else old)
    else if num_bits == 64
    then (if res == 0xffff_ffff_ffff_ffff then true else old)
    else false

module _ (sg : SgLib) where
  -- sdp_mitem_get_value_check; `none` stands for a NULL `all_setp`.
  unfoldable pub mitem_get_value_check : MpItem → List ℕ → Option Bool → ℕ × Option Bool
  unfolding all_set_flag
  mitem_get_value_check mpi mp none =
      (sg.get_big_endian (drop mpi.start_byte mp) mpi.start_bit mpi.num_bits, none)
  mitem_get_value_check mpi mp (some old) =
      let res = sg.get_big_endian (drop mpi.start_byte mp) mpi.start_bit mpi.num_bits in
      (res, some (all_set_flag mpi.num_bits res old))

-- The conversion of an unsigned value to a signed type of `w` bits.
abbrev pub as_signed : ℕ → ℕ → ℤ
as_signed w u =
    let low = u % 2 ^ w in if ltb low (2 ^ (w - 1)) then pos low else negsuc (2 ^ w - 1 - low)

-- The number that sdp_signed_decimal_str prints, behind the casts of its switch.
unfoldable pub signed_decimal : ℕ → ℕ → ℤ
signed_decimal u num_bits =
    if num_bits == 4
    then (let uc = bit_and u 0xf in
        as_signed 8 (if bit_and 0x8 uc == 0 then uc else bit_or uc 0xf0))
    else if num_bits == 8
    then as_signed 8 u
    else if num_bits == 16
    then as_signed 16 u
    else if num_bits == 24
    then (let ui = bit_and 0xffffff u in
        as_signed 32 (if bit_and 0x800000 ui == 0 then ui else bit_or ui 0xff000000))
    else if num_bits == 32
    then as_signed 32 u
    else as_signed 64 u

-- sdp_get_desc_id
unfoldable pub get_desc_id : ℕ → ℕ
get_desc_id flags = bit_and 0xf0000 flags / 2 ^ 16
