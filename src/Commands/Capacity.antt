-- ===== src/Commands/Capacity.antt =====
-- The capacity that is shown.
use sdparm.Prelude.{
  ℕ, ◌+◌, ◌-◌, ◌*◌, ◌/◌, ◌^◌, ◌%◌, ◌≤◌, ◌<◌, Bool, true, false, List, [], ◌∷◌, ◌≡◌, ◌∙◌, refl,
  arith, drop, get_or, ◌==◌, Bool-cases, inl, inr, if◌then◌else◌,
}
use Prim.Native.Nat.{min}
use sdparm.Prelude.Int.{pos}
use sdparm.SgLib.{SgLib, SgLibLaws}
use sdparm.Commands.Process.{
  CmdRequest, read_capacity_10, read_capacity_16, Drive, Shown, capacity, long_capacity,
  LongCapacity, aligned_buff, filled, long_fields, read_capacity_long, read_capacity,
}

-- The widths of the fields of bytes 12 to 15 of the answer to READ CAPACITY (16).
abbrev pub HasWidths : LongCapacity → Type 0
HasWidths i =
    (i.zbc_rc_basis < 4)
    × (i.p_type < 8)
    × (i.prot_en < 2)
    × (i.p_i_exponent < 16)
    × (i.lbs_per_physical_block_exponent < 16)
    × (i.lbpme < 2)
    × (i.lbprz < 2)
    × (i.lowest_aligned_lba < 2 ^ 14)

-- These bytes as SCSI lays them out.
abbrev pub IsLaidOut : LongCapacity → List ℕ → Type 0
IsLaidOut i buff =
    (get_or buff 12 0 ≡ i.zbc_rc_basis * 16 + i.p_type * 2 + i.prot_en)
    × (get_or buff 13 0 ≡ i.p_i_exponent * 16 + i.lbs_per_physical_block_exponent)
    × (get_or buff 14 0 ≡ i.lbpme * 128 + i.lbprz * 64 + i.lowest_aligned_lba / 256)
    × (get_or buff 15 0 ≡ i.lowest_aligned_lba % 256)

-- A drive of some blocks of a length answers as SCSI has it, whatever the buffer held before: READ
-- CAPACITY (10) gives the last block's address, or 2 ^ 32 - 1 if that has more than 32 bits, READ
-- CAPACITY (16) always gives it, and more.
pub record IsDrive (sg : SgLib) (dev : Drive) (blocks block_length : ℕ) (info : LongCapacity)
    : Type 0 where
  pub well_10 : (log : List CmdRequest) → (dev log read_capacity_10).res ≡ pos 0
  pub last_10 :
      (log : List CmdRequest)
      → sg.get_unaligned_be32 (filled 8 (dev log read_capacity_10).data_in aligned_buff)
        ≡ min (blocks - 1) (2 ^ 32 - 1)
  pub length_10 :
      (log : List CmdRequest)
      → sg.get_unaligned_be32 (drop 4 (filled 8 (dev log read_capacity_10).data_in aligned_buff))
        ≡ block_length
  pub well_16 : (log : List CmdRequest) → (dev log read_capacity_16).res ≡ pos 0
  pub last_16 :
      (log : List CmdRequest) (before : List ℕ)
      → sg.get_unaligned_be64 (filled 32 (dev log read_capacity_16).data_in before) ≡ blocks - 1
  pub length_16 :
      (log : List CmdRequest) (before : List ℕ)
      → sg.get_unaligned_be32 (drop 8 (filled 32 (dev log read_capacity_16).data_in before))
        ≡ block_length
  pub info_16 :
      (log : List CmdRequest) (before : List ℕ)
      → IsLaidOut info (filled 32 (dev log read_capacity_16).data_in before)

module _ (sg : SgLib) (laws : SgLibLaws sg) where
  long_fields-IsLaidOut :
      (i : LongCapacity) (buff : List ℕ) → HasWidths i → IsLaidOut i buff → long_fields sg buff ≡ i
  long_fields-IsLaidOut i buff w l =
      let basis : get_or buff 12 0 / 16 % 4 ≡ i.zbc_rc_basis = omega (arith, l.0, w) in
      let type : get_or buff 12 0 / 2 % 8 ≡ i.p_type = omega (arith, l.0, w) in
      let enabled : get_or buff 12 0 % 2 ≡ i.prot_en = omega (arith, l.0, w) in
      let exponent : get_or buff 13 0 / 16 % 16 ≡ i.p_i_exponent = omega (arith, l.1, w) in
      let physical : get_or buff 13 0 % 16 ≡ i.lbs_per_physical_block_exponent =
        omega (arith, l.1, w) in
      let managed : get_or buff 14 0 / 128 % 2 ≡ i.lbpme = omega (arith, l.2, w) in
      let zero : get_or buff 14 0 / 64 % 2 ≡ i.lbprz = omega (arith, l.2, w) in
      let lowest : sg.get_unaligned_be16 (get_or buff 14 0 % 64 ∷ (get_or buff 15 0 ∷ []))
          ≡ i.lowest_aligned_lba =
        laws.be16_value (get_or buff 14 0 % 64) (get_or buff 15 0) []
        ∙ omega (arith, l.2, l.3, w) in
      rw (basis, type, enabled, exponent, physical, managed, zero, lowest) refl

  module _ (dev : Drive) (blocks block_length : ℕ) (info : LongCapacity)
      (d : IsDrive sg dev blocks block_length info) (some_block : 1 ≤ blocks)
      (addressable : blocks < 2 ^ 64) (widths : HasWidths info) where
    -- What is to be shown of the drive.
    abbrev lines : Bool → List Shown
    lines do_long = capacity blocks block_length ∷ (if do_long then long_capacity info ∷ [] else [])

    long_lines :
        (do_long : Bool) (before : List ℕ) (log : List CmdRequest)
        → (read_capacity_long sg dev do_long before log).shown ≡ lines do_long
    unfolding read_capacity_long
    long_lines do_long before log =
        let total : (blocks - 1 + 1) % 2 ^ 64 ≡ blocks = omega arith in
        rw
          (
            d.well_16 log,
            d.last_16 log before,
            d.length_16 log before,
            total,
            long_fields-IsLaidOut info _ widths (d.info_16 log before),
          )
          refl

    -- Of a drive with up to 2 ^ 64 - 1 blocks, the command `capacity` shows the number of blocks
    -- and their length, with and without -l, on both sides of the limit of READ CAPACITY (10); with
    -- -l, and only then, also each of the fields that READ CAPACITY (16) has behind them.
    pub read_capacity-capacity :
        (do_long : Bool)
        → (read_capacity sg dev do_long).shown
          ≡ capacity blocks block_length ∷ (if do_long then long_capacity info ∷ [] else [])
    unfolding read_capacity
    read_capacity-capacity true = long_lines true aligned_buff []
    read_capacity-capacity false = elim (Bool-cases (min (blocks - 1) (2 ^ 32 - 1) == 0xffffffff)) [
      | inl large ↦
          rw (d.well_10 [], d.last_10 [], large)
            (long_lines false (filled 8 (dev [] read_capacity_10).data_in aligned_buff)
              (read_capacity_10 ∷ []))
      | inr small ↦
          let total : (min (blocks - 1) (2 ^ 32 - 1) + 1) % 2 ^ 32 ≡ blocks =
            ground (arith, small) in
          rw (d.well_10 [], d.last_10 [], small, total, d.length_10 []) refl
    ]
