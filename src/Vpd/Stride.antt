-- ===== src/Vpd/Stride.antt =====
-- The pages whose descriptors all have one size and whose decoders in src/sdparm_vpd.c read them
-- without a look at what is left: CFA profiles, supported block lengths, concurrent positioning
-- ranges and SCSI feature sets. A mask and a shift are a remainder and a quotient.
use sdparm.Vpd.{
  short_descriptor, Round, row, last, Decoded, has, byte, be16, be32, be64, checked, ◌>>=◌, decode,
}
use sdparm.Prelude.{ℕ, ◌/◌, ◌%◌, some, List, [], if◌then◌else◌}
use sdparm.SgLib.{SgLib}

pub record CgaProfile : Type 0 where
  pub cga_profile_supported : ℕ
  pub sequential_write_data_size : ℕ

pub record BlockLength : Type 0 where
  pub logical_block_length : ℕ
  pub p_i_i_sup : ℕ
  pub no_pi_chk : ℕ
  pub grd_chk : ℕ
  pub app_chk : ℕ
  pub ref_chk : ℕ
  pub t3ps : ℕ
  pub t2ps : ℕ
  pub t1ps : ℕ
  pub t0ps : ℕ

pub record PosRange : Type 0 where
  pub lba_range_number : ℕ
  pub number_of_storage_elements : ℕ
  pub starting_lba : ℕ
  pub number_of_lbas : ℕ

module _ (sg : SgLib) where
  unfoldable pub cga_round : List ℕ → Round CgaProfile
  cga_round bp = checked do
    profile ← byte bp 0
    u ← be16 sg bp 2
    some (row (record { cga_profile_supported = profile; sequential_write_data_size = u }) 4)

  unfoldable pub decode_cga_profile_vpd : List ℕ → Decoded CgaProfile
  unfolding cga_round
  decode_cga_profile_vpd buff = decode 4 4 cga_round buff

  unfoldable pub block_len_round : List ℕ → Round BlockLength
  block_len_round bp = checked do
    u ← be32 sg bp 0
    b4 ← byte bp 4
    b5 ← byte bp 5
    some (
        row
          (record {
            logical_block_length = u;
            p_i_i_sup = b4 / 64 % 2;
            no_pi_chk = b4 / 8 % 2;
            grd_chk = b4 / 4 % 2;
            app_chk = b4 / 2 % 2;
            ref_chk = b4 % 2;
            t3ps = b5 / 8 % 2;
            t2ps = b5 / 4 % 2;
            t1ps = b5 / 2 % 2;
            t0ps = b5 % 2;
          })
          8)

  unfoldable pub decode_sup_block_lens_vpd : List ℕ → Decoded BlockLength
  unfolding block_len_round
  decode_sup_block_lens_vpd buff = decode 4 4 block_len_round buff

  unfoldable pub pos_range_round : List ℕ → Round PosRange
  pos_range_round bp = checked do
    b0 ← byte bp 0
    u ← byte bp 1
    start ← be64 sg bp 8
    n ← be64 sg bp 16
    some (
        row
          (record {
            lba_range_number = b0;
            number_of_storage_elements = u;
            starting_lba = start;
            number_of_lbas = n;
          })
          32)

  unfoldable pub decode_con_pos_range_vpd : List ℕ → Decoded PosRange
  unfolding pos_range_round
  decode_con_pos_range_vpd buff = decode 64 64 pos_range_round buff

  -- The check of the 2 bytes comes after their read, and never fails.
  unfoldable pub feature_set_round : List ℕ → Round ℕ
  feature_set_round bp =
      checked do
        sf_code ← be16 sg bp 0
        some (if has 2 bp then row sf_code 2 else last [] short_descriptor)

  unfoldable pub decode_feature_sets_vpd : List ℕ → Decoded ℕ
  unfolding feature_set_round
  decode_feature_sets_vpd buff = decode 4 8 feature_set_round buff
