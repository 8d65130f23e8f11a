-- ===== src/Examples/Commands.antt =====
-- Runs of commands.
use sdparm.Prelude.{ℕ, true, false, List, [], ◌∷◌, ◌++◌, ◌≡◌, refl, arith, All, replicate}
use sdparm.Prelude.Int.{pos, negsuc}
use sdparm.SgLib.Model.{sample_lib, sample_laws}
use sdparm.Tables.Types.{Command, command}
use sdparm.Commands.{needs_rw}
use sdparm.Commands.Process.{
  read_capacity_10, read_capacity_16, Answer, Drive, CmdOptions, LongCapacity, capacity,
  long_capacity, read_capacity, process_cmd,
}
use sdparm.Commands.Safety.{IsReading, process_cmd-OnlyReads}
use sdparm.Commands.Capacity.{IsDrive, HasWidths, read_capacity-capacity}

abbrev answer : List ℕ → Answer
answer bytes = record { res = pos 0; data_in = bytes; progress = negsuc 0 }

-- Protection of type 1, 8 blocks to a physical one, block provisioning, aligned from block 7 on.
abbrev small_info : LongCapacity
small_info = record {
  zbc_rc_basis = 0;
  p_type = 1;
  prot_en = 1;
  p_i_exponent = 0;
  lbs_per_physical_block_exponent = 3;
  lbpme = 1;
  lbprz = 0;
  lowest_aligned_lba = 7;
}

-- 4096 blocks of 512 bytes.
abbrev small_drive : Drive
small_drive log read_capacity_10 = answer (0 ∷ (0 ∷ (0x0f ∷ (0xff ∷ (0 ∷ (0 ∷ (2 ∷ (0 ∷ []))))))))
small_drive log read_capacity_16 = answer (
    replicate 6 0
    ++ (0x0f ∷ (0xff ∷ (0 ∷ (0 ∷ (2 ∷ (0 ∷ (3 ∷ (3 ∷ (128 ∷ (7 ∷ replicate 16 0)))))))))))
small_drive log r = answer []

small_drive-IsDrive : IsDrive sample_lib small_drive 4096 512 small_info
unfolding sample_lib
small_drive-IsDrive = record {
  well_10 = λ log. refl;
  last_10 = λ log. refl;
  length_10 = λ log. refl;
  well_16 = λ log. refl;
  last_16 = λ log before. refl;
  length_16 = λ log before. refl;
  info_16 = λ log before. (refl, refl, refl, refl);
}

small_info-HasWidths : HasWidths small_info
small_info-HasWidths = (
  omega arith,
  omega arith,
  omega arith,
  omega arith,
  omega arith,
  omega arith,
  omega arith,
  omega arith,
)

read_capacity-capacity_example :
    (read_capacity sample_lib small_drive true).shown
    ≡ capacity 4096 512 ∷ (long_capacity small_info ∷ [])
read_capacity-capacity_example =
    read_capacity-capacity sample_lib sample_laws small_drive 4096 512 small_info
      small_drive-IsDrive (omega arith) (omega arith) small_info-HasWidths true

abbrev sense_command : Command
sense_command = command 7 "sense" "se"

abbrev plain_options : CmdOptions
plain_options = record { flexible = false; do_long = false; hex = false; do_quiet = 0 }

sense_reads : needs_rw sense_command ≡ false
unfolding needs_rw
sense_reads = refl

process_cmd-OnlyReads_example :
    All IsReading
      (process_cmd sample_lib small_drive sense_command (negsuc 0) (pos 1) plain_options).log
process_cmd-OnlyReads_example =
    process_cmd-OnlyReads sample_lib small_drive sense_command (negsuc 0) (pos 1) plain_options
      sense_reads
