-- ===== src/Commands/Process.antt =====
-- sdp_process_cmd of src/sdparm_cmd.c and the commands that it calls, against a device that answers
-- by its whole history of requests. The profiles of a drive are requested, but not what is printed
-- of them; the same holds for the text of sense data.
use sdparm.Prelude.{
  ℕ, ◌+◌, ◌*◌, ◌/◌, ◌^◌, ◌%◌, get_or, Bool, true, false, not, ◌||◌, List, [], ◌∷◌, ◌++◌, take, drop,
  replicate, ltb, length, ◌==◌, if◌then◌else◌,
}
use sdparm.Prelude.Int.{ℤ, pos, is_neg, ◌==ℤ◌, pos_part}
use sdparm.SgLib.{SgLib}
use sdparm.Tables.Types.{Command}

-- The SCSI commands, with the arguments that the code does not fix.
pub data CmdRequest : Type 0 where
  test_unit_ready : CmdRequest
  request_sense : CmdRequest
  read_capacity_10 : CmdRequest
  read_capacity_16 : CmdRequest
  get_performance : CmdRequest
  get_config : CmdRequest
  start_stop_unit : (loej start : Bool) → CmdRequest
  set_streaming : (cmd_arg : ℕ) → CmdRequest
  sync_cache : CmdRequest
  allow_removal : CmdRequest

-- An answer: the result, the bytes that come in, and the progress of a device that is not ready.
pub record Answer : Type 0 where
  pub res : ℤ
  pub data_in : List ℕ
  pub progress : ℤ

-- A device. The requests stand with the latest first.
abbrev pub Drive : Type 0
Drive = List CmdRequest → CmdRequest → Answer

-- What READ CAPACITY (16) says besides, which -l shows.
pub record LongCapacity : Type 0 where
  pub zbc_rc_basis : ℕ
  pub p_type : ℕ
  pub prot_en : ℕ
  pub p_i_exponent : ℕ
  pub lbs_per_physical_block_exponent : ℕ
  pub lbpme : ℕ
  pub lbprz : ℕ
  pub lowest_aligned_lba : ℕ

-- What is printed. The capacity in MiB is the product of the two numbers and is left out.
pub data Shown : Type 0 where
  capacity : (blocks block_length : ℕ) → Shown
  long_capacity : LongCapacity → Shown
  ready : Shown
  not_ready : Shown
  percent_done : ℤ → Shown
  sense_hex : List ℕ → Shown
  in_progress : (percent hundredths : ℕ) → Shown
  sense : (sk asc ascq : ℕ) → Shown
  speed : ℕ → Shown

-- What a command returns, what it prints and the requests.
pub record Outcome : Type 0 where
  pub res : ℤ
  pub shown : List Shown
  pub log : List CmdRequest

-- The options that the commands read.
pub record CmdOptions : Type 0 where
  pub flexible : Bool
  pub do_long : Bool
  pub hex : Bool
  pub do_quiet : ℕ

abbrev outcome : ℤ → List Shown → List CmdRequest → Outcome
outcome res shown log = record { res = res; shown = shown; log = log }

-- A request of which only the result counts.
abbrev pub only_request : Drive → CmdRequest → Outcome
only_request dev r = outcome (dev [] r).res [] (r ∷ [])

-- aligned_buff as it is allocated, up to where it is read.
abbrev pub aligned_buff : List ℕ
aligned_buff = replicate 512 0

-- The buffer once at most `n` bytes have come in.
abbrev pub filled : ℕ → List ℕ → List ℕ → List ℕ
filled n data_in buff = take n data_in ++ drop (length (take n data_in)) buff

-- The fields behind the block length.
abbrev pub long_fields : SgLib → List ℕ → LongCapacity
long_fields sg buff = record {
  zbc_rc_basis = get_or buff 12 0 / 16 % 4;
  p_type = get_or buff 12 0 / 2 % 8;
  prot_en = get_or buff 12 0 % 2;
  p_i_exponent = get_or buff 13 0 / 16 % 16;
  lbs_per_physical_block_exponent = get_or buff 13 0 % 16;
  lbpme = get_or buff 14 0 / 128 % 2;
  lbprz = get_or buff 14 0 / 64 % 2;
  lowest_aligned_lba = sg.get_unaligned_be16 (get_or buff 14 0 % 64 ∷ (get_or buff 15 0 ∷ []));
}

module _ (sg : SgLib) (dev : Drive) where
  -- `last + 1` has the width of `last`. The buffer is the one that READ CAPACITY (10) wrote to, if
  -- it was sent.
  unfoldable pub read_capacity_long : Bool → List ℕ → List CmdRequest → Outcome
  read_capacity_long do_long before log =
      let a = dev log read_capacity_16 in
      let buff = filled 32 a.data_in before in
      if a.res ==ℤ pos 0
      then outcome (pos 0)
          (capacity ((sg.get_unaligned_be64 buff + 1) % 2 ^ 64)
              (sg.get_unaligned_be32 (drop 8 buff))
            ∷ (if do_long then long_capacity (long_fields sg buff) ∷ [] else []))
          (read_capacity_16 ∷ log)
      else outcome a.res [] (read_capacity_16 ∷ log)

  unfoldable pub read_capacity : Bool → Outcome
  unfolding read_capacity_long
  read_capacity do_long =
      let a = dev [] read_capacity_10 in
      let buff = filled 8 a.data_in aligned_buff in
      let last_blk_addr = sg.get_unaligned_be32 buff in
      if do_long
      then read_capacity_long do_long aligned_buff []
      else if not (a.res ==ℤ pos 0)
      then outcome a.res [] (read_capacity_10 ∷ [])
      else if last_blk_addr == 0xffffffff
      then read_capacity_long do_long buff (read_capacity_10 ∷ [])
      else outcome (pos 0)
          (capacity ((last_blk_addr + 1) % 2 ^ 32) (sg.get_unaligned_be32 (drop 4 buff)) ∷ [])
          (read_capacity_10 ∷ [])

  unfoldable pub cmd_ready : Outcome
  cmd_ready =
      let a = dev [] test_unit_ready in
      outcome a.res
        ((if a.res ==ℤ pos 0
            then ready
            else if is_neg a.progress
            then not_ready
            else percent_done (pos (pos_part a.progress * 100 / 65536)))
          ∷ [])
        (test_unit_ready ∷ [])

  -- MAX_REQ_SENSE_SZ is 64. How the sense key and the two codes are put into words is left out.
  unfoldable pub cmd_sense : Bool → Outcome
  cmd_sense hex =
      let a = dev [] request_sense in
      let buff = filled 64 a.data_in aligned_buff in
      let resp_len = get_or buff 7 0 + 8 in
      let asc = if ltb 12 resp_len then get_or buff 12 0 else 0 in
      let ascq = if ltb 13 resp_len then get_or buff 13 0 else 0 in
      let progress = sg.get_sense_progress_fld buff resp_len in
      let scaled = pos_part progress * 100 in
      outcome a.res
        (if not (a.res ==ℤ pos 0)
          then []
          else if hex
          then sense_hex (take resp_len buff) ∷ []
          else (if is_neg progress
              then []
              else in_progress (scaled / 65536) (scaled % 65536 / 656) ∷ [])
            ++ (sense (get_or buff 2 0 % 16) asc ascq ∷ []))
        (request_sense ∷ [])

  -- The ending speed is not printed if --quiet is given twice.
  unfoldable pub cmd_speed : ℤ → ℕ → Outcome
  cmd_speed cmd_arg do_quiet =
      let a = dev [] get_performance in
      let buff = filled 264 a.data_in aligned_buff in
      let start = speed (sg.get_unaligned_be32 (drop 12 buff)) in
      let end = speed (sg.get_unaligned_be32 (drop 20 buff)) in
      if not (is_neg cmd_arg)
      then only_request dev (set_streaming (pos_part cmd_arg))
      else outcome a.res
          (if not (a.res ==ℤ pos 0)
            then []
            else if ltb 1 do_quiet
            then start ∷ []
            else start ∷ (end ∷ []))
          (get_performance ∷ [])

  -- The switch; SG_LIB_SYNTAX_ERROR is 1.
  unfoldable pub run_cmd : ℕ → ℤ → CmdOptions → Outcome
  unfolding read_capacity cmd_ready cmd_sense cmd_speed
  run_cmd cmd_num cmd_arg op =
      if cmd_num == 9
      then read_capacity op.do_long
      else if cmd_num == 5
      then only_request dev (start_stop_unit true false)
      else if cmd_num == 4
      then only_request dev (start_stop_unit true true)
      else if cmd_num == 11
      then only_request dev get_config
      else if cmd_num == 1
      then cmd_ready
      else if cmd_num == 7
      then cmd_sense op.hex
      else if cmd_num == 10
      then cmd_speed cmd_arg op.do_quiet
      else if cmd_num == 2
      then only_request dev (start_stop_unit false true)
      else if cmd_num == 3
      then only_request dev (start_stop_unit false false)
      else if cmd_num == 8
      then only_request dev sync_cache
      else if cmd_num == 6
      then only_request dev allow_removal
      else outcome (pos 1) [] []

  -- Disks have peripheral device type 0, drives of CDs and DVDs 5.
  unfoldable pub process_cmd : Command → ℤ → ℤ → CmdOptions → Outcome
  unfolding run_cmd
  process_cmd scmdp cmd_arg pdt op =
      if not
        (op.flexible || scmdp.cmd_num == 1 || scmdp.cmd_num == 7 || pdt ==ℤ pos 0 || pdt ==ℤ pos 5)
      then outcome (pos 1) [] []
      else run_cmd scmdp.cmd_num cmd_arg op
