-- ===== src/Commands/Safety.antt =====
-- What the commands send.
use sdparm.Prelude.{
  ℕ, Bool, true, false, not, ◌||◌, List, [], ◌∷◌, ◌≡◌, ◌⊎◌, inl, inr, arith, All, ◌==◌,
  if◌then◌else◌,
}
use sdparm.Prelude.Int.{ℤ, pos, ◌==ℤ◌}
use sdparm.SgLib.{SgLib}
use sdparm.Tables.Types.{Command}
use sdparm.Commands.{needs_rw}
use sdparm.Commands.Process.{
  CmdRequest, test_unit_ready, request_sense, read_capacity_10, read_capacity_16, get_performance,
  get_config, start_stop_unit, set_streaming, sync_cache, allow_removal, Drive, Outcome, CmdOptions,
  aligned_buff, filled, read_capacity_long, read_capacity, cmd_ready, cmd_sense, run_cmd,
  process_cmd,
}

-- A request that changes nothing in the drive.
abbrev pub IsReading : CmdRequest → Type 0
IsReading test_unit_ready = Unit {0}
IsReading request_sense = Unit {0}
IsReading read_capacity_10 = Unit {0}
IsReading read_capacity_16 = Unit {0}
IsReading get_performance = Unit {0}
IsReading get_config = Unit {0}
IsReading (start_stop_unit loej start) = ⊥
IsReading (set_streaming cmd_arg) = ⊥
IsReading sync_cache = ⊥
IsReading allow_removal = ⊥

abbrev OnlyReads : Outcome → Type 0
OnlyReads r = All IsReading r.log

either_OnlyReads :
    (b : Bool) (x y : Outcome) → OnlyReads x → OnlyReads y → OnlyReads (if b then x else y)
either_OnlyReads true x y hx hy = hx
either_OnlyReads false x y hx hy = hy

read_without : (n : ℕ) → not (n == 1 || n == 7 || n == 9) ≡ false → (n ≡ 9) ⊎ ((n ≡ 1) ⊎ (n ≡ 7))
read_without n h = ground (arith, h)

module _ (sg : SgLib) (dev : Drive) where
  read_capacity_long-OnlyReads :
      (do_long : Bool) (before : List ℕ) (log : List CmdRequest)
      → All IsReading log
      → OnlyReads (read_capacity_long sg dev do_long before log)
  unfolding read_capacity_long
  read_capacity_long-OnlyReads do_long before log h =
      either_OnlyReads ((dev log read_capacity_16).res ==ℤ pos 0) _ _ (tt, h) (tt, h)

  read_capacity-OnlyReads : (do_long : Bool) → OnlyReads (read_capacity sg dev do_long)
  unfolding read_capacity
  read_capacity-OnlyReads do_long =
      let a = dev [] read_capacity_10 in
      let buff = filled 8 a.data_in aligned_buff in
      either_OnlyReads do_long _ _ (read_capacity_long-OnlyReads do_long aligned_buff [] tt) (
        either_OnlyReads (not (a.res ==ℤ pos 0)) _ _ (tt, tt)
          (either_OnlyReads (sg.get_unaligned_be32 buff == 0xffffffff) _ _
            (read_capacity_long-OnlyReads do_long buff (read_capacity_10 ∷ []) (tt, tt)) (tt, tt)))

  run_cmd-OnlyReads :
      (n : ℕ) (cmd_arg : ℤ) (op : CmdOptions)
      → (n ≡ 9) ⊎ ((n ≡ 1) ⊎ (n ≡ 7))
      → OnlyReads (run_cmd sg dev n cmd_arg op)
  unfolding run_cmd cmd_ready cmd_sense
  run_cmd-OnlyReads n cmd_arg op (inl e) = rw e (read_capacity-OnlyReads op.do_long)
  run_cmd-OnlyReads n cmd_arg op (inr (inl e)) = rw e (tt, tt)
  run_cmd-OnlyReads n cmd_arg op (inr (inr e)) = rw e (tt, tt)

  -- A command for which sdp_build_cmd does not ask that the device be opened for writing sends
  -- only requests that change nothing in it, whatever the device answers and the options are.
  pub process_cmd-OnlyReads :
      (scmdp : Command) (cmd_arg pdt : ℤ) (op : CmdOptions)
      → needs_rw scmdp ≡ false
      → All IsReading (process_cmd sg dev scmdp cmd_arg pdt op).log
  unfolding process_cmd needs_rw
  process_cmd-OnlyReads scmdp cmd_arg pdt op h =
      either_OnlyReads
        (not (
          op.flexible
          || scmdp.cmd_num == 1
          || scmdp.cmd_num == 7
          || pdt ==ℤ pos 0
          || pdt ==ℤ pos 5))
        _ _ tt (run_cmd-OnlyReads scmdp.cmd_num cmd_arg op (read_without scmdp.cmd_num h))
