-- ===== src/ModeSelect/Defaults.antt =====
-- The commands of src/sdparm.c by which --defaults resets one mode page or all of them.
pub mod Outcome
pub mod Content
use sdparm.Prelude.{
  ℕ, ◌+◌, ◌-◌, Bool, true, false, not, ◌&&◌, List, [], ◌∷◌, ◌++◌, get_or, take, drop, replicate,
  ltb, ◌==◌, if◌then◌else◌,
}
use Prim.Native.Nat.{bit_and}
use sdparm.Prelude.Int.{ℤ, pos, ◌==ℤ◌}
use sdparm.SgLib.{SgLib}
use sdparm.Field.{mpage_len}
use sdparm.ModeSelect.{
  Request, page_controls, select6, select10, Device, Options, Status, done, malformed,
  illegal_request, device_error, undefined, status_of, Fetched, failed, fetched, fetch_page,
  clear_data_len, send_page,
}
use sdparm.ModeSelect.Change.{mask_ps}

-- memcpy(mdp + off, mode_pg, n)
abbrev pub put_page : ℕ → ℕ → List ℕ → List ℕ → List ℕ
put_page off n mode_pg mdp = take off mdp ++ (take n mode_pg ++ drop (off + n) mdp)

module _ (sg : SgLib) (op : Options) (dev : Device) where
  -- set_def_mode_page behind the fetch. With an offset behind the mode data, C would pass memcpy
  -- a size below 0.
  unfoldable pub write_defaults : List ℕ → ℕ → Fetched → Status × List Request
  write_defaults mode_pg mode_pg_len (failed status log) = (status, log)
  write_defaults mode_pg mode_pg_len (fetched resp md_len off log) =
      if ltb md_len off
      then (undefined, log)
      else if ltb mode_pg_len (md_len - off)
      then (malformed, log)
      else if op.dummy
      then (done, log)
      else send_page sg dev op
          (mask_ps off (put_page off (md_len - off) mode_pg (clear_data_len op resp))) md_len log

  -- set_def_mode_page; MODE_DATA_OVERHEAD is 128.
  unfoldable pub set_def_mode_page : ℤ → ℤ → List ℕ → ℕ → List Request → Status × List Request
  set_def_mode_page pn spn mode_pg mode_pg_len log =
      let len = mode_pg_len + 128 in
      write_defaults mode_pg mode_pg_len
        (fetch_page sg dev op pn spn true len (λ md_len. len) (replicate len 0) log)

  -- set_mp_defaults
  unfoldable pub set_mp_defaults : ℤ → ℤ → Status × List Request
  set_mp_defaults pn spn =
      let req =
        page_controls op.mode_6 op.dbd op.flexible pn spn (if op.mode_6 then 252 else 512) in
      let reply = dev.get_controls [] req in
      if not (reply.res ==ℤ pos 0)
      then (device_error reply.res, req ∷ [])
      else if bit_and reply.smask 1 == 0
      then (illegal_request, req ∷ [])
      else if bit_and reply.smask 4 == 0
      then (illegal_request, req ∷ [])
      else set_def_mode_page pn spn reply.def_mp (mpage_len sg reply.cur_mp) (req ∷ [])

  -- set_all_page_defaults: RTD is set, and no page is given.
  unfoldable pub set_all_page_defaults : Status × List Request
  set_all_page_defaults =
      let req =
        if op.mode_6 then select6 false true op.save [] else select10 false true op.save [] in
      (status_of (dev.mode_select [] req), req ∷ [])
