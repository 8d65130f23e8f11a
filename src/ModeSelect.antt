-- ===== src/ModeSelect.antt =====
-- The commands by which src/sdparm.c changes mode pages. The device answers each request by
-- itself and by all requests that came before, so that it may keep any state.
pub mod Change
pub mod Defaults
pub mod Sent
pub mod Fetch
use sdparm.Prelude.{
  ℕ, ◌+◌, ◌-◌, Bool, true, false, Option, none, some, List, [], ◌∷◌, ◌++◌, length, get_or, set,
  take, drop, not, ◌&&◌, ltb, ◌==◌, if◌then◌else◌,
}
use sdparm.Prelude.Int.{ℤ, pos, is_neg, pos_part, ◌==ℤ◌}
use sdparm.SgLib.{SgLib}

-- The commands that are sent, with the parameters that depend on the options and the page. Sense
-- commands ask for current values.
pub data Request : Type 0 where
  sense6 : (dbd : Bool) → (pn spn : ℤ) → (mx_resp_len : ℕ) → Request
  sense10 : (llbaa dbd : Bool) → (pn spn : ℤ) → (mx_resp_len : ℕ) → Request
  page_controls : (mode_6 dbd flexible : Bool) → (pn spn : ℤ) → (req_len : ℕ) → Request
  select6 : (pf rtd sp : Bool) → (param : List ℕ) → Request
  select10 : (pf rtd sp : Bool) → (param : List ℕ) → Request

abbrev pub is_select : Request → Bool
is_select (sense6 dbd pn spn len) = false
is_select (sense10 llbaa dbd pn spn len) = false
is_select (page_controls mode_6 dbd flexible pn spn len) = false
is_select (select6 pf rtd sp param) = true
is_select (select10 pf rtd sp param) = true

-- What a MODE SENSE gives: its result, the bytes that it writes and the residual count.
pub record SenseReply : Type 0 where
  pub res : ℤ
  pub data_in : List ℕ
  pub resid : ℕ

-- What sg_get_mode_page_controls gives: its result, the success mask, the current and the default
-- page.
pub record ControlsReply : Type 0 where
  pub res : ℤ
  pub smask : ℕ
  pub cur_mp : List ℕ
  pub def_mp : List ℕ

-- A device behind sg_ll_mode_sense6, sg_ll_mode_sense10_v2, sg_get_mode_page_controls,
-- sg_ll_mode_select6 and sg_ll_mode_select10_v2. Requests stand with the latest first.
pub record Device : Type 0 where
  pub mode_sense : List Request → Request → SenseReply
  pub get_controls : List Request → Request → ControlsReply
  pub mode_select : List Request → Request → ℤ

-- The fields of struct sdparm_opt_coll that these commands read.
pub record Options : Type 0 where
  pub dbd : Bool
  pub dummy : Bool
  pub flexible : Bool
  pub mode_6 : Bool
  pub save : Bool
  pub transport : ℤ
  pub vendor_id : ℤ

-- What is returned: 0, an SG_LIB_* value of the program's own, or what the device has returned.
-- `undefined` stands for a read outside of the page, whose effect C leaves open.
pub data Status : Type 0 where
  done : Status
  syntax_error : Status
  malformed : Status
  other_error : Status
  illegal_request : Status
  device_error : (res : ℤ) → Status
  undefined : Status

abbrev pub status_of : ℤ → Status
status_of res = if res ==ℤ pos 0 then done else device_error res

-- What a buffer holds after a command wrote to it, at most `mx_resp_len` bytes.
abbrev pub received : ℕ → List ℕ → List ℕ → List ℕ
received mx_resp_len data_in resp =
    take mx_resp_len data_in ++ drop (length (take mx_resp_len data_in)) resp

pub record Sensed : Type 0 where
  pub res : ℤ
  pub resp : List ℕ
  pub resid : ℕ
  pub log : List Request

-- A page that was read: the buffer, the length of the mode data and the page's offset in it; or
-- the reason why it was not read. Either with the requests so far.
pub data Fetched : Type 0 where
  failed : Status → List Request → Fetched
  fetched : (resp : List ℕ) → (md_len off : ℕ) → List Request → Fetched

-- Either MODE SELECT of a page, with PF set and RTD clear.
abbrev pub page_select : Options → List ℕ → Request
page_select op param =
    if op.mode_6 then select6 true false op.save param else select10 true false op.save param

-- The mode data length, as the header of a response gives it.
unfoldable pub mode_data_len : SgLib → Options → List ℕ → ℕ
mode_data_len sg op resp = if op.mode_6 then get_or resp 0 0 + 1 else sg.get_unaligned_be16 resp + 2

-- The mode data length is reserved in a MODE SELECT.
unfoldable pub clear_data_len : Options → List ℕ → List ℕ
clear_data_len op mdpg = if op.mode_6 then set mdpg 0 0 else set (set mdpg 0 0) 1 0

module _ (sg : SgLib) (dev : Device) (op : Options) where
  -- ll_mode_sense, but for the counts of its results
  unfoldable pub ll_mode_sense : ℤ → ℤ → Bool → List ℕ → ℕ → List Request → Sensed
  ll_mode_sense pn spn llbaa resp mx_resp_len log =
      if op.mode_6
      then (let req = sense6 op.dbd pn spn mx_resp_len in
          let reply = dev.mode_sense log req in
          record {
            res = reply.res;
            resp = received mx_resp_len reply.data_in resp;
            resid = 0;
            log = req ∷ log;
          })
      else (let req = sense10 llbaa op.dbd pn spn mx_resp_len in
          let reply = dev.mode_sense log req in
          record {
            res = reply.res;
            resp = received mx_resp_len reply.data_in resp;
            resid = reply.resid;
            log = req ∷ log;
          })

  -- What change_mode_page and set_def_mode_page both do behind the second MODE SENSE;
  -- `offset_len` is the length that sg_mode_page_offset is given.
  unfoldable pub find_page : (ℕ → ℕ) → ℕ → Sensed → Fetched
  find_page offset_len md_len second =
      let left = md_len - second.resid in
      let off = sg.mode_page_offset second.resp (offset_len left) op.mode_6 in
      if not (second.res ==ℤ pos 0)
      then failed (device_error second.res) second.log
      else if ltb 0 second.resid && ltb left 4
      then failed malformed second.log
      else if is_neg off
      then failed malformed second.log
      else fetched second.resp left (pos_part off) second.log

  -- Both begin alike: the first 4 bytes are read for the mode data length, which a buffer of
  -- `limit` bytes must hold, and then all of it.
  unfoldable pub fetch_page : ℤ → ℤ → Bool → ℕ → (ℕ → ℕ) → List ℕ → List Request → Fetched
  fetch_page pn spn llbaa limit offset_len buf log =
      let first = ll_mode_sense pn spn llbaa buf 4 log in
      let md_len = mode_data_len sg op first.resp in
      let second = ll_mode_sense pn spn llbaa first.resp md_len first.log in
      if not (first.res ==ℤ pos 0)
      then failed (device_error first.res) first.log
      else if ltb 0 first.resid
      then failed malformed first.log
      else if ltb limit md_len
      then failed malformed first.log
      else find_page offset_len md_len second

  -- The write to the device.
  unfoldable pub send_page : List ℕ → ℕ → List Request → Status × List Request
  send_page mdpg md_len log =
      let req = page_select op (take md_len mdpg) in
      (status_of (dev.mode_select log req), req ∷ log)
