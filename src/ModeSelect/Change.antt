-- ===== src/ModeSelect/Change.antt =====
-- change_mode_page of src/sdparm.c, which --set= and --clear= come down to.
pub mod Edits
pub mod Commit
pub mod Written
pub mod Whole
use sdparm.Prelude.{
  ℕ, ◌+◌, ◌-◌, ◌%◌, ◌^◌, Bool, true, false, not, ◌&&◌, ◌||◌, Option, none, some, List, [], ◌∷◌,
  ◌++◌, get_or, set, take, drop, replicate, ltb, leb, ◌==◌, if◌then◌else◌,
}
use Prim.Native.Nat.{bit_and}
use sdparm.Prelude.Int.{ℤ, pos, negsuc, is_neg, ltb_ℤ, ◌==ℤ◌}
use sdparm.SgLib.{SgLib}
use sdparm.Tables.Types.{MpItem, MpName, Descriptor}
use sdparm.Field.{mpage_len, mitem_set_value}
use sdparm.Lookup.{get_mp_nm}
use sdparm.Descriptor.{Adjusted, moved, refused, bad_read, desc_adjust_start_byte}
use sdparm.ModeSelect.{
  Request, Device, Options, Status, done, syntax_error, malformed, other_error, undefined, Fetched,
  failed, fetched, fetch_page, clear_data_len, send_page,
}

-- struct sdparm_mp_it_val_t. `orig_val` is only read for a warning.
pub record MpItVal : Type 0 where
  pub mp_it : MpItem
  pub val : ℤ
  pub descriptor_num : ℕ

-- struct sdparm_mp_settings_t; `num_it_vals` is the length of the list.
pub record MpSettings : Type 0 where
  pub pg_num : ℤ
  pub subpg_num : ℤ
  pub it_vals : List MpItVal

-- The conversion of an int64_t to uint64_t.
abbrev pub to_u64 : ℤ → ℕ
to_u64 (pos n) = n % 2 ^ 64
to_u64 (negsuc n) = 2 ^ 64 - 1 - n % 2 ^ 64

-- Where the item of one setting stands, or why there is none.
pub data Located : Type 0 where
  at : MpItem → Located
  nowhere : Status → Located

-- The mode data after one or more items were set, or the reason to stop.
pub data Edited : Type 0 where
  edited : List ℕ → Edited
  stopped : Status → Edited

-- check_desc_convert_mpip, and the template that it has checked to be there. The copy of the item
-- has an acronym with the descriptor's number behind it, which is only printed.
unfoldable pub check_desc_convert_mpip : Option MpName → MpItem → Option Descriptor
check_desc_convert_mpip none mpip = none
check_desc_convert_mpip (some mnp) mpip = elim mnp.mp_desc [
  | none ↦ none
  | some mdp ↦ elim mpip.acron [ none ↦ none | some acron ↦ some mdp ]
]

-- `mdpg[off] &= 0x7f;`
abbrev pub mask_ps : ℕ → List ℕ → List ℕ
mask_ps off mdpg = set mdpg off (bit_and 0x7f (get_or mdpg off 0))

-- What sdp_get_mp_nm returns; its fuel is enough.
abbrev returned : Option (Option MpName) → Option MpName
returned none = none
returned (some mnp) = mnp

module _ (sg : SgLib) where
  -- Does no acronym's peripheral device type contradict the device's?
  unfoldable pub pdt_ok : ℤ → List MpItVal → Bool
  pdt_ok pdt [] = true
  pdt_ok pdt (ivp ∷ rest) =
      let numeric : Bool = elim ivp.mp_it.acron [ none ↦ true | some acron ↦ false ] in
      (numeric || sg.pdt_s_eq pdt ivp.mp_it.com_pdt) && pdt_ok pdt rest

  -- sdp_get_mp_nm_with_str, less the name that it writes
  unfoldable pub get_mp_nm_with_str : ℤ → ℤ → ℤ → ℤ → ℤ → Option MpName
  get_mp_nm_with_str page_num subpage_num pdt transp_proto vendor_id =
      let any_type =
        returned (get_mp_nm sg page_num subpage_num (negsuc 0) transp_proto vendor_id) in
      elim (returned (get_mp_nm sg page_num subpage_num pdt transp_proto vendor_id)) [
        | some mnp ↦ some mnp
        | none ↦ any_type
      ]

  -- sdp_mitem_set_value at `mdpg + off`
  abbrev pub set_at : ℕ → ℤ → MpItem → List ℕ → List ℕ
  set_at off val mpip mdpg = take off mdpg ++ mitem_set_value sg (to_u64 val) mpip (drop off mdpg)

  module _ (op : Options) where
    -- The part of the loop that treats an item of a descriptor.
    unfoldable pub locate : Option MpName → MpItVal → List ℕ → ℕ → Located
    locate mnp ivp cur_mp len =
        if ltb 0 ivp.descriptor_num
        then elim (check_desc_convert_mpip mnp ivp.mp_it) [
          | none ↦ nowhere syntax_error
          | some mdp ↦
              elim (desc_adjust_start_byte sg ivp.descriptor_num mdp cur_mp len ivp.mp_it) [
                | moved mpip ↦ at mpip
                | refused ↦ nowhere other_error
                | bad_read ↦ nowhere undefined
              ]
        ]
        else at ivp.mp_it

    -- One round of the loop over the settings.
    unfoldable pub edit_item : Option MpName → ℕ → ℕ → MpItVal → List ℕ → Edited
    edit_item mnp off len ivp mdpg = elim (locate mnp ivp (drop off mdpg) len) [
      | nowhere status ↦ stopped status
      | at mpip ↦
          if leb len mpip.start_byte && not op.flexible
          then stopped malformed
          else edited (set_at off ivp.val mpip mdpg)
    ]

    -- The whole loop.
    unfoldable pub edit_items : Option MpName → ℕ → ℕ → List MpItVal → List ℕ → Edited
    edit_items mnp off len [] mdpg = edited mdpg
    edit_items mnp off len (ivp ∷ rest) mdpg = elim (edit_item mnp off len ivp mdpg) [
      | stopped status ↦ stopped status
      | edited mdpg' ↦ edit_items mnp off len rest mdpg'
    ]

    -- What the code does to the header before the loop: the length is cleared, and for a disk the
    -- device specific parameter.
    unfoldable pub clear_header : ℤ → List ℕ → List ℕ
    clear_header pdt mdpg =
        let cleared = clear_data_len op mdpg in
        if pdt ==ℤ pos 0 then set cleared (if op.mode_6 then 2 else 3) 0 else cleared

    module _ (dev : Device) where
      -- What follows the loop.
      unfoldable pub commit : ℕ → ℕ → List Request → List ℕ → Status × List Request
      commit off md_len log mdpg =
          if bit_and 0x80 (get_or mdpg off 0) == 0 && op.save
          then (malformed, log)
          else if op.dummy
          then (done, log)
          else send_page sg dev op (mask_ps off mdpg) md_len log

      -- change_mode_page: what it returns and the requests that it sends.
      unfoldable pub change_mode_page : ℤ → MpSettings → Status × List Request
      change_mode_page pdt mps =
          let mnp = get_mp_nm_with_str mps.pg_num mps.subpg_num pdt op.transport op.vendor_id in
          let mdpg = replicate 2048 0 in
          if not (is_neg pdt) && not (pdt_ok pdt mps.it_vals)
          then (syntax_error, [])
          else elim (fetch_page sg dev op mps.pg_num mps.subpg_num false 2048 (λ md_len. md_len)
              mdpg []) [
                | failed status log ↦ (status, log)
                | fetched resp md_len off log ↦
                    let len = mpage_len sg (drop off resp) in
                    elim (edit_items mnp off len mps.it_vals (clear_header pdt resp)) [
                      | stopped status ↦ (status, log)
                      | edited mdpg' ↦ commit off md_len log mdpg'
                    ]
              ]
