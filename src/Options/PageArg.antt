-- ===== src/Options/PageArg.antt =====
-- parse_page_str of src/sdparm.c: the mode or VPD page that --page= names.
use sdparm.Prelude.{
  ℕ, Bool, true, false, ◌&&◌, ◌||◌, Option, none, some, List, [], ◌∷◌, if◌then◌else◌,
}
use sdparm.Prelude.Int.{ℤ, pos, negsuc, is_neg, ltb_ℤ}
use sdparm.Prelude.Text.{codes, is_alpha}
use sdparm.SgLib.{SgLib}
use sdparm.Tables.Types.{MpName, VpdPage}
use sdparm.Lookup.{find_mp_nm_by_acron, find_vpd_by_acron}
use sdparm.Settings.{def_transport}
use sdparm.Settings.Text.{split_at, same_text}

-- What is chosen: op->cl_pn and op->cl_spn, op->inquiry and op->transport from then on, and the
-- device type behind t_com_pdtp.
pub record Choice : Type 0 where
  pub cl_pn : ℤ
  pub cl_spn : ℤ
  pub inquiry : Bool
  pub transport : ℤ
  pub t_com_pdt : ℤ

-- The lists of names that are printed with an error are left out.
pub data PageArg : Type 0 where
  chosen : Choice → PageArg
  page_syntax_error : PageArg
  page_contradict : PageArg

-- What the options say before --page= is looked at.
pub record Context : Type 0 where
  pub inquiry : Bool
  pub transport : ℤ
  pub vendor_id : ℤ
  pub t_com_pdt : ℤ

-- VPD_NOT_STD_INQ
abbrev pub std_inq : ℤ
std_inq = negsuc 1

unfoldable pub mode_chosen : Context → ℤ → MpName → PageArg
mode_chosen ctx trans mnp =
    if ctx.inquiry
    then page_contradict
    else chosen (record {
      cl_pn = pos mnp.page;
      cl_spn = pos mnp.subpage;
      inquiry = ctx.inquiry;
      transport = trans;
      t_com_pdt = mnp.com_pdt;
    })

unfoldable pub vpd_chosen : Context → VpdPage → PageArg
vpd_chosen ctx vpp = chosen (record {
  cl_pn = vpp.vpd_num;
  cl_spn = pos vpp.subvalue;
  inquiry = true;
  transport = ctx.transport;
  t_com_pdt = vpp.com_pdt;
})

abbrev pub default_mode : Context → Option MpName → PageArg
default_mode ctx none = page_syntax_error
default_mode ctx (some mnp) = mode_chosen ctx def_transport mnp

-- The order of the searches; the last one is made with the default transport.
unfoldable pub by_acron : Context → Option MpName → Option VpdPage → Option MpName → PageArg
unfolding mode_chosen vpd_chosen
by_acron ctx (some mnp) vpp again = mode_chosen ctx ctx.transport mnp
by_acron ctx none (some vpp) again = vpd_chosen ctx vpp
by_acron ctx none none again =
    if is_neg ctx.vendor_id && is_neg ctx.transport
    then default_mode ctx again
    else page_syntax_error

abbrev pub numbered : Context → ℤ → ℤ → PageArg
numbered ctx pn spn = chosen (record {
  cl_pn = pn;
  cl_spn = spn;
  inquiry = ctx.inquiry;
  transport = ctx.transport;
  t_com_pdt = ctx.t_com_pdt;
})

-- The second number stands behind a comma.
unfoldable pub by_number : SgLib → Context → ℤ → Option (List ℕ × List ℕ) → PageArg
by_number sg ctx pn none = numbered ctx pn (pos 0)
by_number sg ctx pn (some (a, b)) =
    let spn = sg.get_num_nomult b in
    if is_neg spn || ltb_ℤ (pos 255) spn then page_syntax_error else numbered ctx pn spn

abbrev pub starts_alpha : List ℕ → Bool
starts_alpha [] = false
starts_alpha (c ∷ s) = is_alpha c

unfoldable pub parse_page_str : SgLib → Context → List ℕ → PageArg
unfolding by_acron by_number
parse_page_str sg ctx pg_str =
    let pn = sg.get_num_nomult pg_str in
    if same_text (codes "-1") pg_str || same_text (codes "-2") pg_str
    then chosen (record {
      cl_pn = std_inq;
      cl_spn = negsuc 0;
      inquiry = true;
      transport = ctx.transport;
      t_com_pdt = ctx.t_com_pdt;
    })
    else if starts_alpha pg_str
    then by_acron ctx (find_mp_nm_by_acron pg_str ctx.transport ctx.vendor_id)
        (find_vpd_by_acron pg_str) (find_mp_nm_by_acron pg_str def_transport ctx.vendor_id)
    else if is_neg pn || ltb_ℤ (pos 255) pn
    then page_syntax_error
    else by_number sg ctx pn (split_at b',' pg_str)
