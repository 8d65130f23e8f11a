-- ===== src/Lookup.antt =====
-- The searches of src/sdparm_access.c in the tables. A table is a list, whose end stands for the
-- sentinel row; a NULL result is `none`.
pub mod Pages
pub mod Items
pub mod Vpd
pub mod Select
use sdparm.Prelude.{
  ℕ, zero, suc, ◌+◌, ◌≡◌, Bool, true, false, not, ◌&&◌, ◌||◌, Option, none, some, List, [], ◌∷◌,
  length, get_elem?, drop, ◌==◌, if◌then◌else◌,
}
use sdparm.Prelude.Int.{ℤ, pos, negsuc, is_neg, ltb_ℤ, pos_part, ◌==ℤ◌}
use sdparm.Prelude.Text.{codes}
use sdparm.Prelude.Find.{first_match}
use sdparm.Strings.{strcase_eq, strcase_eq_upto}
use sdparm.SgLib.{SgLib}
use sdparm.Tables.Types.{MpItem, MpName, VpdPage, VendorName, TablePair, ValDesc}
use sdparm.Tables.Registry.{
  vendor_mp, transport_mp, mitem_arr, transport_id, add_transport_acron, vendor_ids,
}
use sdparm.Tables.GenericPages.{gen_mode_pg}
use sdparm.Tables.VpdPages.{vpd_pg}

-- sdp_get_vendor_pair
unfoldable pub get_vendor_pair : ℤ → Option TablePair
get_vendor_pair vendor_id =
    if not (is_neg vendor_id) && ltb_ℤ vendor_id (pos (length vendor_mp))
    then get_elem? vendor_mp (pos_part vendor_id)
    else none

-- The choice of a table by transport and vendor, with which the searches begin.
unfoldable pub select_pages : ℤ → ℤ → Option (List MpName)
select_pages transp_proto vendor_id =
    if not (is_neg vendor_id)
    then elim (get_vendor_pair vendor_id) [ some vpp ↦ vpp.mpage | none ↦ none ]
    else if not (is_neg transp_proto) && ltb_ℤ transp_proto (pos 16)
    then elim (get_elem? transport_mp (pos_part transp_proto)) [ some p ↦ p.mpage | none ↦ none ]
    else some gen_mode_pg

unfoldable pub select_items : ℤ → ℤ → Option (List MpItem)
select_items transp_proto vendor_id =
    if not (is_neg vendor_id)
    then elim (get_vendor_pair vendor_id) [ some vpp ↦ vpp.mitem | none ↦ none ]
    else if not (is_neg transp_proto) && ltb_ℤ transp_proto (pos 16)
    then elim (get_elem? transport_mp (pos_part transp_proto)) [ some p ↦ p.mitem | none ↦ none ]
    else some mitem_arr

-- `mpc == MPC_GENERAL`
unfoldable pub is_general : ℤ → ℤ → Bool
is_general transp_proto vendor_id =
    is_neg vendor_id && not (not (is_neg transp_proto) && ltb_ℤ transp_proto (pos 16))

module _ (sg : SgLib) where
  -- The tests of the loop of sdp_get_mp_nm.
  unfoldable pub page_matches : ℤ → ℤ → ℤ → MpName → Bool
  page_matches page_num subpage_num pdt mnp =
      page_num ==ℤ pos mnp.page
      && subpage_num ==ℤ pos mnp.subpage
      && (is_neg pdt || is_neg mnp.com_pdt || sg.pdt_s_eq mnp.com_pdt pdt)

  -- The loop from `try_again` on. `goto try_again` leaves `mnp` where the loop has left it, at
  -- the sentinel, so the table that is left is empty. Out of fuel the outer result is `none`.
  unfoldable pub try_again : ℕ → Bool → ℤ → ℤ → List MpName → ℤ → Option (Option MpName)
  try_again zero general page_num subpage_num mnps pdt = none
  try_again (suc fuel) general page_num subpage_num mnps pdt =
      let decayed_pdt = sg.pdt_decay pdt in
      let again = try_again fuel general page_num subpage_num [] decayed_pdt in
      elim (first_match (page_matches page_num subpage_num pdt) mnps) [
        | some mnp ↦ some (some mnp)
        | none ↦ if general && not (decayed_pdt ==ℤ pdt) then again else some none
      ]

  -- sdp_get_mp_nm; three rounds are enough.
  unfoldable pub get_mp_nm : ℤ → ℤ → ℤ → ℤ → ℤ → Option (Option MpName)
  get_mp_nm page_num subpage_num pdt transp_proto vendor_id =
      elim (select_pages transp_proto vendor_id) [
        | none ↦ some none
        | some mnps ↦ try_again 3 (is_general transp_proto vendor_id) page_num subpage_num mnps pdt
      ]

-- sdp_find_mp_nm_by_acron
unfoldable pub find_mp_nm_by_acron : List ℕ → ℤ → ℤ → Option MpName
find_mp_nm_by_acron ap transp_proto vendor_id = elim (select_pages transp_proto vendor_id) [
  | none ↦ none
  | some mnps ↦ first_match (λ mnp. strcase_eq (codes mnp.mp_acron) ap) mnps
]

-- The loop of sdp_get_vpd_detail.
unfoldable pub vpd_scan : ℤ → ℤ → ℤ → Option VpdPage
vpd_scan page_num subvalue pdt =
    first_match
      (λ vpp.
        page_num ==ℤ vpp.vpd_num
        && (is_neg subvalue || subvalue ==ℤ pos vpp.subvalue)
        && (is_neg pdt || pdt ==ℤ vpp.com_pdt))
      vpd_pg

-- sdp_get_vpd_detail. Each call of itself gives up one restriction; fuel 3 is enough.
unfoldable pub vpd_detail : ℕ → ℤ → ℤ → ℤ → Option VpdPage
vpd_detail zero page_num subvalue pdt = none
vpd_detail (suc fuel) page_num subvalue pdt =
    let any_type = vpd_detail fuel page_num subvalue (negsuc 0) in
    let any_value = vpd_detail fuel page_num (negsuc 0) (negsuc 0) in
    elim (vpd_scan page_num subvalue pdt) [
      | some vpp ↦ some vpp
      | none ↦
          if not (is_neg pdt) then any_type else if not (is_neg subvalue) then any_value else none
    ]

unfoldable pub get_vpd_detail : ℤ → ℤ → ℤ → Option VpdPage
get_vpd_detail = vpd_detail 3

-- sdp_find_vpd_by_acron
unfoldable pub find_vpd_by_acron : List ℕ → Option VpdPage
find_vpd_by_acron ap = first_match (λ vpp. strcase_eq (codes vpp.vpd_acron) ap) vpd_pg

-- sdp_find_transport_id_by_acron
unfoldable pub find_transport_id_by_acron : List ℕ → ℤ
find_transport_id_by_acron ap =
    elim (first_match (λ t. strcase_eq (codes t.desc) ap) transport_id) [
      | some t ↦ pos t.val
      | none ↦ elim (first_match (λ t. strcase_eq (codes t.desc) ap) add_transport_acron) [
        | some t ↦ pos t.val
        | none ↦ negsuc 0
      ]
    ]

-- sdp_get_vendor_name
unfoldable pub get_vendor_name : ℤ → Option VendorName
get_vendor_name vendor_id = first_match (λ vnp. vendor_id ==ℤ pos vnp.vendor_id) vendor_ids

-- sdp_find_vendor_by_acron
unfoldable pub find_vendor_by_acron : List ℕ → Option VendorName
find_vendor_by_acron ap =
    first_match (λ vnp. strcase_eq_upto (codes vnp.acron) ap (length (codes vnp.acron))) vendor_ids

-- The loop of sdp_find_mitem_by_acron over the rows from `k` on: the row that it stops at and
-- the number that is stored through `from_p`.
unfoldable pub find_row : List ℕ → List MpItem → ℕ → Option MpItem × ℕ
find_row ap [] k = (none, k)
find_row ap (mpi ∷ rest) k = elim mpi.acron [
  | none ↦ (none, k)
  | some acron ↦ if strcase_eq (codes acron) ap then (some mpi, k + 1) else find_row ap rest (k + 1)
]

-- sdp_find_mitem_by_acron, with what `from_p` points at before and behind. Without a table the
-- latter stays.
unfoldable pub find_mitem_by_acron : List ℕ → ℤ → ℤ → ℤ → Option MpItem × ℤ
find_mitem_by_acron ap from transp_proto vendor_id =
    let k = pos_part from in
    elim (select_items transp_proto vendor_id) [
      | none ↦ (none, from)
      | some mpis ↦ let (mpi, next) = find_row ap (drop k mpis) k in (mpi, pos next)
    ]
