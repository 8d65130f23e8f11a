-- ===== src/Examples/Searches.antt =====
-- Searches in the tables.
use sdparm.Prelude.{
  ℕ, suc, ◌<◌, true, false, none, some, List, [], ◌∷◌, ◌≡◌, ◌↔◌, refl, arith, All, get_elem?,
}
use sdparm.Prelude.Int.{pos, negsuc, ◌==ℤ◌}
use sdparm.Prelude.Find.{first_match}
use sdparm.Prelude.Text.{codes, to_upper, is_lower}
use sdparm.Strings.{strcase_eq, same_char}
use sdparm.SgLib.Model.{sample_lib, sample_laws}
use sdparm.Tables.Types.{MpItem, item, VpdPage, vpd_page}
use sdparm.Tables.Consts.{any_pdt, mf_common, rw_err_recovery_mp, vpd_ata_info}
use sdparm.Tables.DiskItems.{error_recovery_items}
use sdparm.Tables.Registry.{mitem_arr}
use sdparm.Tables.VpdPages.{vpd_pg}
use sdparm.Lookup.{
  get_mp_nm, vpd_scan, vpd_detail, get_vpd_detail, select_items, find_row, find_mitem_by_acron,
}
use sdparm.Lookup.Pages.{scan_pages, get_mp_nm_lem}
use sdparm.Lookup.Vpd.{IsBest, get_vpd_detail-IsBest, get_vpd_detail-none}
use sdparm.Lookup.Items.{IsFirstRow, find_mitem_by_acron_lem}
use sdparm.Field.{mitem_get_value, mitem_set_value}
use sdparm.Field.RoundTrip.{Apart}
use sdparm.Integrity.Placed.{IsPlaced, find_mitem_by_acron-IsPlaced}
use sdparm.Integrity.Clash.{exclusive, share_pdt, may_clash, selected_rows-Apart}
use sdparm.Integrity.Update.{set_value-other_row}

get_mp_nm_lem_example :
    get_mp_nm sample_lib (pos 8) (pos 0) (pos 0) (negsuc 0) (negsuc 0)
    ≡ some (scan_pages sample_lib (pos 8) (pos 0) (pos 0) (negsuc 0) (negsuc 0))
get_mp_nm_lem_example =
    get_mp_nm_lem sample_lib sample_laws (pos 8) (pos 0) (pos 0) (negsuc 0) (negsuc 0)

abbrev ata_row : VpdPage
ata_row = vpd_page (pos vpd_ata_info) 0 any_pdt "ai" "ATA information (SAT)"

-- No row of this page has the device type of a CD drive.
ata_found : get_vpd_detail (pos 0x89) (pos 0) (pos 5) ≡ some ata_row
unfolding get_vpd_detail vpd_detail vpd_scan vpd_pg first_match
ata_found = refl

get_vpd_detail-IsBest_example : IsBest (pos 0x89) (pos 0) (pos 5) ata_row
get_vpd_detail-IsBest_example = get_vpd_detail-IsBest (pos 0x89) (pos 0) (pos 5) ata_row ata_found

get_vpd_detail-none_example :
    (get_vpd_detail (pos 0x7f) (pos 0) (pos 0) ≡ none)
    ↔ All (λ vpp. (pos 0x7f ==ℤ vpp.vpd_num) ≡ false) vpd_pg
get_vpd_detail-none_example = get_vpd_detail-none (pos 0x7f) (pos 0) (pos 0)

abbrev awre : MpItem
awre = item "AWRE" rw_err_recovery_mp 0 any_pdt 2 7 1 mf_common

abbrev arre : MpItem
arre = item "ARRE" rw_err_recovery_mp 0 any_pdt 2 6 1 mf_common

arre_found : find_mitem_by_acron (codes "arre") (pos 0) (negsuc 0) (negsuc 0) ≡ (some arre, pos 2)
unfolding find_mitem_by_acron find_row select_items mitem_arr error_recovery_items strcase_eq
    same_char to_upper is_lower
arre_found = refl

find_mitem_by_acron_lem_example :
    (mpis : List MpItem) × (i : ℕ) × (select_items (negsuc 0) (negsuc 0) ≡ some mpis)
    × (pos 2 ≡ pos (suc i))
    × (0 < suc i)
    × IsFirstRow (codes "arre") mpis 0 i arre
find_mitem_by_acron_lem_example =
    find_mitem_by_acron_lem (codes "arre") (pos 0) (pos 2) (negsuc 0) (negsuc 0) arre arre_found

find_mitem_by_acron-IsPlaced_example : IsPlaced arre
find_mitem_by_acron-IsPlaced_example =
    find_mitem_by_acron-IsPlaced (codes "arre") (pos 0) (pos 2) (negsuc 0) (negsuc 0) arre
      arre_found

generic_selected : select_items (negsuc 0) (negsuc 0) ≡ some mitem_arr
unfolding select_items
generic_selected = refl

awre_row : get_elem? mitem_arr 0 ≡ some awre
unfolding mitem_arr error_recovery_items
awre_row = refl

arre_row : get_elem? mitem_arr 1 ≡ some arre
unfolding mitem_arr error_recovery_items
arre_row = refl

awre-arre-exclusive : exclusive awre arre ≡ true
unfolding exclusive share_pdt may_clash
awre-arre-exclusive = refl

selected_rows-Apart_example : Apart awre arre
selected_rows-Apart_example =
    selected_rows-Apart (negsuc 0) (negsuc 0) mitem_arr 0 1 awre arre generic_selected (omega arith)
      awre_row arre_row awre-arre-exclusive

abbrev error_recovery : List ℕ
error_recovery = 0x81 ∷ 0x02 ∷ 0x40 ∷ 0x00 ∷ []

set_value-other_row_example :
    (mitem_get_value sample_lib arre (mitem_set_value sample_lib 1 awre error_recovery)
      ≡ mitem_get_value sample_lib arre error_recovery)
    × (mitem_get_value sample_lib awre (mitem_set_value sample_lib 1 arre error_recovery)
        ≡ mitem_get_value sample_lib awre error_recovery)
set_value-other_row_example =
    set_value-other_row sample_lib sample_laws (negsuc 0) (negsuc 0) mitem_arr 0 1 awre arre
      error_recovery 1 generic_selected (omega arith) awre_row arre_row awre-arre-exclusive
      (omega arith) (omega arith)
