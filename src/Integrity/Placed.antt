-- ===== src/Integrity/Placed.antt =====
-- Every item has a place that the accessors can work with.
use sdparm.Prelude.{
  ℕ, ◌+◌, ◌≤◌, Bool, true, ◌&&◌, some, List, ◌≡◌, refl, arith, All, leb, get_elem?,
}
use sdparm.Prelude.Int.{ℤ}
use sdparm.Prelude.Find.{all, all-All}
use sdparm.Tables.Types.{MpItem}
use sdparm.Tables.Registry.{mitem_arr, mitem_sas_arr}
use sdparm.Tables.TransportItems.{fcp_items, spi_items, srp_items}
use sdparm.Tables.DiskVendorItems.{seagate_items, hitachi_items, maxtor_items, fujitsu_items}
use sdparm.Tables.TapeVendorItems.{lto5_items, lto6_items, nvme_items}
use sdparm.Lookup.{select_items, find_mitem_by_acron}
use sdparm.Lookup.Items.{find_mitem_by_acron_lem}
use sdparm.Lookup.Select.{EveryTable, selected, get_elem?-All}

-- The tests of check() on one item: MAX_MP_LEN is 1024.
unfoldable pub well_placed : MpItem → Bool
well_placed mpi =
    leb (mpi.start_byte + 8) 1024
    && leb mpi.start_bit 7
    && leb mpi.num_bits 64
    && leb 1 mpi.num_bits

abbrev AllPlaced : List MpItem → Type 0
AllPlaced mpis = all well_placed mpis ≡ true

every-AllPlaced : EveryTable AllPlaced
unfolding all well_placed mitem_arr mitem_sas_arr fcp_items spi_items srp_items seagate_items
    hitachi_items maxtor_items fujitsu_items lto5_items lto6_items nvme_items
every-AllPlaced = record {
  generic = refl;
  fcp = refl;
  spi = refl;
  srp = refl;
  sas = refl;
  seagate = refl;
  hitachi = refl;
  maxtor = refl;
  fujitsu = refl;
  lto5 = refl;
  lto6 = refl;
  nvme = refl;
}

-- What the accessors need of an item besides a page that is long enough.
pub record IsPlaced (mpi : MpItem) : Type 0 where
  pub in_page : mpi.start_byte + 8 ≤ 1024
  pub in_byte : mpi.start_bit ≤ 7
  pub some_bit : 1 ≤ mpi.num_bits
  pub in_word : mpi.num_bits ≤ 64

well_placed→IsPlaced : (mpi : MpItem) → well_placed mpi ≡ true → IsPlaced mpi
unfolding well_placed
well_placed→IsPlaced mpi h = ground arith

pub selected_row-IsPlaced :
    (transp_proto vendor_id : ℤ) (mpis : List MpItem) (i : ℕ) (mpi : MpItem)
    → select_items transp_proto vendor_id ≡ some mpis
    → get_elem? mpis i ≡ some mpi
    → IsPlaced mpi
selected_row-IsPlaced transp_proto vendor_id mpis i mpi table row =
    let placed : All (λ x. well_placed x ≡ true) mpis =
      all-All well_placed mpis
        (selected AllPlaced every-AllPlaced transp_proto vendor_id mpis table) in
    well_placed→IsPlaced mpi (get_elem?-All (λ x. well_placed x ≡ true) mpis i mpi placed row)

-- Whatever item `sdp_find_mitem_by_acron` returns, its start byte, start bit and width are in the
-- ranges that `sdp_mitem_get_value` and `sdp_mitem_set_value` work with.
pub find_mitem_by_acron-IsPlaced :
    (acr : List ℕ) (from next transp_proto vendor_id : ℤ) (mpi : MpItem)
    → find_mitem_by_acron acr from transp_proto vendor_id ≡ (some mpi, next)
    → IsPlaced mpi
find_mitem_by_acron-IsPlaced acr from next transp_proto vendor_id mpi h =
    let (mpis, i, table, e, lt, row) =
      find_mitem_by_acron_lem acr from next transp_proto vendor_id mpi h in
    selected_row-IsPlaced transp_proto vendor_id mpis i mpi table row.there
