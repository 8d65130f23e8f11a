-- ===== src/Integrity/Clash.antt =====
-- Items that can be on one device's page share no bit, unless they are marked MF_CLASH_OK.
use sdparm.Prelude.{
  ℕ, zero, suc, ◌+◌, ◌/◌, ◌%◌, ◌<◌, Bool, true, false, not, ◌&&◌, ◌||◌, some, List, [], ◌∷◌, ◌≡◌,
  refl, arith, leb, ◌==◌, get_elem?, &&-eq_true,
}
use Prim.Native.Nat.{bit_and}
use sdparm.Prelude.Int.{ℤ, is_neg, pos_part}
use sdparm.Prelude.Find.{all, all-All}
use sdparm.Tables.Types.{MpItem}
use sdparm.Tables.Consts.{mf_clash_ok}
use sdparm.Tables.Registry.{mitem_arr, mitem_sas_arr}
use sdparm.Tables.TransportItems.{fcp_items, spi_items, srp_items}
use sdparm.Lookup.{select_items}
use sdparm.Lookup.Select.{EveryTable, selected, get_elem?-All}
use sdparm.Tables.DiskVendorItems.{seagate_items, hitachi_items, maxtor_items, fujitsu_items}
use sdparm.Tables.TapeVendorItems.{lto5_items, lto6_items, nvme_items}
use sdparm.Field.RoundTrip.{Apart, first_bit}

-- Can one device have both types? A negative one stands for all, and the types of a compound one
-- stand in its two low bytes.
unfoldable pub share_pdt : ℤ → ℤ → Bool
share_pdt a b =
    let x = pos_part a in
    let y = pos_part b in
    is_neg a
    || is_neg b
    || x % 256 == y % 256
    || not (x / 256 == 0) && x / 256 == y % 256
    || not (y / 256 == 0) && y / 256 == x % 256
    || not (x / 256 == 0) && x / 256 == y / 256

unfoldable pub may_clash : MpItem → Bool
may_clash a = not (bit_and a.flags mf_clash_ok == 0)

abbrev pub apart : MpItem → MpItem → Bool
apart a b =
    leb (first_bit a + a.num_bits) (first_bit b) || leb (first_bit b + b.num_bits) (first_bit a)

-- Must the two not overlap?
unfoldable pub exclusive : MpItem → MpItem → Bool
exclusive a b =
    a.pg_num == b.pg_num
    && a.subpg_num == b.subpg_num
    && share_pdt a.com_pdt b.com_pdt
    && not (may_clash a)
    && not (may_clash b)

unfoldable clear : MpItem → MpItem → Bool
clear a b = elim (exclusive a b) [ true ↦ apart a b | false ↦ true ]

unfoldable all_clear : List MpItem → Bool
all_clear [] = true
all_clear (a ∷ rest) = all (clear a) rest && all_clear rest

abbrev IsClear : List MpItem → Type 0
IsClear mpis = all_clear mpis ≡ true

every-IsClear : EveryTable IsClear
unfolding all_clear all clear exclusive share_pdt may_clash mitem_arr mitem_sas_arr fcp_items
    spi_items srp_items seagate_items hitachi_items maxtor_items fujitsu_items lto5_items lto6_items
    nvme_items
every-IsClear = record {
  generic = refl;
  fcp = refl;
  spi = refl;
  srp = refl;
  sas = refl;
  seagate = refl;
  hitachi = refl;
  maxtor = refl;
  fujitsu = refl;
  lto5 = refl;
  lto6 = refl;
  nvme = refl;
}

clear→Apart : (a b : MpItem) → clear a b ≡ true → exclusive a b ≡ true → Apart a b
unfolding clear
clear→Apart a b h e = ground arith

rest_clear :
    (a b : MpItem) (rest : List MpItem) (j : ℕ)
    → all (clear a) rest ≡ true
    → get_elem? rest j ≡ some b
    → clear a b ≡ true
rest_clear a b rest j h e =
    get_elem?-All (λ x. clear a x ≡ true) rest j b (all-All (clear a) rest h) e

rows_apart :
    (mpis : List MpItem) (i j : ℕ) (a b : MpItem)
    → IsClear mpis
    → i < j
    → get_elem? mpis i ≡ some a
    → get_elem? mpis j ≡ some b
    → clear a b ≡ true
unfolding all_clear
rows_apart [] i j a b h lt ei ej = absurd (cc)
rows_apart (x ∷ xs) i zero a b h lt ei ej = absurd (omega arith)
rows_apart (x ∷ xs) zero (suc j) a b h lt ei ej =
    let same : x ≡ a = cc in rest_clear a b xs j (rw (← same) ((&&-eq_true _ _ h).0)) ej
rows_apart (x ∷ xs) (suc i) (suc j) a b h lt ei ej =
    rows_apart xs i j a b ((&&-eq_true _ _ h).1) (omega arith) ei ej

-- Of any table that a transport and a vendor select, two rows of one page that a device can both
-- have, neither of them marked MF_CLASH_OK, share no bit.
pub selected_rows-Apart :
    (transp_proto vendor_id : ℤ) (mpis : List MpItem) (i j : ℕ) (a b : MpItem)
    → select_items transp_proto vendor_id ≡ some mpis
    → i < j
    → get_elem? mpis i ≡ some a
    → get_elem? mpis j ≡ some b
    → exclusive a b ≡ true
    → Apart a b
selected_rows-Apart transp_proto vendor_id mpis i j a b e lt ei ej x =
    clear→Apart a b
      (rows_apart mpis i j a b (selected IsClear every-IsClear transp_proto vendor_id mpis e) lt ei
        ej)
      x
