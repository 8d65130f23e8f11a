-- ===== src/Integrity/Update.antt =====
-- What a change of one item of a table does to the others.
use sdparm.Prelude.{ℕ, ◌+◌, ◌*◌, ◌≤◌, ◌<◌, true, some, List, ◌≡◌, arith, length, get_elem?}
use sdparm.Prelude.Int.{ℤ}
use sdparm.SgLib.{SgLib, SgLibLaws}
use sdparm.Tables.Types.{MpItem}
use sdparm.Lookup.{select_items}
use sdparm.Field.{mitem_get_value, mitem_set_value}
use sdparm.Field.RoundTrip.{FitsPage, Apart, first_bit, get_value-set_value-Apart}
use sdparm.Integrity.Placed.{IsPlaced, selected_row-IsPlaced}
use sdparm.Integrity.Clash.{exclusive, selected_rows-Apart}

-- The last bit of an item lies in the page.
abbrev pub EndsInside : MpItem → List ℕ → Type 0
EndsInside mpi mp = first_bit mpi + mpi.num_bits ≤ 8 * length mp

pub IsPlaced-FitsPage :
    (mpi : MpItem) (mp : List ℕ) → IsPlaced mpi → EndsInside mpi mp → FitsPage mpi mp
IsPlaced-FitsPage mpi mp placed inside =
    omega (arith, placed.in_byte, placed.some_bit, placed.in_word, inside)

Apart-sym : (a b : MpItem) → Apart a b → Apart b a
Apart-sym a b h = omega arith

-- Of two rows of a selected table that stand for one page, that one device can both have and that
-- are not marked MF_CLASH_OK, a write of either leaves the value of the other as it was, on every
-- page that is long enough for both.
pub set_value-other_row :
    (sg : SgLib) (laws : SgLibLaws sg) (transp_proto vendor_id : ℤ) (mpis : List MpItem) (i j : ℕ)
    (a b : MpItem) (mp : List ℕ) (v : ℕ)
    → select_items transp_proto vendor_id ≡ some mpis
    → i < j
    → get_elem? mpis i ≡ some a
    → get_elem? mpis j ≡ some b
    → exclusive a b ≡ true
    → EndsInside a mp
    → EndsInside b mp
    → (mitem_get_value sg b (mitem_set_value sg v a mp) ≡ mitem_get_value sg b mp)
      × (mitem_get_value sg a (mitem_set_value sg v b mp) ≡ mitem_get_value sg a mp)
set_value-other_row sg laws transp_proto vendor_id mpis i j a b mp v table lt ei ej x ia ib =
    let fa =
      IsPlaced-FitsPage a mp (selected_row-IsPlaced transp_proto vendor_id mpis i a table ei) ia in
    let fb =
      IsPlaced-FitsPage b mp (selected_row-IsPlaced transp_proto vendor_id mpis j b table ej) ib in
    let clear = selected_rows-Apart transp_proto vendor_id mpis i j a b table lt ei ej x in
    (
      get_value-set_value-Apart sg laws v a b mp fa fb clear,
      get_value-set_value-Apart sg laws v b a mp fb fa (Apart-sym a b clear),
    )
