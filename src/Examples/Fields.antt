-- ===== src/Examples/Fields.antt =====
-- Items of a caching mode page.
use sdparm.Prelude.{ℕ, ◌%◌, ◌^◌, List, [], ◌∷◌, ◌≡◌, inl, arith}
use sdparm.Prelude.Int.{pos}
use sdparm.SgLib.Model.{sample_lib, sample_laws}
use sdparm.Tables.Types.{MpItem, item}
use sdparm.Field.{mitem_get_value, mitem_set_value}
use sdparm.Field.RoundTrip.{FitsPage, get_value-set_value, get_value-set_value-Apart}

abbrev wce : MpItem
wce = item "WCE" 8 0 (pos 0) 2 2 1 0

abbrev rcd : MpItem
rcd = item "RCD" 8 0 (pos 0) 2 0 1 0

abbrev caching : List ℕ
caching = 0x88 ∷ 0x02 ∷ 0x01 ∷ 0x00 ∷ []

wce-FitsPage : FitsPage wce caching
wce-FitsPage = (omega arith, omega arith, omega arith, omega arith)

rcd-FitsPage : FitsPage rcd caching
rcd-FitsPage = (omega arith, omega arith, omega arith, omega arith)

get_value-set_value_example :
    mitem_get_value sample_lib wce (mitem_set_value sample_lib 3 wce caching) ≡ 3 % 2 ^ 1
get_value-set_value_example = get_value-set_value sample_lib sample_laws 3 wce caching wce-FitsPage

get_value-set_value-Apart_example :
    mitem_get_value sample_lib rcd (mitem_set_value sample_lib 3 wce caching)
    ≡ mitem_get_value sample_lib rcd caching
get_value-set_value-Apart_example =
    get_value-set_value-Apart sample_lib sample_laws 3 wce rcd caching wce-FitsPage rcd-FitsPage
      (inl (omega arith))
