-- ===== src/Lookup/Select.antt =====
-- What holds of every table that a search can select.
use sdparm.Prelude.{
  ℕ, zero, suc, Bool, true, false, not, ◌&&◌, Option, none, some, List, [], ◌∷◌, ◌≡◌, refl, inl,
  inr, arith, Bool-cases, get_elem?, All, if◌then◌else◌,
}
use mathlib.Core.Path.{subst}
use sdparm.Prelude.Int.{ℤ, pos, is_neg, ltb_ℤ, pos_part}
use sdparm.Tables.Types.{MpItem, TablePair}
use sdparm.Tables.Registry.{transport_mp, vendor_mp, mitem_arr, mitem_sas_arr}
use sdparm.Tables.TransportItems.{fcp_items, spi_items, srp_items}
use sdparm.Tables.DiskVendorItems.{seagate_items, hitachi_items, maxtor_items, fujitsu_items}
use sdparm.Tables.TapeVendorItems.{lto5_items, lto6_items, nvme_items}
use sdparm.Lookup.{get_vendor_pair, select_items}

-- A property of a table, which a NULL table has.
abbrev pub OfTable {κ} : (List MpItem → Type κ) → Option (List MpItem) → Type κ
OfTable P none = Unit
OfTable P (some mpis) = P mpis

pub get_elem?-All {ℓ κ} :
    {A : Type ℓ} (P : A → Type κ) (xs : List A) (i : ℕ) (x : A)
    → All P xs
    → get_elem? xs i ≡ some x
    → P x
get_elem?-All P [] i x h e = absurd (cc)
get_elem?-All P (y ∷ ys) zero x h e = let same : y ≡ x = cc in rw (← same) h.0
get_elem?-All P (y ∷ ys) (suc i) x h e = get_elem?-All P ys i x h.1 e

-- The tables of the source.
pub record EveryTable {κ} (P : List MpItem → Type κ) : Type κ where
  pub generic : P mitem_arr
  pub fcp : P fcp_items
  pub spi : P spi_items
  pub srp : P srp_items
  pub sas : P mitem_sas_arr
  pub seagate : P seagate_items
  pub hitachi : P hitachi_items
  pub maxtor : P maxtor_items
  pub fujitsu : P fujitsu_items
  pub lto5 : P lto5_items
  pub lto6 : P lto6_items
  pub nvme : P nvme_items

module _ {κ} (P : List MpItem → Type κ) (every : EveryTable P) where
  transports : All (λ p. OfTable P p.mitem) transport_mp
  unfolding transport_mp
  transports = (
    every.fcp,
    (
      every.spi,
      (
        tt,
        (
          tt,
          (
            every.srp,
            (tt, (every.sas, (tt, (tt, (tt, (tt, (tt, (tt, (tt, (tt, (every.generic, tt))))))))))),
          ),
        ),
      ),
    ),
  )

  vendors : All (λ p. OfTable P p.mitem) vendor_mp
  unfolding vendor_mp
  vendors = (
    every.seagate,
    (
      every.hitachi,
      (
        every.maxtor,
        (every.fujitsu, (every.generic, (every.lto5, (every.lto6, (every.nvme, (tt, tt)))))),
      ),
    ),
  )

  of_pair :
      (found : Option TablePair)
      → ((p : TablePair) → found ≡ some p → OfTable P p.mitem)
      → OfTable P (elim found [ some vpp ↦ vpp.mitem | none ↦ none ])
  of_pair none h = tt
  of_pair (some p) h = h p refl

  of_vendor :
      (vendor_id : ℤ) (p : TablePair) → get_vendor_pair vendor_id ≡ some p → OfTable P p.mitem
  unfolding get_vendor_pair
  of_vendor vendor_id p e =
      get_elem?-All (λ q. OfTable P q.mitem) vendor_mp (pos_part vendor_id) p vendors (ground arith)

  of_transport :
      (transp_proto : ℤ) (test : Bool)
      → OfTable P (
          if test
          then elim (get_elem? transport_mp (pos_part transp_proto)) [
            | some p ↦ p.mitem
            | none ↦ none
          ]
          else some mitem_arr)
  of_transport transp_proto true = of_pair (get_elem? transport_mp (pos_part transp_proto)) (λ p e.
      get_elem?-All (λ q. OfTable P q.mitem) transport_mp (pos_part transp_proto) p transports e)
  of_transport transp_proto false = every.generic

  pub select_items_of :
      (transp_proto vendor_id : ℤ) → OfTable P (select_items transp_proto vendor_id)
  unfolding select_items
  select_items_of transp_proto vendor_id = elim (Bool-cases (not (is_neg vendor_id))) [
    | inl vendor ↦ rw vendor (of_pair (get_vendor_pair vendor_id) (of_vendor vendor_id))
    | inr no_vendor ↦
        rw no_vendor
          (of_transport transp_proto (not (is_neg transp_proto) && ltb_ℤ transp_proto (pos 16)))
  ]

  pub selected :
      (transp_proto vendor_id : ℤ) (mpis : List MpItem)
      → select_items transp_proto vendor_id ≡ some mpis
      → P mpis
  selected transp_proto vendor_id mpis e =
      subst (OfTable P) e (select_items_of transp_proto vendor_id)
