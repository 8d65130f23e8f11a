-- ===== src/Settings/Search.antt =====
-- The search for an item ends.
use sdparm.Prelude.{
  ℕ, zero, suc, ◌+◌, ◌≤◌, ◌<◌, Bool, true, ◌&&◌, Option, none, some, List, [], ◌∷◌, ◌≡◌, ◌≢◌, refl,
  arith, length, get_elem?, leb,
}
use sdparm.Prelude.Int.{ℤ, pos, negsuc, is_neg, pos_part}
use sdparm.Tables.Types.{MpItem}
use sdparm.Tables.Registry.{mitem_arr, mitem_sas_arr}
use sdparm.Tables.TransportItems.{fcp_items, spi_items, srp_items}
use sdparm.Tables.DiskVendorItems.{seagate_items, hitachi_items, maxtor_items, fujitsu_items}
use sdparm.Tables.TapeVendorItems.{lto5_items, lto6_items, nvme_items}
use sdparm.Lookup.{find_mitem_by_acron}
use sdparm.Lookup.Items.{find_mitem_by_acron_lem}
use sdparm.Lookup.Select.{EveryTable, selected}
use sdparm.Settings.{
  Target, Found, settle, sas_round, none_left, round, with_sas, def_transport, search, find_setting,
}

abbrev IsShort : List MpItem → Type 0
IsShort mpis = leb (length mpis) 1000 ≡ true

every-IsShort : EveryTable IsShort
unfolding mitem_arr mitem_sas_arr fcp_items spi_items srp_items seagate_items hitachi_items
    maxtor_items fujitsu_items lto5_items lto6_items nvme_items
every-IsShort = record {
  generic = refl;
  fcp = refl;
  spi = refl;
  srp = refl;
  sas = refl;
  seagate = refl;
  hitachi = refl;
  maxtor = refl;
  fujitsu = refl;
  lto5 = refl;
  lto6 = refl;
  nvme = refl;
}

get_elem?-lt {ℓ} :
    {A : Type ℓ} (xs : List A) (i : ℕ) (x : A) → get_elem? xs i ≡ some x → i < length xs
get_elem?-lt [] i x h = absurd (cc)
get_elem?-lt (y ∷ ys) zero x h = omega arith
get_elem?-lt (y ∷ ys) (suc i) x h = omega (arith, get_elem?-lt ys i x h)

-- A search goes on behind where it was, and within the table.
moves_on :
    (acron : List ℕ) (from transp_proto vendor_id : ℤ) (mpip : MpItem)
    → (find_mitem_by_acron acron from transp_proto vendor_id).0 ≡ some mpip
    → let next = pos_part (find_mitem_by_acron acron from transp_proto vendor_id).1 in
      (pos_part from < next) × (next ≤ 1000)
moves_on acron from transp_proto vendor_id mpip h =
    let hit = find_mitem_by_acron acron from transp_proto vendor_id in
    let (mpis, i, table, e, lt, row) =
      find_mitem_by_acron_lem acron from hit.1 transp_proto vendor_id mpip (λ d. (h d, hit.1)) in
    let short = selected IsShort every-IsShort transp_proto vendor_id mpis table in
    let inside = get_elem?-lt mpis i mpip row.there in ground (arith, e, lt, short, inside)

settle-ends :
    (mpip : MpItem) (target : Target) (rest : Option Found)
    → rest ≢ none
    → settle mpip target rest ≢ none
unfolding settle
settle-ends mpip target rest h = ground (arith, h)

sas_round-ends :
    (hit : Option MpItem) (target : Target) (more : MpItem → Option Found)
    → ((mpip : MpItem) → hit ≡ some mpip → more mpip ≢ none)
    → sas_round hit target more ≢ none
unfolding sas_round
sas_round-ends none target more h = λ e. absurd (cc)
sas_round-ends (some mpip) target more h =
    settle-ends mpip (with_sas target) (more mpip) (h mpip refl)

none_left-ends :
    (get : Bool) (prev : Option MpItem) (generic : Bool) (target : Target) (sas : Option Found)
    → (prev ≡ none → sas ≢ none)
    → none_left get prev generic target sas ≢ none
unfolding none_left
none_left-ends get none generic target sas h = ground (arith, h refl)
none_left-ends get (some prev) generic target sas h = ground arith

round-ends :
    (hit : Option MpItem) (target : Target) (more : MpItem → Option Found) (other : Option Found)
    → ((mpip : MpItem) → hit ≡ some mpip → more mpip ≢ none)
    → other ≢ none
    → round hit target more other ≢ none
unfolding round
round-ends none target more other h h' = h'
round-ends (some mpip) target more other h h' = settle-ends mpip target (more mpip) (h mpip refl)

-- Once an item was found, on another page, each round moves on in one table.
search-ends_behind :
    (fuel : ℕ) (get : Bool) (acron : List ℕ) (vendor_id : ℤ) (prev : MpItem) (from : ℤ)
    (target : Target)
    → 1001 ≤ fuel + pos_part from
    → pos_part from ≤ 1000
    → search fuel get acron vendor_id (some prev) from target ≢ none
unfolding search
search-ends_behind zero get acron vendor_id prev from target enough inside = absurd (omega arith)
search-ends_behind (suc fuel) get acron vendor_id prev from target enough inside =
    let hit = find_mitem_by_acron acron from target.transport vendor_id in
    round-ends hit.0 target _ _
      (λ mpip h.
        let (on, short) = moves_on acron from target.transport vendor_id mpip h in
        search-ends_behind fuel get acron vendor_id mpip hit.1 target (omega (arith, on)) short)
      (none_left-ends get (some prev) (is_neg vendor_id && is_neg target.transport) target none
        (λ e. absurd (cc)))

search-ends :
    (fuel : ℕ) (get : Bool) (acron : List ℕ) (vendor_id : ℤ) (target : Target)
    → 1000 < fuel
    → search (suc fuel) get acron vendor_id none (pos 0) target ≢ none
unfolding search
search-ends fuel get acron vendor_id target enough =
    let hit = find_mitem_by_acron acron (pos 0) target.transport vendor_id in
    let sas = find_mitem_by_acron acron (pos 0) def_transport (negsuc 0) in
    round-ends hit.0 target _ _
      (λ mpip h.
        let (on, short) = moves_on acron (pos 0) target.transport vendor_id mpip h in
        search-ends_behind fuel get acron vendor_id mpip hit.1 target (omega (arith, enough)) short)
      (none_left-ends get none (is_neg vendor_id && is_neg target.transport) target _ (λ e.
        sas_round-ends sas.0 target _ (λ mpip h.
          let (on, short) = moves_on acron (pos 0) def_transport (negsuc 0) mpip h in
          search-ends_behind fuel get acron vendor_id mpip sas.1 (with_sas target)
            (omega (arith, enough)) short)))

-- The loop in which an acronym is looked up comes to an end, whatever page, transport and vendor
-- are given and whether or not it turns to the table of the default transport.
pub find_setting-ends :
    (get : Bool) (acron : List ℕ) (vendor_id : ℤ) (target : Target)
    → find_setting get acron vendor_id target ≢ none
unfolding find_setting
find_setting-ends get acron vendor_id target =
    search-ends 1002 get acron vendor_id target (omega arith)
