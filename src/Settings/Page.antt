-- ===== src/Settings/Page.antt =====
-- On which page the items of one --set= or --clear= are.
use sdparm.Prelude.{
  ℕ, zero, suc, Bool, true, false, ◌&&◌, Option, none, some, List, ◌≡◌, inl, inr, refl, Bool-cases,
  &&-eq_true,
}
use sdparm.Prelude.Int.{ℤ, pos, negsuc, is_neg, ◌==ℤ◌, ==ℤ_iff}
use sdparm.Tables.Types.{MpItem}
use sdparm.Lookup.{find_mitem_by_acron}
use sdparm.Settings.{
  Target, Found, found, not_found, on_page, settle, with_sas, def_transport, round, none_left,
  sas_round, search, find_setting,
}

-- The item is on the page that is named from then on; a page that was named stays the same.
pub record IsOnPage (before : Target) (mpip : MpItem) (after : Target) : Type 0 where
  pub page : after.pg_num ≡ pos mpip.pg_num
  pub subpage : after.subpg_num ≡ pos mpip.subpg_num
  pub page_kept : is_neg before.pg_num ≡ false → after.pg_num ≡ before.pg_num
  pub subpage_kept : is_neg before.pg_num ≡ false → after.subpg_num ≡ before.subpg_num

-- Whatever is found is on the page.
abbrev AllOnPage : Target → Option Found → Type 0
AllOnPage before result =
    (mpip : MpItem) (after : Target) → result ≡ some (found mpip after) → IsOnPage before mpip after

-- What is found is known.
found-IsOnPage :
    (before : Target) (mpip : MpItem) (target : Target)
    → IsOnPage before mpip target
    → AllOnPage before (some (found mpip target))
found-IsOnPage before mpip target is out after h =
    let same : mpip ≡ out = cc in let from_then : target ≡ after = cc in rw (← same, ← from_then) is

named-IsOnPage :
    (before target : Target) (mpip : MpItem)
    → is_neg before.pg_num ≡ true
    → IsOnPage before mpip
        (record target { pg_num = pos mpip.pg_num; subpg_num = pos mpip.subpg_num })
named-IsOnPage before target mpip unnamed = record {
  page = refl;
  subpage = refl;
  page_kept = λ named. absurd (cc);
  subpage_kept = λ named. absurd (cc);
}

there-IsOnPage :
    (before target : Target) (mpip : MpItem)
    → target.pg_num ≡ before.pg_num
    → target.subpg_num ≡ before.subpg_num
    → on_page mpip target ≡ true
    → IsOnPage before mpip target
there-IsOnPage before target mpip p s there =
    let (page, subpage) =
      &&-eq_true (target.pg_num ==ℤ pos mpip.pg_num) (target.subpg_num ==ℤ pos mpip.subpg_num)
        there in
    record {
      page = (==ℤ_iff target.pg_num (pos mpip.pg_num)).0 page;
      subpage = (==ℤ_iff target.subpg_num (pos mpip.subpg_num)).0 subpage;
      page_kept = λ named. p;
      subpage_kept = λ named. s;
    }

settle-IsOnPage :
    (mpip : MpItem) (before target : Target) (rest : Option Found)
    → target.pg_num ≡ before.pg_num
    → target.subpg_num ≡ before.subpg_num
    → AllOnPage before rest
    → AllOnPage before (settle mpip target rest)
unfolding settle
settle-IsOnPage mpip before target rest p s ih = elim (Bool-cases (is_neg target.pg_num)) [
  | inl unnamed ↦
      rw unnamed
        (found-IsOnPage before mpip _ (named-IsOnPage before target mpip (rw (← p) unnamed)))
  | inr named ↦ rw named (elim (Bool-cases (on_page mpip target)) [
    | inl there ↦
        rw there (found-IsOnPage before mpip target (there-IsOnPage before target mpip p s there))
    | inr elsewhere ↦ rw elsewhere ih
  ])
]

absent-IsOnPage : (before : Target) → AllOnPage before (some not_found)
absent-IsOnPage before mpip after h = absurd (cc)

none_left-IsOnPage :
    (prev : Option MpItem) (generic : Bool) (before target : Target) (sas : Option Found)
    → AllOnPage before sas
    → AllOnPage before (none_left false prev generic target sas)
unfolding none_left
none_left-IsOnPage none true before target sas ih = ih
none_left-IsOnPage none false before target sas ih = absent-IsOnPage before
none_left-IsOnPage (some prev) generic before target sas ih = absent-IsOnPage before

sas_round-IsOnPage :
    (hit : Option MpItem) (before target : Target) (more : MpItem → Option Found)
    → target.pg_num ≡ before.pg_num
    → target.subpg_num ≡ before.subpg_num
    → ((mpip : MpItem) → AllOnPage before (more mpip))
    → AllOnPage before (sas_round hit target more)
unfolding sas_round
sas_round-IsOnPage none before target more p s ih = absent-IsOnPage before
sas_round-IsOnPage (some mpip) before target more p s ih =
    settle-IsOnPage mpip before (with_sas target) (more mpip) p s (ih mpip)

round-IsOnPage :
    (hit : Option MpItem) (before target : Target) (more : MpItem → Option Found)
    (other : Option Found)
    → target.pg_num ≡ before.pg_num
    → target.subpg_num ≡ before.subpg_num
    → ((mpip : MpItem) → AllOnPage before (more mpip))
    → AllOnPage before other
    → AllOnPage before (round hit target more other)
unfolding round
round-IsOnPage none before target more other p s ih ih' = ih'
round-IsOnPage (some mpip) before target more other p s ih ih' =
    settle-IsOnPage mpip before target (more mpip) p s (ih mpip)

search-IsOnPage :
    (fuel : ℕ) (acron : List ℕ) (vendor_id : ℤ) (prev : Option MpItem) (from : ℤ)
    (before target : Target)
    → target.pg_num ≡ before.pg_num
    → target.subpg_num ≡ before.subpg_num
    → AllOnPage before (search fuel false acron vendor_id prev from target)
unfolding search
search-IsOnPage zero acron vendor_id prev from before target p s = λ mpip after h. absurd (cc)
search-IsOnPage (suc fuel) acron vendor_id prev from before target p s =
    let hit = find_mitem_by_acron acron from target.transport vendor_id in
    let sas = find_mitem_by_acron acron (pos 0) def_transport (negsuc 0) in
    round-IsOnPage hit.0 before target _ _ p s
      (λ mpip. search-IsOnPage fuel acron vendor_id (some mpip) hit.1 before target p s)
      (none_left-IsOnPage prev (is_neg vendor_id && is_neg target.transport) before target _ (
        sas_round-IsOnPage sas.0 before target _ p s (λ mpip.
          search-IsOnPage fuel acron vendor_id (some mpip) sas.1 before (with_sas target) p s)))

-- An item that --set= or --clear= finds by its acronym is on the page that is named from then on:
-- the page that was named before, if one was, and else the item's own. So all items of one option
-- are on one page.
pub find_setting-IsOnPage :
    (acron : List ℕ) (vendor_id : ℤ) (before after : Target) (mpip : MpItem)
    → find_setting false acron vendor_id before ≡ some (found mpip after)
    → IsOnPage before mpip after
unfolding find_setting
find_setting-IsOnPage acron vendor_id before after mpip h =
    search-IsOnPage 1003 acron vendor_id none (pos 0) before before refl refl mpip after h
