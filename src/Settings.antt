-- ===== src/Settings.antt =====
-- How build_mp_settings of src/sdparm.c finds the item that an acronym of --get=, --set= or
-- --clear= means, and how it cuts a value.
pub mod Search
pub mod Page
pub mod Value
pub mod Text
pub mod Build
pub mod Parts
pub mod Consistent
pub mod Whole
use sdparm.Prelude.{
  ℕ, zero, suc, ◌-◌, ◌^◌, Bool, true, false, not, ◌&&◌, Option, none, some, List, ltb,
  if◌then◌else◌,
}
use Prim.Native.Nat.{bit_and}
use sdparm.Prelude.Int.{ℤ, pos, negsuc, is_neg, ◌==ℤ◌}
use sdparm.Tables.Types.{MpItem}
use sdparm.Lookup.{find_mitem_by_acron}
use sdparm.ModeSelect.Change.{to_u64}

-- The page that the items must be on, a negative number if none was named yet, and the transport,
-- which the search may set.
pub record Target : Type 0 where
  pub pg_num : ℤ
  pub subpg_num : ℤ
  pub transport : ℤ

-- What one search comes to: an item and the target from then on, or `goto err`.
pub data Found : Type 0 where
  found : MpItem → Target → Found
  not_found : Found

-- The condition of the do loop, the other way round.
abbrev pub on_page : MpItem → Target → Bool
on_page mpip target = target.pg_num ==ℤ pos mpip.pg_num && target.subpg_num ==ℤ pos mpip.subpg_num

-- The end of a round, once there is an item; `rest` is what the next rounds come to.
unfoldable pub settle : MpItem → Target → Option Found → Option Found
settle mpip target rest =
    if is_neg target.pg_num
    then some
        (found mpip (record target { pg_num = pos mpip.pg_num; subpg_num = pos mpip.subpg_num }))
    else if on_page mpip target
    then some (found mpip target)
    else rest

-- DEF_TRANSPORT_PROTOCOL, which is TPROTO_SAS
abbrev pub def_transport : ℤ
def_transport = pos 6

abbrev pub with_sas : Target → Target
with_sas target = record target { transport = def_transport }

-- The search in the table of the default transport, after nothing was found in the generic one.
unfoldable pub sas_round : Option MpItem → Target → (MpItem → Option Found) → Option Found
unfolding settle
sas_round none target more = some not_found
sas_round (some mpip) target more = settle mpip (with_sas target) (more mpip)

-- The branch of `NULL == mpip`. `prev` is `prev_mpip` once `cont` is set; `generic` says that
-- neither a vendor nor a transport is given.
unfoldable pub none_left : Bool → Option MpItem → Bool → Target → Option Found → Option Found
none_left get none generic target sas = if generic then sas else some not_found
none_left get (some prev_mpip) generic target sas =
    if get then some (found prev_mpip target) else some not_found

-- One round.
unfoldable pub round :
    Option MpItem → Target → (MpItem → Option Found) → Option Found → Option Found
unfolding settle
round (some mpip) target more other = settle mpip target (more mpip)
round none target more other = other

-- The do loop. Out of fuel it is `none`.
unfoldable pub search : ℕ → Bool → List ℕ → ℤ → Option MpItem → ℤ → Target → Option Found
unfolding round none_left sas_round
search zero get acron vendor_id prev from target = none
search (suc fuel) get acron vendor_id prev from target =
    let hit = find_mitem_by_acron acron from target.transport vendor_id in
    let sas = find_mitem_by_acron acron (pos 0) def_transport (negsuc 0) in
    round hit.0 target (λ mpip. search fuel get acron vendor_id (some mpip) hit.1 target)
      (none_left get prev (is_neg vendor_id && is_neg target.transport) target (
        sas_round sas.0 target
          (λ mpip. search fuel get acron vendor_id (some mpip) sas.1 (with_sas target))))

-- The search for one acronym. No table has as many rows as there are rounds.
unfoldable pub find_setting : Bool → List ℕ → ℤ → Target → Option Found
find_setting get acron vendor_id target = search 1003 get acron vendor_id none (pos 0) target

-- `ivp->val &= (ll << mpip->num_bits) - 1;` where the item has less than 64 bits
unfoldable pub truncate_val : ℤ → ℕ → ℤ
truncate_val val num_bits =
    if ltb num_bits 64 then pos (bit_and (to_u64 val) (2 ^ num_bits - 1)) else val
