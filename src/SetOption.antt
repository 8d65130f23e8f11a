-- ===== src/SetOption.antt =====
-- From the text of --set= to the device: main of src/sdparm.c hands what build_mp_settings makes of
-- the text to change_mode_page.
use sdparm.Prelude.{
  ℕ, zero, suc, ◌^◌, ◌%◌, ◌≤◌, true, false, none, some, List, [], ◌∷◌, ◌≡◌, refl, ap, ◌∙◌, arith,
  length, take, drop, leb,
}
use sdparm.Prelude.Int.{ℤ}
use sdparm.SgLib.{SgLib, SgLibLaws}
use sdparm.Tables.Types.{MpItem}
use sdparm.Field.{mitem_get_value}
use sdparm.ModeSelect.{Request, Device, Options}
use sdparm.ModeSelect.Change.{MpSettings, to_u64, change_mode_page}
use sdparm.ModeSelect.Change.Written.{IsChange}
use sdparm.ModeSelect.Change.Whole.{verdict, change_mode_page-IsWritten}
use sdparm.Settings.{Target, found, find_setting, truncate_val}
use sdparm.Settings.Text.{split_at, parse_setting}
use sdparm.Settings.Value.{truncate_val-same_bits}
use sdparm.Settings.Build.{
  Scan, Settings, Mode, built, is_acronym, target_of, store_found, find_parsed, build_item,
  build_part, build_mp_settings,
}
use sdparm.Settings.Parts.{run-last}

-- The settings of one item.
abbrev pub one_setting : Target → MpItem → ℤ → MpSettings
one_setting target mpip val = record {
  pg_num = target.pg_num;
  subpg_num = target.subpg_num;
  it_vals = record { mp_it = mpip; val = truncate_val val mpip.num_bits; descriptor_num = 0 } ∷ [];
}

abbrev pub set_mode : ℤ → Mode
set_mode vendor_id = record { clear = false; get = false; vendor_id = vendor_id }

take_all : (n : ℕ) (s : List ℕ) → length s ≤ n → take n s ≡ s
take_all zero [] h = refl
take_all zero (c ∷ s) h = absurd (omega arith)
take_all (suc n) [] h = refl
take_all (suc n) (c ∷ s) h = ap (λ t. c ∷ t) (take_all n s (omega arith))

-- What the text of one item is, and which item it finds.
pub record IsOneItem (sg : SgLib) (vendor_id : ℤ) (start : Settings) (arg : List ℕ) (val : ℤ)
    (mpip : MpItem) (target : Target) : Type 0 where
  pub acron : List ℕ
  pub no_comma : split_at b',' arg ≡ none
  pub short : length arg ≤ 63
  pub by_acronym : is_acronym arg ≡ true
  pub parsed : parse_setting sg false arg ≡ some (acron, (val, 0))
  pub resolved : find_setting false acron vendor_id (target_of start) ≡ some (found mpip target)
  pub first : start.mps.it_vals ≡ []

module _ (sg : SgLib) (sscanf : List ℕ → List ℕ → Scan) where
  item-one_setting :
      (vendor_id : ℤ) (start : Settings) (arg : List ℕ) (val : ℤ) (mpip : MpItem) (target : Target)
      → IsOneItem sg vendor_id start arg val mpip target
      → build_item sg sscanf (set_mode vendor_id) arg start
        ≡ built (record { mps = one_setting target mpip val; transport = target.transport })
  unfolding build_item find_parsed store_found
  item-one_setting vendor_id start arg val mpip target h =
      rw (take_all 63 arg h.short, h.by_acronym, h.parsed, h.resolved, h.first) refl

  build-one_setting :
      (vendor_id : ℤ) (start : Settings) (arg : List ℕ) (val : ℤ) (mpip : MpItem) (target : Target)
      → IsOneItem sg vendor_id start arg val mpip target
      → build_mp_settings sg sscanf (set_mode vendor_id) arg start
        ≡ built (record { mps = one_setting target mpip val; transport = target.transport })
  unfolding build_mp_settings build_part
  build-one_setting vendor_id start [] val mpip target h =
      absurd (unfold is_acronym in ground (arith, h.by_acronym))
  build-one_setting vendor_id start (c ∷ cp) val mpip target h =
      let room : leb 128 (length start.mps.it_vals) ≡ false = rw (h.first) refl in
      run-last (build_item sg sscanf (set_mode vendor_id)) (c ∷ cp) start room h.no_comma
      ∙ item-one_setting vendor_id start (c ∷ cp) val mpip target h

  -- An option --set= with one item by acronym, of 63 characters at most and with no setting made
  -- before, whose text is read as a value for an item that is found in the tables, makes the one
  -- setting of that item, and change_mode_page comes to mode data in which the item has the low bits
  -- of the value, as wide as the item is. The mode data is written unless --save meets a page that is
  -- not saveable or --dummy is given. The item has at most 64 bits and lies in the page that the
  -- device answers with, behind its first byte, and no device type contradicts it.
  pub build_mp_settings-change_mode_page :
      (laws : SgLibLaws sg) (op : Options) (dev : Device) (start : Settings) (arg : List ℕ)
      (val : ℤ) (mpip : MpItem) (target : Target) (pdt : ℤ) (resp : List ℕ) (md_len off : ℕ)
      (earlier : List Request)
      → IsOneItem sg op.vendor_id start arg val mpip target
      → mpip.num_bits ≤ 64
      → IsChange sg
          (record op { transport = target.transport })
          dev
          pdt
          (one_setting target mpip val)
          resp
          md_len
          off
          earlier
      → (build_mp_settings sg sscanf (set_mode op.vendor_id) arg start
          ≡ built (record { mps = one_setting target mpip val; transport = target.transport }))
        × (param : List ℕ) × (change_mode_page sg
              (record op { transport = target.transport })
              dev
              pdt
              (one_setting target mpip val)
            ≡ verdict (record op { transport = target.transport }) dev resp off earlier param)
        × (mitem_get_value sg mpip (drop off param) ≡ to_u64 val % 2 ^ mpip.num_bits)
  build_mp_settings-change_mode_page laws op dev start arg val mpip target pdt resp md_len off
        earlier h wide c =
      let after = record op { transport = target.transport } in
      let w =
        change_mode_page-IsWritten sg laws after dev pdt (one_setting target mpip val) resp md_len
          off earlier c in
      (
        build-one_setting op.vendor_id start arg val mpip target h,
        w.0,
        w.2,
        w.1.values.0 ∙ truncate_val-same_bits val mpip.num_bits wide,
      )
