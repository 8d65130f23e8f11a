-- ===== src/ModeSelect/Change/Commit.antt =====
-- When change_mode_page writes to the device.
use sdparm.Prelude.{
  ℕ, Bool, true, false, not, ◌&&◌, Option, List, [], ◌∷◌, ◌≡◌, ◌≢◌, ◌⊎◌, inl, inr, refl, arith, All,
  drop, replicate, get_or, leb, none, Bool-cases, ◌<◌, if◌then◌else◌, ◌==◌,
}
use Prim.Native.Nat.{bit_and}
use sdparm.Prelude.Int.{ℤ, is_neg}
use sdparm.SgLib.{SgLib}
use sdparm.Tables.Types.{MpName, MpItem}
use sdparm.Field.{mpage_len}
use sdparm.ModeSelect.{
  Request, is_select, Device, Options, Status, done, status_of, Fetched, failed, fetched, malformed,
  ll_mode_sense, find_page, fetch_page, mode_data_len, send_page, Sensed,
}
use sdparm.ModeSelect.Change.{
  MpItVal, MpSettings, Edited, edited, stopped, Located, at, nowhere, locate, edit_item, mask_ps,
  set_at, edit_items, clear_header, commit, change_mode_page, get_mp_nm_with_str, pdt_ok,
}

-- No request of a log was a MODE SELECT.
abbrev pub NoSelect : List Request → Type 0
NoSelect log = All (λ req. is_select req ≡ false) log

abbrev pub log_of : Fetched → List Request
log_of (failed status log) = log
log_of (fetched resp md_len off log) = log

-- A fetch that fails does not return 0.
abbrev pub FailsWell : Fetched → Type 0
FailsWell (failed status log) = status ≢ done
FailsWell (fetched resp md_len off log) = Unit

-- An edit that is given up does not return 0; of one that goes through `P` holds.
abbrev EndsWell : Type 0 → Edited → Type 0
EndsWell P (edited mdpg) = P
EndsWell P (stopped status) = status ≢ done

abbrev PlacesWell : Located → Type 0
PlacesWell (at mpip) = Unit
PlacesWell (nowhere status) = status ≢ done

-- Nothing was written, and if 0 is returned it is because of --dummy.
abbrev pub Silent : Options → Status × List Request → Type 0
Silent op result = NoSelect result.1 × ((result.0 ≢ done) ⊎ (op.dummy ≡ true))

-- The last request, and it alone, is a MODE SELECT. It is not sent with --dummy, and what the
-- device says to it is returned.
pub record IsLastSelect (dev : Device) (op : Options) (earlier : List Request)
    (result : Status × List Request) : Type 0 where
  pub req : Request
  pub last : result.1 ≡ (req ∷ earlier)
  pub selects : is_select req ≡ true
  pub before : NoSelect earlier
  pub not_dummy : op.dummy ≡ false
  pub answer : result.0 ≡ status_of (dev.mode_select earlier req)

-- Either that, or a write, before which `P` holds of the requests so far.
abbrev pub Outcome : Device → Options → (List Request → Type 0) → Status × List Request → Type 0
Outcome dev op P result =
    Silent op result ⊎ ((earlier : List Request) × IsLastSelect dev op earlier result × P earlier)

pub if-Outcome :
    (dev : Device) (op : Options) (P : List Request → Type 0) (b : Bool)
    (x y : Status × List Request)
    → (b ≡ true → Outcome dev op P x)
    → (b ≡ false → Outcome dev op P y)
    → Outcome dev op P (if b then x else y)
if-Outcome dev op P true x y hx hy = hx refl
if-Outcome dev op P false x y hx hy = hy refl

-- No device type that an acronym stands for contradicts the device's own.
abbrev pub TypesAgree : SgLib → ℤ → List MpItVal → Type 0
TypesAgree sg pdt its =
    (is_neg pdt ≡ true)
    ⊎ All (λ ivp. (ivp.mp_it.acron ≡ none) ⊎ (sg.pdt_s_eq pdt ivp.mp_it.com_pdt ≡ true)) its

-- The item of a setting, moved if it is one of a descriptor, begins within the `len` bytes of the
-- page, or --flexible is given.
abbrev pub IsInside : SgLib → Options → Option MpName → ℕ → MpItVal → Type 0
IsInside sg op mnp len ivp =
    (cur_mp : List ℕ) × (mpip : MpItem) × (locate sg op mnp ivp cur_mp len ≡ at mpip)
    × ((mpip.start_byte < len) ⊎ (op.flexible ≡ true))

-- What holds when the page that `mps` is of is written, `earlier` being the requests so far.
pub record IsWritable (sg : SgLib) (dev : Device) (op : Options) (pdt : ℤ) (mps : MpSettings)
    (earlier : List Request) : Type 0 where
  pub types_agree : TypesAgree sg pdt mps.it_vals
  pub resp : List ℕ
  pub md_len : ℕ
  pub off : ℕ
  pub fetch :
      fetch_page sg dev op mps.pg_num mps.subpg_num false 2048
        (λ md_len. md_len)
        (replicate 2048 0)
        []
      ≡ fetched resp md_len off earlier
  pub inside :
      All
        (IsInside sg op
          (get_mp_nm_with_str sg mps.pg_num mps.subpg_num pdt op.transport op.vendor_id)
          (mpage_len sg (drop off resp)))
        mps.it_vals
  pub mdpg : List ℕ
  pub edits :
      edit_items sg op
        (get_mp_nm_with_str sg mps.pg_num mps.subpg_num pdt op.transport op.vendor_id)
        off
        (mpage_len sg (drop off resp))
        mps.it_vals
        (clear_header sg op pdt resp)
      ≡ edited mdpg
  pub saveable : (op.save ≡ false) ⊎ (bit_and 0x80 (get_or mdpg off 0) ≢ 0)

module _ (sg : SgLib) (dev : Device) (op : Options) where
  ll_mode_sense-NoSelect :
      (pn spn : ℤ) (llbaa : Bool) (resp : List ℕ) (len : ℕ) (log : List Request)
      → NoSelect log
      → NoSelect ((ll_mode_sense sg dev op pn spn llbaa resp len log).log)
  unfolding ll_mode_sense
  ll_mode_sense-NoSelect pn spn llbaa resp len log h = ground (arith, h)

  find_page-NoSelect :
      (offset_len : ℕ → ℕ) (md_len : ℕ) (second : Sensed)
      → NoSelect second.log
      → NoSelect (log_of (find_page sg dev op offset_len md_len second))
  unfolding find_page
  find_page-NoSelect offset_len md_len second h = ground (arith, h)

  -- To fetch a page no MODE SELECT is sent.
  pub fetch_page-NoSelect :
      (pn spn : ℤ) (llbaa : Bool) (limit : ℕ) (offset_len : ℕ → ℕ) (buf : List ℕ)
      (log : List Request)
      → NoSelect log
      → NoSelect (log_of (fetch_page sg dev op pn spn llbaa limit offset_len buf log))
  unfolding fetch_page
  fetch_page-NoSelect pn spn llbaa limit offset_len buf log h =
      let first = ll_mode_sense sg dev op pn spn llbaa buf 4 log in
      let h1 = ll_mode_sense-NoSelect pn spn llbaa buf 4 log h in
      let md_len = mode_data_len sg op first.resp in
      let second = ll_mode_sense sg dev op pn spn llbaa first.resp md_len first.log in
      let h2 = ll_mode_sense-NoSelect pn spn llbaa first.resp md_len first.log h1 in
      let h3 = find_page-NoSelect offset_len md_len second h2 in ground (arith, h1, h3)

  find_page-FailsWell :
      (offset_len : ℕ → ℕ) (md_len : ℕ) (second : Sensed)
      → FailsWell (find_page sg dev op offset_len md_len second)
  unfolding find_page
  find_page-FailsWell offset_len md_len second = ground arith

  pub fetch_page-FailsWell :
      (pn spn : ℤ) (llbaa : Bool) (limit : ℕ) (offset_len : ℕ → ℕ) (buf : List ℕ)
      (log : List Request)
      → FailsWell (fetch_page sg dev op pn spn llbaa limit offset_len buf log)
  unfolding fetch_page
  fetch_page-FailsWell pn spn llbaa limit offset_len buf log =
      let first = ll_mode_sense sg dev op pn spn llbaa buf 4 log in
      let md_len = mode_data_len sg op first.resp in
      ground (
        arith,
        find_page-FailsWell offset_len md_len
            (ll_mode_sense sg dev op pn spn llbaa first.resp md_len first.log),
      )

  locate-PlacesWell :
      (mnp : Option MpName) (ivp : MpItVal) (cur_mp : List ℕ) (len : ℕ)
      → PlacesWell (locate sg op mnp ivp cur_mp len)
  unfolding locate
  locate-PlacesWell mnp ivp cur_mp len = ground arith

  located-EndsWell :
      (mnp : Option MpName) (off len : ℕ) (ivp : MpItVal) (mdpg : List ℕ) (l : Located)
      → locate sg op mnp ivp (drop off mdpg) len ≡ l
      → PlacesWell l
      → EndsWell (IsInside sg op mnp len ivp) (elim l [
        | nowhere status ↦ stopped status
        | at mpip ↦
            if leb len mpip.start_byte && not op.flexible
            then stopped malformed
            else edited (set_at sg off ivp.val mpip mdpg)
      ])
  located-EndsWell mnp off len ivp mdpg (nowhere status) e h = h
  located-EndsWell mnp off len ivp mdpg (at mpip) e h =
      elim (Bool-cases (leb len mpip.start_byte && not op.flexible)) [
        | inl outside ↦ rw outside (λ e. absurd cc)
        | inr inside ↦ rw inside (drop off mdpg, mpip, e, ground (arith, inside))
      ]

  edit_item-EndsWell :
      (mnp : Option MpName) (off len : ℕ) (ivp : MpItVal) (mdpg : List ℕ)
      → EndsWell (IsInside sg op mnp len ivp) (edit_item sg op mnp off len ivp mdpg)
  unfolding edit_item
  edit_item-EndsWell mnp off len ivp mdpg =
      located-EndsWell mnp off len ivp mdpg _ refl (locate-PlacesWell mnp ivp (drop off mdpg) len)

  edit_items-EndsWell :
      (mnp : Option MpName) (off len : ℕ) (its : List MpItVal) (mdpg : List ℕ)
      → EndsWell (All (IsInside sg op mnp len) its) (edit_items sg op mnp off len its mdpg)
  unfolding edit_items
  edit_items-EndsWell mnp off len [] mdpg = tt
  edit_items-EndsWell mnp off len (ivp ∷ rest) mdpg =
      elim (edit_item sg op mnp off len ivp mdpg)
          as (λ e.
            EndsWell (IsInside sg op mnp len ivp) e
            → EndsWell (All (IsInside sg op mnp len) (ivp ∷ rest)) (elim e [
              | stopped status ↦ stopped status
              | edited mdpg' ↦ edit_items sg op mnp off len rest mdpg'
            ])) [
              | stopped status ↦ λ h. h
              | edited mdpg' ↦
                  λ h. with_first mnp len ivp rest _ h (edit_items-EndsWell mnp off len rest mdpg')
            ]
        (edit_item-EndsWell mnp off len ivp mdpg)
    where
      with_first :
          (mnp : Option MpName) (len : ℕ) (ivp : MpItVal) (rest : List MpItVal) (e : Edited)
          → IsInside sg op mnp len ivp
          → EndsWell (All (IsInside sg op mnp len) rest) e
          → EndsWell (All (IsInside sg op mnp len) (ivp ∷ rest)) e
      with_first mnp len ivp rest (edited mdpg) h hs = (h, hs)
      with_first mnp len ivp rest (stopped status) h hs = hs

  pub send_page-IsLastSelect :
      (mdpg : List ℕ) (md_len : ℕ) (log : List Request)
      → NoSelect log
      → op.dummy ≡ false
      → IsLastSelect dev op log (send_page sg dev op mdpg md_len log)
  unfolding send_page
  send_page-IsLastSelect mdpg md_len log h wet = record {
    req = _;
    last = refl;
    selects = ground arith;
    before = h;
    not_dummy = wet;
    answer = refl;
  }

  commit-Outcome :
      (P : List Request → Type 0) (off md_len : ℕ) (log : List Request) (mdpg : List ℕ)
      → NoSelect log
      → ((op.save ≡ false) ⊎ (bit_and 0x80 (get_or mdpg off 0) ≢ 0) → P log)
      → Outcome dev op P (commit sg op dev off md_len log mdpg)
  unfolding commit
  commit-Outcome P off md_len log mdpg h p =
      if-Outcome dev op P (bit_and 0x80 (get_or mdpg off 0) == 0 && op.save) _ _
        (λ unsaveable. inl (h, inl (λ e. absurd (ground arith))))
        (λ goes_on.
          if-Outcome dev op P op.dummy _ _ (λ dry. inl (h, inr dry))
            (λ wet. inr (
              log,
              send_page-IsLastSelect (mask_ps off mdpg) md_len log h wet,
              p (ground (arith, goes_on)),
            )))

  edited-Outcome :
      (P : List Request → Type 0) (Q : Type 0) (off md_len : ℕ) (log : List Request) (e : Edited)
      → NoSelect log
      → EndsWell Q e
      → ((mdpg : List ℕ)
          → e ≡ edited mdpg
          → Q
          → (op.save ≡ false) ⊎ (bit_and 0x80 (get_or mdpg off 0) ≢ 0)
          → P log)
      → Outcome dev op P (elim e [
        | stopped status ↦ (status, log)
        | edited mdpg' ↦ commit sg op dev off md_len log mdpg'
      ])
  edited-Outcome P Q off md_len log (stopped status) h well p = inl (h, inl well)
  edited-Outcome P Q off md_len log (edited mdpg') h well p =
      commit-Outcome P off md_len log mdpg' h (p mdpg' refl well)

  -- What follows a fetch.
  abbrev edit_and_commit : ℤ → MpSettings → Fetched → Status × List Request
  edit_and_commit pdt mps (failed status log) = (status, log)
  edit_and_commit pdt mps (fetched resp md_len off log) =
      let mnp = get_mp_nm_with_str sg mps.pg_num mps.subpg_num pdt op.transport op.vendor_id in
      let len = mpage_len sg (drop off resp) in
      elim (edit_items sg op mnp off len mps.it_vals (clear_header sg op pdt resp)) [
        | stopped status ↦ (status, log)
        | edited mdpg' ↦ commit sg op dev off md_len log mdpg'
      ]

  edit_and_commit-Outcome :
      (pdt : ℤ) (mps : MpSettings) (f : Fetched)
      → TypesAgree sg pdt mps.it_vals
      → fetch_page sg dev op mps.pg_num mps.subpg_num false 2048
          (λ md_len. md_len)
          (replicate 2048 0)
          []
        ≡ f
      → NoSelect (log_of f)
      → FailsWell f
      → Outcome dev op (IsWritable sg dev op pdt mps) (edit_and_commit pdt mps f)
  edit_and_commit-Outcome pdt mps (failed status log) agree e h well = inl (h, inl well)
  edit_and_commit-Outcome pdt mps (fetched resp md_len off log) agree e h well =
      let mnp = get_mp_nm_with_str sg mps.pg_num mps.subpg_num pdt op.transport op.vendor_id in
      let len = mpage_len sg (drop off resp) in
      edited-Outcome (IsWritable sg dev op pdt mps) _ off md_len log _ h
        (edit_items-EndsWell mnp off len mps.it_vals (clear_header sg op pdt resp))
        (λ mdpg e' inside saveable. record {
          types_agree = agree;
          resp = resp;
          md_len = md_len;
          off = off;
          fetch = e;
          inside = inside;
          mdpg = mdpg;
          edits = e';
          saveable = saveable;
        })

  pdt_ok→agree :
      (pdt : ℤ) (its : List MpItVal)
      → pdt_ok sg pdt its ≡ true
      → All (λ ivp. (ivp.mp_it.acron ≡ none) ⊎ (sg.pdt_s_eq pdt ivp.mp_it.com_pdt ≡ true)) its
  unfolding pdt_ok
  pdt_ok→agree pdt [] h = tt
  pdt_ok→agree pdt (ivp ∷ rest) h = ground (arith, h, pdt_ok→agree pdt rest)

  -- `change_mode_page` sends one MODE SELECT at most, as its last request. It sends one only if no
  -- device type contradicts the device's, the page was fetched, each item begins within the page
  -- or --flexible is given, all items could be set, with --save the page has its PS bit, and
  -- --dummy is not given; what the device says to it is returned. Without one it returns 0 with
  -- --dummy only.
  pub change_mode_page-Outcome :
      (pdt : ℤ) (mps : MpSettings)
      → Outcome dev op (IsWritable sg dev op pdt mps) (change_mode_page sg op dev pdt mps)
  unfolding change_mode_page
  change_mode_page-Outcome pdt mps =
      let buf : List ℕ = replicate 2048 0 in
      let whole = λ (md_len : ℕ). md_len in
      let P = IsWritable sg dev op pdt mps in
      if-Outcome dev op P (not (is_neg pdt) && not (pdt_ok sg pdt mps.it_vals)) _ _
        (λ contradicts. inl (tt, inl (λ e. absurd (ground arith))))
        (λ goes_on.
          edit_and_commit-Outcome pdt mps
            (fetch_page sg dev op mps.pg_num mps.subpg_num false 2048 whole buf [])
            (agrees (is_neg pdt) refl goes_on) refl
            (fetch_page-NoSelect mps.pg_num mps.subpg_num false 2048 whole buf [] tt)
            (fetch_page-FailsWell mps.pg_num mps.subpg_num false 2048 whole buf []))
    where
      agrees :
          (b : Bool)
          → is_neg pdt ≡ b
          → (not b && not (pdt_ok sg pdt mps.it_vals)) ≡ false
          → TypesAgree sg pdt mps.it_vals
      agrees true e h = inl e
      agrees false e h = inr (pdt_ok→agree pdt mps.it_vals (ground (arith, h)))
