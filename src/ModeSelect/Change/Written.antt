-- ===== src/ModeSelect/Change/Written.antt =====
-- What change_mode_page writes to the device.
use sdparm.Prelude.{
  ℕ, zero, suc, ◌+◌, ◌*◌, ◌%◌, ◌^◌, ◌≤◌, ◌<◌, true, false, List, [], ◌∷◌, none, inr, ◌/◌, ◌≡◌, refl,
  sym, ◌∙◌, ap, arith, All, length, get_or, set, take, drop, replicate, length-set, length-take,
  length-drop,
}
use Prim.Native.Nat.{bit_and}
use sdparm.Prelude.Int.{ℤ, pos}
use sdparm.Prelude.Find.{All-map}
use sdparm.Prelude.Bits.{mask_and}
use sdparm.SgLib.{SgLib, SgLibLaws}
use sdparm.SgLib.Bits.{bit_at, bits_value, bit_at-drop}
use sdparm.Tables.Types.{MpItem}
use sdparm.Field.{mpage_len, mitem_get_value}
use sdparm.Field.RoundTrip.{FitsPage, Apart, get_value-bits}
use sdparm.ModeSelect.{Request, Device, Options, fetched, fetch_page, clear_data_len}
use sdparm.ModeSelect.Change.{MpItVal, MpSettings, clear_header, pdt_ok, mask_ps, to_u64}
use sdparm.ModeSelect.Change.Edits.{IsPlain, AllApart, IsEditOf}
use sdparm.ModeSelect.Sent.{get_value-sent, get_or-set_ne, get_or-take}

drop-set_lt : (xs : List ℕ) (off i v : ℕ) → i < off → drop off (set xs i v) ≡ drop off xs
drop-set_lt xs zero i v h = absurd (omega arith)
drop-set_lt [] (suc off) i v h = refl
drop-set_lt (x ∷ xs) (suc off) zero v h = refl
drop-set_lt (x ∷ xs) (suc off) (suc i) v h = drop-set_lt xs off i v (omega arith)

get_or-set_self : (xs : List ℕ) (i v : ℕ) → i < length xs → get_or (set xs i v) i 0 ≡ v
get_or-set_self [] i v h = absurd (omega arith)
get_or-set_self (x ∷ xs) zero v h = refl
get_or-set_self (x ∷ xs) (suc i) v h = get_or-set_self xs i v (omega arith)

-- Two lists that begin alike.
get_or-same_take :
    (n : ℕ) (xs ys : List ℕ) (i : ℕ) → take n xs ≡ take n ys → i < n → get_or xs i 0 ≡ get_or ys i 0
get_or-same_take n xs ys i e h =
    sym (get_or-take n xs i h) ∙ ap (λ t. get_or t i 0) e ∙ get_or-take n ys i h

module _ (sg : SgLib) (op : Options) where
  -- The page of a response is not touched when the header is cleared.
  pub drop-clear_header :
      (off : ℕ) (pdt : ℤ) (resp : List ℕ)
      → 4 ≤ off
      → drop off (clear_header sg op pdt resp) ≡ drop off resp
  unfolding clear_header clear_data_len
  drop-clear_header off pdt resp h =
      let c6 = set resp 0 0 in
      let c10 = set c6 1 0 in
      ground (
        arith,
        h,
        drop-set_lt resp off 0 0,
        drop-set_lt c6 off 1 0,
        drop-set_lt c6 off 2 0,
        drop-set_lt c10 off 3 0,
      )

  pub length-clear_header :
      (pdt : ℤ) (resp : List ℕ) → length (clear_header sg op pdt resp) ≡ length resp
  unfolding clear_header clear_data_len
  length-clear_header pdt resp =
      let c6 = set resp 0 0 in
      let c10 = set c6 1 0 in
      ground (arith, length-set resp 0 0, length-set c6 1 0, length-set c6 2 0, length-set c10 3 0)

  clear_header-length_bytes :
      (pdt : ℤ) (resp : List ℕ)
      → 4 ≤ length resp
      → (get_or (clear_header sg op pdt resp) 0 0 ≡ 0)
        × (op.mode_6 ≡ false → get_or (clear_header sg op pdt resp) 1 0 ≡ 0)
  unfolding clear_header clear_data_len
  clear_header-length_bytes pdt resp h =
      let c6 = set resp 0 0 in
      let c10 = set c6 1 0 in
      let l6 = length-set resp 0 0 in
      ground (
        arith,
        h,
        l6,
        get_or-set_self resp 0 0,
        get_or-set_self c6 1 0,
        get_or-set_ne c6 1 0 0 (λ e. omega (arith, e)),
        get_or-set_ne c6 2 0 0 (λ e. omega (arith, e)),
        get_or-set_ne c10 3 0 0 (λ e. omega (arith, e)),
        get_or-set_ne c10 3 1 0 (λ e. omega (arith, e)),
      )

-- What is known of a change before it is tried: `resp` is what the device has answered, and the
-- settings are of no descriptor, lie in the page behind its first byte and share no bit.
pub record IsChange (sg : SgLib) (op : Options) (dev : Device) (pdt : ℤ) (mps : MpSettings)
    (resp : List ℕ) (md_len off : ℕ) (earlier : List Request) : Type 0 where
  pub types_agree : pdt_ok sg pdt mps.it_vals ≡ true
  pub fetch :
      fetch_page sg dev op mps.pg_num mps.subpg_num false 2048
        (λ md_len. md_len)
        (replicate 2048 0)
        []
      ≡ fetched resp md_len off earlier
  pub page_inside : off < md_len
  pub plain : All (IsPlain (mpage_len sg (drop off resp)) (drop off (take md_len resp))) mps.it_vals
  pub behind : All (λ ivp. 1 ≤ ivp.mp_it.start_byte) mps.it_vals
  pub apart : AllApart mps.it_vals

-- The mode data `param` that is to be written for the settings `its`.
pub record IsWritten (sg : SgLib) (op : Options) (its : List MpItVal) (resp : List ℕ)
    (md_len off : ℕ) (param : List ℕ) : Type 0 where
  pub whole : length param ≡ md_len
  pub len_byte : get_or param 0 0 ≡ 0
  pub len_byte1 : op.mode_6 ≡ false → get_or param 1 0 ≡ 0
  pub ps_clear : bit_at (drop off param) 0 ≡ 0
  pub values :
      All
        (λ ivp.
          mitem_get_value sg ivp.mp_it (drop off param) ≡ to_u64 ivp.val % 2 ^ ivp.mp_it.num_bits)
        its
  pub others :
      (b : MpItem)
      → 1 ≤ b.start_byte
      → FitsPage b (drop off (take md_len resp))
      → All (λ ivp. Apart ivp.mp_it b) its
      → mitem_get_value sg b (drop off param) ≡ mitem_get_value sg b (drop off resp)

-- The first bit of a page.
abbrev ps_item : MpItem
ps_item = record {
  acron = none;
  pg_num = 0;
  subpg_num = 0;
  com_pdt = pos 0;
  start_byte = 0;
  start_bit = 7;
  num_bits = 1;
  flags = 0;
}

pub ps_bit : (xs : List ℕ) (off : ℕ) → bit_at (drop off xs) 0 ≡ get_or xs off 0 / 2 ^ 7 % 2
unfolding bit_at
ps_bit xs off =
    let place : (8 * off + 0) / 8 ≡ off = omega arith in
    let row : (8 * off + 0) % 8 ≡ 0 = omega arith in bit_at-drop xs off 0 ∙ rw (place, row) refl

module _ (sg : SgLib) (laws : SgLibLaws sg) (op : Options) where
  ps_value : (mp : List ℕ) → 1 ≤ length mp → mitem_get_value sg ps_item mp ≡ bit_at mp 0
  unfolding bits_value
  ps_value mp h = omega (arith, get_value-bits sg laws ps_item mp (omega arith))

  -- The settings leave the PS bit.
  pub same_ps :
      (off : ℕ) (its : List MpItVal) (hdr out : List ℕ)
      → IsEditOf sg laws op off its hdr out
      → All (λ ivp. 1 ≤ ivp.mp_it.start_byte) its
      → off < length hdr
      → bit_at (drop off out) 0 ≡ bit_at (drop off hdr) 0
  same_ps off its hdr out e behind h =
      sym (ps_value (drop off out) (omega (arith, length-drop off out, e.same_length)))
      ∙ e.others ps_item (omega (arith, length-drop off hdr))
          (All-map _ _ (λ ivp far. inr (omega (arith, far))) its behind)
      ∙ ps_value (drop off hdr) (omega (arith, length-drop off hdr))

  -- What is sent has the page's values.
  sent_values :
      (md_len off : ℕ) (out : List ℕ) (its : List MpItVal)
      → All (λ ivp. FitsPage ivp.mp_it (drop off (take md_len out))) its
      → All (λ ivp. 1 ≤ ivp.mp_it.start_byte) its
      → All
          (λ ivp.
            mitem_get_value sg ivp.mp_it (drop off out) ≡ to_u64 ivp.val % 2 ^ ivp.mp_it.num_bits)
          its
      → All
          (λ ivp.
            mitem_get_value sg ivp.mp_it (drop off (take md_len (mask_ps off out)))
            ≡ to_u64 ivp.val % 2 ^ ivp.mp_it.num_bits)
          its
  sent_values md_len off out [] fits behind values = tt
  sent_values md_len off out (ivp ∷ rest) fits behind values = (
    get_value-sent sg laws off md_len out ivp.mp_it behind.0 fits.0 ∙ values.0,
    sent_values md_len off out rest fits.1 behind.1 values.1,
  )

  byte_sent :
      (off md_len i : ℕ) (hdr out : List ℕ)
      → take off out ≡ take off hdr
      → i < off
      → off < md_len
      → get_or (take md_len (mask_ps off out)) i 0 ≡ get_or hdr i 0
  byte_sent off md_len i hdr out e lt inside =
      get_or-take md_len (mask_ps off out) i (omega arith)
      ∙ get_or-set_ne out off i (bit_and 0x7f (get_or out off 0)) (λ same. omega (arith, same))
      ∙ get_or-same_take off out hdr i e lt

  ps_sent :
      (off md_len : ℕ) (out : List ℕ)
      → off < md_len
      → off < length out
      → bit_at (drop off (take md_len (mask_ps off out))) 0 ≡ 0
  ps_sent off md_len out inside bound =
      let low = bit_and 0x7f (get_or out off 0) in
      let byte : get_or (take md_len (mask_ps off out)) off 0 ≡ low =
        get_or-take md_len (mask_ps off out) off inside ∙ get_or-set_self out off low bound in
      ps_bit (take md_len (mask_ps off out)) off
      ∙ omega (arith, byte, mask_and 7 (get_or out off 0))

  pub written :
      (its : List MpItVal) (pdt : ℤ) (resp out : List ℕ) (md_len off : ℕ)
      → IsEditOf sg laws op off its (clear_header sg op pdt resp) out
      → All (λ ivp. 1 ≤ ivp.mp_it.start_byte) its
      → All (λ ivp. FitsPage ivp.mp_it (drop off (take md_len resp))) its
      → 4 ≤ off
      → off < md_len
      → md_len ≤ length resp
      → IsWritten sg op its resp md_len off (take md_len (mask_ps off out))
  written its pdt resp out md_len off e behind fits four inside bound = record {
    whole = omega (
      arith,
      sizes,
      length-take md_len (mask_ps off out),
      length-set out off (bit_and 0x7f (get_or out off 0)),
    );
    len_byte = byte_sent off md_len 0 hdr out e.same_header (omega arith) inside ∙ cleared.0;
    len_byte1 =
        λ ten. byte_sent off md_len 1 hdr out e.same_header (omega arith) inside ∙ cleared.1 ten;
    ps_clear = ps_sent off md_len out inside (omega (arith, sizes));
    values =
        sent_values md_len off out its (All-map _ _ (λ ivp fit. fits_out ivp.mp_it fit) its fits)
          behind e.values;
    others = λ b far fit apart.
        get_value-sent sg laws off md_len out b far (fits_out b fit)
        ∙ e.others b (fits_hdr b fit) apart
        ∙ ap (mitem_get_value sg b) (drop-clear_header sg op off pdt resp four);
  }
    where
      hdr : List ℕ
      hdr = clear_header sg op pdt resp

      sizes : length out ≡ length resp
      sizes = e.same_length ∙ length-clear_header sg op pdt resp

      cleared : (get_or hdr 0 0 ≡ 0) × (op.mode_6 ≡ false → get_or hdr 1 0 ≡ 0)
      cleared = clear_header-length_bytes sg op pdt resp (omega arith)

      fits_out :
          (b : MpItem)
          → FitsPage b (drop off (take md_len resp))
          → FitsPage b (drop off (take md_len out))
      fits_out b fit = omega (
        arith,
        fit,
        sizes,
        length-drop off (take md_len resp),
        length-drop off (take md_len out),
        length-take md_len resp,
        length-take md_len out,
      )

      fits_hdr : (b : MpItem) → FitsPage b (drop off (take md_len resp)) → FitsPage b (drop off hdr)
      fits_hdr b fit = omega (
        arith,
        fit,
        length-drop off (take md_len resp),
        length-drop off hdr,
        length-take md_len resp,
        length-clear_header sg op pdt resp,
      )
