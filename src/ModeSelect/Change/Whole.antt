-- ===== src/ModeSelect/Change/Whole.antt =====
-- change_mode_page as a whole.
use sdparm.Prelude.{
  ℕ, ◌≤◌, Bool, false, ◌&&◌, List, [], ◌∷◌, ◌≡◌, refl, ◌∙◌, ap, arith, length, get_or, take, drop,
  replicate, length-take, length-drop, length-replicate, if◌then◌else◌, ◌==◌,
}
use Prim.Native.Nat.{bit_and}
use sdparm.Prelude.Int.{ℤ}
use sdparm.Prelude.Find.{All-map}
use sdparm.Prelude.Bits.{flag_and}
use sdparm.SgLib.{SgLib, SgLibLaws}
use sdparm.SgLib.Bits.{bit_at}
use sdparm.Field.{mpage_len}
use sdparm.ModeSelect.{
  Request, Device, Options, Status, done, malformed, status_of, page_select, send_page,
}
use sdparm.ModeSelect.Change.{
  MpItVal, MpSettings, edited, edit_items, clear_header, commit, change_mode_page,
  get_mp_nm_with_str, mask_ps,
}
use sdparm.ModeSelect.Change.Edits.{IsPlain, edit_items-IsEditOf}
use sdparm.ModeSelect.Change.Written.{
  IsChange, IsWritten, written, same_ps, ps_bit, drop-clear_header, length-clear_header,
}
use sdparm.ModeSelect.Fetch.{fetch_page-fetched}

-- Does the page that was fetched say that it cannot be saved?
abbrev pub unsaveable : List ℕ → ℕ → Bool
unsaveable resp off = bit_and 0x80 (get_or resp off 0) == 0

-- What is returned and sent once `param` is what there is to write.
abbrev pub verdict : Options → Device → List ℕ → ℕ → List Request → List ℕ → Status × List Request
verdict op dev resp off earlier param =
    if unsaveable resp off && op.save
    then (malformed, earlier)
    else if op.dummy
    then (done, earlier)
    else (
      status_of (dev.mode_select earlier (page_select op param)),
      page_select op param ∷ earlier,
    )

ps_flag :
    (xs ys : List ℕ) (off : ℕ)
    → bit_at (drop off xs) 0 ≡ bit_at (drop off ys) 0
    → bit_and 0x80 (get_or xs off 0) ≡ bit_and 0x80 (get_or ys off 0)
ps_flag xs ys off h = omega (
  arith,
  h,
  ps_bit xs off,
  ps_bit ys off,
  flag_and 7 (get_or xs off 0),
  flag_and 7 (get_or ys off 0),
)

-- A page cut to the mode data is no longer than what the buffer holds of it.
still-IsPlain :
    (len off md_len : ℕ) (resp hdr : List ℕ)
    → length hdr ≡ length resp
    → (ivp : MpItVal) → IsPlain len (drop off (take md_len resp)) ivp
    → IsPlain len (drop off hdr) ivp
still-IsPlain len off md_len resp hdr e ivp plain = record {
  no_descriptor = plain.no_descriptor;
  starts_inside = plain.starts_inside;
  fits = omega (
    arith,
    plain.fits,
    e,
    length-drop off (take md_len resp),
    length-take md_len resp,
    length-drop off hdr,
  );
}

module _ (sg : SgLib) (laws : SgLibLaws sg) (op : Options) (dev : Device) where
  commit-verdict :
      (off md_len : ℕ) (earlier : List Request) (resp out : List ℕ)
      → bit_and 0x80 (get_or out off 0) ≡ bit_and 0x80 (get_or resp off 0)
      → commit sg op dev off md_len earlier out
        ≡ verdict op dev resp off earlier (take md_len (mask_ps off out))
  unfolding commit send_page
  commit-verdict off md_len earlier resp out e = rw e refl

  runs :
      (pdt : ℤ) (mps : MpSettings) (resp out : List ℕ) (md_len off : ℕ) (earlier : List Request)
      → IsChange sg op dev pdt mps resp md_len off earlier
      → edit_items sg op
          (get_mp_nm_with_str sg mps.pg_num mps.subpg_num pdt op.transport op.vendor_id)
          off
          (mpage_len sg (drop off resp))
          mps.it_vals
          (clear_header sg op pdt resp)
        ≡ edited out
      → change_mode_page sg op dev pdt mps ≡ commit sg op dev off md_len earlier out
  unfolding change_mode_page
  runs pdt mps resp out md_len off earlier c e = rw (c.types_agree, c.fetch, e) (ground arith)

  -- If the settings are of no descriptor, no device type contradicts theirs, and their items lie
  -- in the page that the device answers with, behind its first byte, and share no bit, then
  -- `change_mode_page` comes to mode data in which the length field and the PS bit are cleared,
  -- each item has the low bits of its value and every other item of the page, but for the first
  -- byte, its old value. It returns an error without a write if the page is not saveable and
  -- --save was given, returns 0 without a write for --dummy, and else writes that mode data and
  -- returns what the device says to it.
  pub change_mode_page-IsWritten :
      (pdt : ℤ) (mps : MpSettings) (resp : List ℕ) (md_len off : ℕ) (earlier : List Request)
      → IsChange sg op dev pdt mps resp md_len off earlier
      → (param : List ℕ) × IsWritten sg op mps.it_vals resp md_len off param
        × (change_mode_page sg op dev pdt mps ≡ verdict op dev resp off earlier param)
  change_mode_page-IsWritten pdt mps resp md_len off earlier c =
      let (size, bound, behind_header) =
        fetch_page-fetched sg laws dev op mps.pg_num mps.subpg_num false 2048 (λ n. n)
          (replicate 2048 0) [] resp md_len off earlier (omega arith)
          (length-replicate {A = ℕ} 2048 0) c.fetch in
      let four : 4 ≤ off = ground (arith, behind_header) in
      let hdr = clear_header sg op pdt resp in
      let long = length-clear_header sg op pdt resp in
      let (out, e, edit) =
        edit_items-IsEditOf sg laws op
          (get_mp_nm_with_str sg mps.pg_num mps.subpg_num pdt op.transport op.vendor_id) off
          (mpage_len sg (drop off resp)) mps.it_vals hdr
          (omega (arith, size, bound, long, c.page_inside))
          (All-map _ _ (still-IsPlain (mpage_len sg (drop off resp)) off md_len resp hdr long)
            mps.it_vals c.plain)
          c.apart in
      (
        take md_len (mask_ps off out),
        written sg laws op mps.it_vals pdt resp out md_len off edit c.behind
            (All-map _ _ (λ ivp plain. plain.fits) mps.it_vals c.plain) four c.page_inside
            (omega (arith, size, bound)),
        runs pdt mps resp out md_len off earlier c e
            ∙ commit-verdict off md_len earlier resp out (
                ps_flag out resp off (
                  same_ps sg laws op off mps.it_vals hdr out edit c.behind
                    (omega (arith, size, bound, long, c.page_inside))
                  ∙ ap (λ t. bit_at t 0) (drop-clear_header sg op off pdt resp four))),
      )
