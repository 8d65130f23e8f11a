-- ===== src/ModeSelect/Defaults/Outcome.antt =====
-- When a reset to defaults writes to the device.
use sdparm.Prelude.{
  ℕ, ◌+◌, ◌-◌, ◌≤◌, ◌≡◌, ◌≢◌, true, not, List, [], ◌∷◌, inl, inr, refl, arith, replicate, ltb, ◌==◌,
  if◌then◌else◌,
}
use Prim.Native.Nat.{bit_and}
use sdparm.Prelude.Int.{ℤ, pos, ◌==ℤ◌}
use sdparm.SgLib.{SgLib}
use sdparm.Field.{mpage_len}
use sdparm.ModeSelect.{
  Request, Status, ControlsReply, page_controls, Device, Options, Fetched, failed, fetched,
  fetch_page, clear_data_len,
}
use sdparm.ModeSelect.Change.{mask_ps}
use sdparm.ModeSelect.Change.Commit.{
  Outcome, NoSelect, FailsWell, log_of, if-Outcome, send_page-IsLastSelect, fetch_page-NoSelect,
  fetch_page-FailsWell,
}
use sdparm.ModeSelect.Defaults.{put_page, write_defaults, set_def_mode_page, set_mp_defaults}

with_reply :
    (dev : Device) (op : Options) (Q : Type 0) (P : List Request → Type 0)
    (result : Status × List Request)
    → Q
    → Outcome dev op P result
    → Outcome dev op (λ earlier. Q × P earlier) result
with_reply dev op Q P result q (inl silent) = inl silent
with_reply dev op Q P result q (inr w) = inr (w.0, w.1, (q, w.2))

-- What holds when the defaults of a page are written, `earlier` being the requests so far: the
-- device has the current and the default values, and what is fetched then, from the page on, is no
-- longer than the current page.
pub record IsResettable (sg : SgLib) (op : Options) (dev : Device) (pn spn : ℤ)
    (reply : ControlsReply) (before earlier : List Request) : Type 0 where
  pub has_current : bit_and reply.smask 1 ≢ 0
  pub has_default : bit_and reply.smask 4 ≢ 0
  pub resp : List ℕ
  pub md_len : ℕ
  pub off : ℕ
  pub fetch :
      fetch_page sg dev op pn spn true
        (mpage_len sg reply.cur_mp + 128)
        (λ md_len. mpage_len sg reply.cur_mp + 128)
        (replicate (mpage_len sg reply.cur_mp + 128) 0)
        before
      ≡ fetched resp md_len off earlier
  pub page_inside : off ≤ md_len
  pub covered : md_len - off ≤ mpage_len sg reply.cur_mp

module _ (sg : SgLib) (op : Options) (dev : Device) where
  write_defaults-Outcome :
      (P : List Request → Type 0) (mode_pg : List ℕ) (mode_pg_len : ℕ) (f : Fetched)
      → NoSelect (log_of f)
      → FailsWell f
      → ((resp : List ℕ) (md_len off : ℕ) (log : List Request)
          → f ≡ fetched resp md_len off log
          → off ≤ md_len
          → md_len - off ≤ mode_pg_len
          → P log)
      → Outcome dev op P (write_defaults sg op dev mode_pg mode_pg_len f)
  unfolding write_defaults
  write_defaults-Outcome P mode_pg mode_pg_len (failed status log) h well p = inl (h, inl well)
  write_defaults-Outcome P mode_pg mode_pg_len (fetched resp md_len off log) h well p =
      if-Outcome dev op P (ltb md_len off) _ _ (λ behind. inl (h, inl (λ e. absurd (ground arith))))
        (λ inside.
          if-Outcome dev op P (ltb mode_pg_len (md_len - off)) _ _
            (λ longer. inl (h, inl (λ e. absurd (ground arith))))
            (λ fits.
              if-Outcome dev op P op.dummy _ _ (λ dry. inl (h, inr dry))
                (λ wet. inr (
                  log,
                  send_page-IsLastSelect sg dev op
                      (mask_ps off (put_page off (md_len - off) mode_pg (clear_data_len op resp)))
                      md_len log h wet,
                  p resp md_len off log refl (ground (arith, inside)) (ground (arith, fits)),
                ))))

  set_def_mode_page-Outcome :
      (pn spn : ℤ) (reply : ControlsReply) (before : List Request)
      → NoSelect before
      → bit_and reply.smask 1 ≢ 0
      → bit_and reply.smask 4 ≢ 0
      → Outcome dev op
          (IsResettable sg op dev pn spn reply before)
          (set_def_mode_page sg op dev pn spn reply.def_mp (mpage_len sg reply.cur_mp) before)
  unfolding set_def_mode_page
  set_def_mode_page-Outcome pn spn reply before h current default =
      let len = mpage_len sg reply.cur_mp + 128 in
      let buf = replicate len 0 in
      write_defaults-Outcome (IsResettable sg op dev pn spn reply before) reply.def_mp
        (mpage_len sg reply.cur_mp)
        (fetch_page sg dev op pn spn true len (λ md_len. len) buf before)
        (fetch_page-NoSelect sg dev op pn spn true len (λ md_len. len) buf before h)
        (fetch_page-FailsWell sg dev op pn spn true len (λ md_len. len) buf before)
        (λ resp md_len off log e inside fits. record {
          has_current = current;
          has_default = default;
          resp = resp;
          md_len = md_len;
          off = off;
          fetch = e;
          page_inside = inside;
          covered = fits;
        })

  -- What is asked for first.
  abbrev pub controls_request : ℤ → ℤ → Request
  controls_request pn spn =
      page_controls op.mode_6 op.dbd op.flexible pn spn (if op.mode_6 then 252 else 512)

  -- `set_mp_defaults` sends one MODE SELECT at most, as its last request. It sends one only if the
  -- device has the current and the default values of the page, the page was fetched, with the mode
  -- data from it on no longer than the current page that came with the defaults, and --dummy is not
  -- given; what the device says to it is returned. Without one it returns 0 with --dummy only.
  pub set_mp_defaults-Outcome :
      (pn spn : ℤ)
      → Outcome dev op
          (λ earlier.
            ((dev.get_controls [] (controls_request pn spn)).res ≡ pos 0)
            × IsResettable sg op dev pn spn
                (dev.get_controls [] (controls_request pn spn))
                (controls_request pn spn ∷ [])
                earlier)
          (set_mp_defaults sg op dev pn spn)
  unfolding set_mp_defaults
  set_mp_defaults-Outcome pn spn =
      let req = controls_request pn spn in
      let reply = dev.get_controls [] req in
      let P = λ (earlier : List Request).
        (reply.res ≡ pos 0) × IsResettable sg op dev pn spn reply (req ∷ []) earlier in
      if-Outcome dev op P (not (reply.res ==ℤ pos 0)) _ _
        (λ fails. inl ((refl, tt), inl (λ e. absurd (ground arith))))
        (λ ok.
          if-Outcome dev op P (bit_and reply.smask 1 == 0) _ _
            (λ no_current. inl ((refl, tt), inl (λ e. absurd (ground arith))))
            (λ current.
              if-Outcome dev op P (bit_and reply.smask 4 == 0) _ _
                (λ no_default. inl ((refl, tt), inl (λ e. absurd (ground arith))))
                (λ default. with_reply dev op _ _ _ (ground (arith, ok)) (
                  set_def_mode_page-Outcome pn spn reply (req ∷ []) (refl, tt)
                    (ground (arith, current)) (ground (arith, default))))))
