-- ===== src/ModeSelect/Defaults/Content.antt =====
-- What a reset of one page to its defaults writes to the device.
use sdparm.Prelude.{
  ℕ, ◌+◌, ◌-◌, ◌≤◌, ◌<◌, true, List, ◌∷◌, ◌++◌, ◌≡◌, sym, ◌∙◌, ap, arith, length, set, take, drop,
  replicate, length-set, length-append, length-take, length-drop, length-replicate, get_or,
  if◌then◌else◌,
}
use Prim.Native.Nat.{bit_and}
use sdparm.Prelude.Int.{ℤ}
use sdparm.SgLib.{SgLib, SgLibLaws}
use sdparm.SgLib.Bits.{bits_value_ext}
use sdparm.Tables.Types.{MpItem}
use sdparm.Field.{mitem_get_value}
use sdparm.Field.RoundTrip.{FitsPage, first_bit, get_value-bits}
use sdparm.Field.Splice.{bit_at-splice_lt}
use sdparm.ModeSelect.{
  Request, Device, Options, Status, done, status_of, fetched, fetch_page, page_select,
  clear_data_len, send_page,
}
use sdparm.ModeSelect.Change.{mask_ps}
use sdparm.ModeSelect.Change.Edits.{drop-append_take}
use sdparm.ModeSelect.Defaults.{put_page, write_defaults, set_def_mode_page}
use sdparm.ModeSelect.Sent.{get_value-sent}
use sdparm.ModeSelect.Fetch.{fetch_page-fetched}

length-clear_data_len :
    (op : Options) (resp : List ℕ) → length (clear_data_len op resp) ≡ length resp
unfolding clear_data_len
length-clear_data_len op resp = ground (arith, length-set resp 0 0, length-set (set resp 0 0) 1 0)

-- The mode data `param` by which the page `mode_pg` replaces what is on the device.
pub record IsReset (sg : SgLib) (mode_pg : List ℕ) (md_len off : ℕ) (param : List ℕ) : Type 0 where
  pub whole : length param ≡ md_len
  pub items :
      (b : MpItem)
      → 1 ≤ b.start_byte
      → FitsPage b (take (md_len - off) mode_pg)
      → mitem_get_value sg b (drop off param) ≡ mitem_get_value sg b mode_pg

-- The page that the device answers with is no longer than the defaults.
pub record IsCovered (sg : SgLib) (op : Options) (dev : Device) (pn spn : ℤ) (mode_pg : List ℕ)
    (mode_pg_len : ℕ) (log : List Request) (resp : List ℕ) (md_len off : ℕ) (earlier : List Request)
    : Type 0 where
  pub fetch :
      fetch_page sg dev op pn spn true
        (mode_pg_len + 128)
        (λ md_len. mode_pg_len + 128)
        (replicate (mode_pg_len + 128) 0)
        log
      ≡ fetched resp md_len off earlier
  pub page_inside : off < md_len
  pub covered : md_len - off ≤ mode_pg_len
  pub enough : md_len - off ≤ length mode_pg

module _ (sg : SgLib) (laws : SgLibLaws sg) (op : Options) (dev : Device) where
  -- What is returned and sent once `param` is what there is to write.
  abbrev pub dry_or_sent : List ℕ → List Request → Status × List Request
  dry_or_sent param earlier = if op.dummy then (done, earlier) else (
    status_of (dev.mode_select earlier (page_select op param)),
    page_select op param ∷ earlier,
  )

  get_value-append :
      (n : ℕ) (mp rest : List ℕ) (b : MpItem)
      → n ≤ length mp
      → FitsPage b (take n mp)
      → mitem_get_value sg b (take n mp ++ rest) ≡ mitem_get_value sg b mp
  get_value-append n mp rest b h fits =
      get_value-bits sg laws b (take n mp ++ rest)
        (omega (arith, fits, length-append (take n mp) rest))
      ∙ bits_value_ext _ _ (first_bit b) (first_bit b) b.num_bits (λ k lt.
        bit_at-splice_lt mp rest n (first_bit b + k) h (omega (arith, fits, length-take n mp)))
      ∙ sym (get_value-bits sg laws b mp (omega (arith, fits, length-take n mp)))

  length-put_page :
      (off n : ℕ) (mode_pg mdp : List ℕ)
      → n ≤ length mode_pg
      → off + n ≤ length mdp
      → length (put_page off n mode_pg mdp) ≡ length mdp
  length-put_page off n mode_pg mdp h fits = omega (
    arith,
    h,
    fits,
    length-append (take off mdp) (take n mode_pg ++ drop (off + n) mdp),
    length-append (take n mode_pg) (drop (off + n) mdp),
    length-take off mdp,
    length-take n mode_pg,
    length-drop (off + n) mdp,
  )

  reset :
      (mode_pg mdp : List ℕ) (md_len off : ℕ)
      → off < md_len
      → md_len ≤ length mdp
      → md_len - off ≤ length mode_pg
      → IsReset sg mode_pg md_len off
          (take md_len (mask_ps off (put_page off (md_len - off) mode_pg mdp)))
  reset mode_pg mdp md_len off inside bound enough = record {
    whole = omega (
      arith,
      size,
      length-take md_len (mask_ps off mdp'),
      length-set mdp' off (bit_and 0x7f (get_or mdp' off 0)),
    );
    items = λ b far fits.
        get_value-sent sg laws off md_len mdp' b far (
          omega (
            arith,
            fits,
            size,
            length-drop off (take md_len mdp'),
            length-take md_len mdp',
            length-take (md_len - off) mode_pg,
          ))
        ∙ ap (mitem_get_value sg b)
            (drop-append_take off mdp (take (md_len - off) mode_pg ++ tail) (omega arith))
        ∙ get_value-append (md_len - off) mode_pg tail b enough fits;
  }
    where
      mdp' : List ℕ
      mdp' = put_page off (md_len - off) mode_pg mdp

      tail : List ℕ
      tail = drop (off + (md_len - off)) mdp

      size : length mdp' ≡ length mdp
      size = length-put_page off (md_len - off) mode_pg mdp enough (omega arith)

  written :
      (mode_pg resp : List ℕ) (mode_pg_len md_len off : ℕ) (earlier : List Request)
      → off < md_len
      → md_len - off ≤ mode_pg_len
      → write_defaults sg op dev mode_pg mode_pg_len (fetched resp md_len off earlier)
        ≡ dry_or_sent
            (take md_len
              (mask_ps off (put_page off (md_len - off) mode_pg (clear_data_len op resp))))
            earlier
  unfolding write_defaults send_page
  written mode_pg resp mode_pg_len md_len off earlier inside covered = ground arith

  -- If the page that the device answers with is no longer than the default page, then
  -- `set_def_mode_page` comes to mode data in which every item behind the page's first byte has
  -- the value that it has in the default page. It returns 0 without a write for --dummy, and else
  -- writes that mode data and returns what the device says to it.
  pub set_def_mode_page-IsReset :
      (pn spn : ℤ) (mode_pg : List ℕ) (mode_pg_len : ℕ) (log : List Request) (resp : List ℕ)
      (md_len off : ℕ) (earlier : List Request)
      → IsCovered sg op dev pn spn mode_pg mode_pg_len log resp md_len off earlier
      → (param : List ℕ) × IsReset sg mode_pg md_len off param
        × (set_def_mode_page sg op dev pn spn mode_pg mode_pg_len log ≡ dry_or_sent param earlier)
  unfolding set_def_mode_page
  set_def_mode_page-IsReset pn spn mode_pg mode_pg_len log resp md_len off earlier c =
      let (size, bound, behind) =
        fetch_page-fetched sg laws dev op pn spn true (mode_pg_len + 128) (λ n. mode_pg_len + 128)
          (replicate (mode_pg_len + 128) 0) log resp md_len off earlier (omega arith)
          (length-replicate {A = ℕ} (mode_pg_len + 128) 0) c.fetch in
      (
        _,
        reset mode_pg (clear_data_len op resp) md_len off c.page_inside
            (omega (arith, size, bound, length-clear_data_len op resp)) c.enough,
        rw c.fetch (written mode_pg resp mode_pg_len md_len off earlier c.page_inside c.covered),
      )
