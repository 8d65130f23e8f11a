-- ===== src/ModeSelect/Change/Edits.antt =====
-- What the loop of change_mode_page over plain settings, those of no descriptor, does to the mode
-- data.
use sdparm.Prelude.{
  ℕ, zero, suc, ◌%◌, ◌^◌, ◌≤◌, ◌<◌, Option, List, [], ◌∷◌, ◌++◌, ◌≡◌, refl, ◌∙◌, ap, arith, All,
  length, take, drop, length-append, length-take, length-drop,
}
use sdparm.Prelude.Int.{ℤ}
use sdparm.Prelude.Find.{All-map}
use sdparm.SgLib.{SgLib, SgLibLaws}
use sdparm.Tables.Types.{MpItem, MpName}
use sdparm.Field.{mitem_get_value, mitem_set_value}
use sdparm.Field.RoundTrip.{
  FitsPage, Apart, length-set_value, get_value-set_value, get_value-set_value-Apart,
}
use sdparm.ModeSelect.{Options}
use sdparm.ModeSelect.Change.{MpItVal, edited, edit_items, edit_item, locate, set_at, to_u64}

-- A setting of no descriptor, whose item lies in the page.
pub record IsPlain (len : ℕ) (cur_mp : List ℕ) (ivp : MpItVal) : Type 0 where
  pub no_descriptor : ivp.descriptor_num ≡ 0
  pub starts_inside : ivp.mp_it.start_byte < len
  pub fits : FitsPage ivp.mp_it cur_mp

-- No two of the settings share a bit.
abbrev pub AllApart : List MpItVal → Type 0
AllApart [] = Unit
AllApart (ivp ∷ rest) = All (λ other. Apart ivp.mp_it other.mp_it) rest × AllApart rest

pub drop-append_take {ℓ} :
    {A : Type ℓ} (n : ℕ) (xs ys : List A) → n ≤ length xs → drop n (take n xs ++ ys) ≡ ys
drop-append_take zero xs ys h = refl
drop-append_take (suc n) [] ys h = absurd (omega arith)
drop-append_take (suc n) (x ∷ xs) ys h = drop-append_take n xs ys (omega arith)

take-append_take {ℓ} :
    {A : Type ℓ} (n : ℕ) (xs ys : List A) → n ≤ length xs → take n (take n xs ++ ys) ≡ take n xs
take-append_take zero xs ys h = refl
take-append_take (suc n) [] ys h = absurd (omega arith)
take-append_take (suc n) (x ∷ xs) ys h = ap (λ t. x ∷ t) (take-append_take n xs ys (omega arith))

module _ (sg : SgLib) (laws : SgLibLaws sg) (op : Options) where
  -- The mode data `out` that an edit of `mdpg` by `its` leaves.
  pub record IsEditOf (off : ℕ) (its : List MpItVal) (mdpg out : List ℕ) : Type 0 where
    pub same_length : length out ≡ length mdpg
    pub same_header : take off out ≡ take off mdpg
    pub values :
        All
          (λ ivp.
            mitem_get_value sg ivp.mp_it (drop off out) ≡ to_u64 ivp.val % 2 ^ ivp.mp_it.num_bits)
          its
    pub others :
        (b : MpItem)
        → FitsPage b (drop off mdpg)
        → All (λ ivp. Apart ivp.mp_it b) its
        → mitem_get_value sg b (drop off out) ≡ mitem_get_value sg b (drop off mdpg)

  length-set_at :
      (off : ℕ) (val : ℤ) (mpip : MpItem) (mdpg : List ℕ)
      → length (set_at sg off val mpip mdpg) ≡ length mdpg
  length-set_at off val mpip mdpg = omega (
    arith,
    length-append (take off mdpg) (mitem_set_value sg (to_u64 val) mpip (drop off mdpg)),
    length-set_value sg laws (to_u64 val) mpip (drop off mdpg),
    length-take off mdpg,
    length-drop off mdpg,
  )

  edit_item-plain :
      (mnp : Option MpName) (off len : ℕ) (ivp : MpItVal) (mdpg : List ℕ)
      → IsPlain len (drop off mdpg) ivp
      → edit_item sg op mnp off len ivp mdpg ≡ edited (set_at sg off ivp.val ivp.mp_it mdpg)
  unfolding edit_item locate
  edit_item-plain mnp off len ivp mdpg plain =
      ground (arith, plain.no_descriptor, plain.starts_inside)

  still-IsPlain :
      (len : ℕ) (mp mp' : List ℕ)
      → length mp' ≡ length mp
      → (ivp : MpItVal) → IsPlain len mp ivp
      → IsPlain len mp' ivp
  still-IsPlain len mp mp' e ivp plain = record {
    no_descriptor = plain.no_descriptor;
    starts_inside = plain.starts_inside;
    fits = omega (arith, plain.fits, e);
  }

  -- The edits of `rest` after that of `ivp`.
  IsEditOf-cons :
      (off len : ℕ) (ivp : MpItVal) (rest : List MpItVal) (mdpg out : List ℕ)
      → off ≤ length mdpg
      → IsPlain len (drop off mdpg) ivp
      → All (λ other. Apart ivp.mp_it other.mp_it) rest
      → IsEditOf off rest (set_at sg off ivp.val ivp.mp_it mdpg) out
      → IsEditOf off (ivp ∷ rest) mdpg out
  IsEditOf-cons off len ivp rest mdpg out h plain clear later = record {
    same_length = later.same_length ∙ length-set_at off ivp.val ivp.mp_it mdpg;
    same_header = later.same_header ∙ take-append_take off mdpg page' h;
    values = (own, later.values);
    others = λ b fits apart.
        later.others b (fits_edited b fits) apart.1
        ∙ ap (mitem_get_value sg b) page
        ∙ get_value-set_value-Apart sg laws (to_u64 ivp.val) ivp.mp_it b (drop off mdpg) plain.fits
            fits apart.0;
  }
    where
      page' : List ℕ
      page' = mitem_set_value sg (to_u64 ivp.val) ivp.mp_it (drop off mdpg)

      page : drop off (set_at sg off ivp.val ivp.mp_it mdpg) ≡ page'
      page = drop-append_take off mdpg page' h

      fits_edited :
          (b : MpItem)
          → FitsPage b (drop off mdpg)
          → FitsPage b (drop off (set_at sg off ivp.val ivp.mp_it mdpg))
      fits_edited b fits = omega (
        arith,
        fits,
        ap length page,
        length-set_value sg laws (to_u64 ivp.val) ivp.mp_it (drop off mdpg),
      )

      own : mitem_get_value sg ivp.mp_it (drop off out) ≡ to_u64 ivp.val % 2 ^ ivp.mp_it.num_bits
      own =
          later.others ivp.mp_it (fits_edited ivp.mp_it plain.fits)
            (All-map _ _ (λ other apart. omega (arith, apart)) rest clear)
          ∙ ap (mitem_get_value sg ivp.mp_it) page
          ∙ get_value-set_value sg laws (to_u64 ivp.val) ivp.mp_it (drop off mdpg) plain.fits

  edit_items_step :
      (mnp : Option MpName) (off len : ℕ) (ivp : MpItVal) (rest : List MpItVal)
      (mdpg mdpg' : List ℕ)
      → edit_item sg op mnp off len ivp mdpg ≡ edited mdpg'
      → edit_items sg op mnp off len (ivp ∷ rest) mdpg ≡ edit_items sg op mnp off len rest mdpg'
  unfolding edit_items
  edit_items_step mnp off len ivp rest mdpg mdpg' e = rw (edit_items, e) refl

  -- A loop over settings of no descriptor, whose items lie in the page and share no bit, does not
  -- stop. It leaves the length and the header of the mode data; each item then has the low bits of
  -- the value given for it, and every item apart from all of these the value that it had.
  pub edit_items-IsEditOf :
      (mnp : Option MpName) (off len : ℕ) (its : List MpItVal) (mdpg : List ℕ)
      → off ≤ length mdpg
      → All (IsPlain len (drop off mdpg)) its
      → AllApart its
      → (out : List ℕ) × (edit_items sg op mnp off len its mdpg ≡ edited out)
        × IsEditOf off its mdpg out
  unfolding edit_items
  edit_items-IsEditOf mnp off len [] mdpg h plain apart = (
    mdpg,
    refl,
    record { same_length = refl; same_header = refl; values = tt; others = λ b fits all. refl },
  )
  edit_items-IsEditOf mnp off len (ivp ∷ rest) mdpg h plain apart =
      let mdpg' = set_at sg off ivp.val ivp.mp_it mdpg in
      let same : length (drop off mdpg') ≡ length (drop off mdpg) = omega (
        arith,
        length-drop off mdpg',
        length-drop off mdpg,
        length-set_at off ivp.val ivp.mp_it mdpg,
      ) in
      let (out, e, later) =
        edit_items-IsEditOf mnp off len rest mdpg'
          (omega (arith, length-set_at off ivp.val ivp.mp_it mdpg))
          (All-map _ _ (still-IsPlain len (drop off mdpg) (drop off mdpg') same) rest plain.1)
          apart.1 in
      (
        out,
        edit_items_step mnp off len ivp rest mdpg mdpg'
              (edit_item-plain mnp off len ivp mdpg plain.0)
            ∙ e,
        IsEditOf-cons off len ivp rest mdpg out h plain.0 apart.0 later,
      )
