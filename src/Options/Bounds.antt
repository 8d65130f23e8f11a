-- ===== src/Options/Bounds.antt =====
-- What the options are like behind the command line.
use sdparm.Prelude.{
  ℕ, ◌≤◌, ◌<◌, ◌⊎◌, inl, inr, Bool, true, false, Option, none, some, List, ◌≡◌, refl, arith, length,
  leb, leb→le, ltb, ltb→lt, ◌==◌, Option-cases, if◌then◌else◌,
}
use sdparm.Prelude.Int.{ℤ, pos, negsuc, is_neg, ltb_ℤ, ◌==ℤ◌, pos_part}
use sdparm.Prelude.Text.{codes, is_alpha, is_digit}
use sdparm.Prelude.Find.{first_match, first_match-All, all, all-All}
use sdparm.SgLib.{SgLib}
use sdparm.Strings.{strcase_eq}
use sdparm.Tables.Types.{VendorName, ValDesc, TablePair}
use sdparm.Tables.Registry.{vendor_mp, vendor_ids, transport_id, add_transport_acron}
use sdparm.Lookup.{find_transport_id_by_acron, find_vendor_by_acron, get_vendor_pair}
use sdparm.Settings.Text.{split_at}
use sdparm.Options.Cases.{OptColl}
use sdparm.Options.Parse.{
  Step, next, return_0, syntax_error, contradict, ok_false, then_step, once, starts, out_of_range,
  named_vendor, numbered_vendor, vendor_option, transport_option, in_mask_part, out_mask_part,
  pdt_option, arg_option,
}

-- A number up to a bound, or -1.
abbrev pub UpTo : ℕ → ℤ → Type 0
UpTo high z = (z ≡ negsuc 0) ⊎ ((n : ℕ) × (z ≡ pos n) × (n ≤ high))

-- The number of a row of sdparm_vendor_mp, which may be one without tables, or -1.
abbrev pub IsVendor : ℤ → Type 0
IsVendor z = (z ≡ negsuc 0) ⊎ ((n : ℕ) × (z ≡ pos n) × (n < length vendor_mp))

-- A transport protocol and the masks have 4 bits, a vendor is the number of a row, the device is
-- opened for writing if there is something to write, and the array of device names has room.
abbrev pub IsValid : OptColl → Type 0
IsValid op =
    UpTo 15 op.transport
    × IsVendor op.vendor_id
    × (op.out_mask ≤ 15)
    × (op.in_mask ≤ 15)
    × (((op.set_str ≡ none) × (op.clear_str ≡ none)) ⊎ ((op.do_rw ≡ true) × (op.set_clear ≡ true)))
    × ((op.defaults ≡ 0) ⊎ (op.do_rw ≡ true))
    × (length op.devices ≤ 256)

-- What the options are in, if there is no error.
abbrev pub OfOptions : (OptColl → Type 0) → Step → Type 0
OfOptions P (next op) = P op
OfOptions P (return_0 op) = P op
OfOptions P syntax_error = Unit {0}
OfOptions P contradict = Unit {0}
OfOptions P ok_false = Unit {0}

pub then_step-IsValid :
    (s : Step) (more : OptColl → Step)
    → OfOptions IsValid s
    → ((op : OptColl) → IsValid op → OfOptions IsValid (more op))
    → OfOptions IsValid (then_step s more)
then_step-IsValid (next op) more h k = k op h
then_step-IsValid (return_0 op) more h k = h
then_step-IsValid syntax_error more h k = tt
then_step-IsValid contradict more h k = tt
then_step-IsValid ok_false more h k = tt

-- A test keeps the options valid if its two outcomes do.
pub either_IsValid :
    (b : Bool) (x y : Step)
    → OfOptions IsValid x
    → (b ≡ false → OfOptions IsValid y)
    → OfOptions IsValid (if b then x else y)
either_IsValid true x y hx hy = hx
either_IsValid false x y hx hy = hy refl

upto_range :
    (z : ℤ) (high : ℕ) → out_of_range z (pos 0) high ≡ false → (n : ℕ) × (z ≡ pos n) × (n ≤ high)
upto_range (pos n) high h = (n, refl, ground (arith, h))
upto_range (negsuc n) high h = absurd (ground (arith, h))

mask_range : (z : ℤ) → out_of_range z (pos 0) 15 ≡ false → pos_part z ≤ 15
mask_range z h = ground (arith, h)

transport_rows :
    (all (λ t. leb t.val 15) transport_id ≡ true)
    × (all (λ t. leb t.val 15) add_transport_acron ≡ true)
unfolding all transport_id add_transport_acron
transport_rows = (refl, refl)

vendor_rows : all (λ v. ltb v.vendor_id (length vendor_mp)) vendor_ids ≡ true
unfolding all vendor_ids vendor_mp
vendor_rows = refl

first_match-UpTo :
    (arg : List ℕ) (rows : List ValDesc) (t : ValDesc)
    → all (λ t. leb t.val 15) rows ≡ true
    → first_match (λ t. strcase_eq (codes t.desc) arg) rows ≡ some t
    → UpTo 15 (pos t.val)
first_match-UpTo arg rows t h e =
    let low : leb t.val 15 ≡ true =
      first_match-All (λ t. leb t.val 15 ≡ true) (λ t. strcase_eq (codes t.desc) arg) rows t
        (all-All (λ t. leb t.val 15) rows h) e in
    inr (t.val, refl, leb→le t.val 15 low)

find_transport_id_by_acron-UpTo : (arg : List ℕ) → UpTo 15 (find_transport_id_by_acron arg)
unfolding find_transport_id_by_acron
find_transport_id_by_acron-UpTo arg =
    elim (Option-cases (first_match (λ t. strcase_eq (codes t.desc) arg) transport_id)) [
      | inr (t, e) ↦
          rw (find_transport_id_by_acron, e)
            (first_match-UpTo arg transport_id t transport_rows.0 e)
      | inl nothing ↦
          elim (Option-cases
            (first_match (λ t. strcase_eq (codes t.desc) arg) add_transport_acron)) [
              | inr (t, e) ↦
                  rw (find_transport_id_by_acron, nothing, e)
                    (first_match-UpTo arg add_transport_acron t transport_rows.1 e)
              | inl neither ↦ rw (find_transport_id_by_acron, nothing, neither) (inl refl)
            ]
    ]

find_vendor_by_acron-IsVendor :
    (arg : List ℕ) (v : VendorName) → find_vendor_by_acron arg ≡ some v → IsVendor (pos v.vendor_id)
unfolding find_vendor_by_acron
find_vendor_by_acron-IsVendor arg v e =
    let low : ltb v.vendor_id (length vendor_mp) ≡ true =
      first_match-All (λ v. ltb v.vendor_id (length vendor_mp) ≡ true) _ vendor_ids v
        (all-All (λ v. ltb v.vendor_id (length vendor_mp)) vendor_ids vendor_rows) e in
    inr (v.vendor_id, refl, ltb→lt v.vendor_id (length vendor_mp) low)

get_vendor_pair-IsVendor : (z : ℤ) (svpp : TablePair) → get_vendor_pair z ≡ some svpp → IsVendor z
unfolding get_vendor_pair
get_vendor_pair-IsVendor (negsuc n) svpp h = absurd (ground (arith, h))
get_vendor_pair-IsVendor (pos n) svpp h = inr (n, refl, ground (arith, h))

module _ (sg : SgLib) (arg : List ℕ) (op : OptColl) (v : IsValid op) where
  named_vendor-IsValid :
      (o : Option VendorName) → find_vendor_by_acron arg ≡ o → OfOptions IsValid (named_vendor op o)
  named_vendor-IsValid none e = tt
  named_vendor-IsValid (some vnp) e =
      (v.0, find_vendor_by_acron-IsVendor arg vnp e, v.2, v.3, v.4, v.5, v.6)

  numbered_vendor-IsValid :
      (z : ℤ) (o : Option TablePair)
      → get_vendor_pair z ≡ o
      → OfOptions IsValid (numbered_vendor op z o)
  numbered_vendor-IsValid z none e = tt
  numbered_vendor-IsValid z (some svpp) e =
      (v.0, get_vendor_pair-IsVendor z svpp e, v.2, v.3, v.4, v.5, v.6)

  vendor_option-IsValid : OfOptions IsValid (vendor_option sg arg op)
  unfolding vendor_option
  vendor_option-IsValid =
      either_IsValid (starts is_alpha arg) _ _
        (named_vendor-IsValid (find_vendor_by_acron arg) refl)
        (λ e. numbered_vendor-IsValid (sg.get_num_nomult arg) _ refl)

  transport_option-IsValid : OfOptions IsValid (transport_option sg arg op)
  unfolding transport_option
  transport_option-IsValid =
      let res = sg.get_num_nomult arg in
      either_IsValid (starts is_alpha arg) _ _
        (either_IsValid (is_neg (find_transport_id_by_acron arg)) _ _ tt
          (λ e. (find_transport_id_by_acron-UpTo arg, v.1, v.2, v.3, v.4, v.5, v.6)))
        (λ e.
          either_IsValid (out_of_range res (pos 0) 15) _ _ tt
            (λ r. (inr (upto_range res 15 r), v.1, v.2, v.3, v.4, v.5, v.6)))

  in_mask_part-IsValid :
      (parts : Option (List ℕ × List ℕ)) → OfOptions IsValid (in_mask_part sg parts op)
  unfolding in_mask_part
  in_mask_part-IsValid none = v
  in_mask_part-IsValid (some (a, b)) =
      let res = sg.get_num_nomult b in
      either_IsValid (out_of_range res (pos 0) 15) _ _ tt
        (λ r. (v.0, v.1, v.2, mask_range res r, v.4, v.5, v.6))

  out_mask_part-IsValid : OfOptions IsValid (out_mask_part sg arg op)
  unfolding out_mask_part
  out_mask_part-IsValid =
      let res = sg.get_num_nomult arg in
      either_IsValid (starts (λ c. c == b',') arg) _ _ v (λ e.
        either_IsValid (out_of_range res (pos 0) 15) _ _ tt
          (λ r. (v.0, v.1, mask_range res r, v.3, v.4, v.5, v.6)))

  pdt_option-IsValid : OfOptions IsValid (pdt_option sg arg op)
  unfolding pdt_option
  pdt_option-IsValid =
      let pdt = sg.get_pdt_from_acronym arg in
      either_IsValid (starts (λ c. c == b'-') arg) _ _ v (λ e.
        either_IsValid (starts is_digit arg) _ _
          (either_IsValid (out_of_range (sg.get_num_nomult arg) (pos 0) 31) _ _ tt (λ r. v))
          (λ d.
            either_IsValid (ltb_ℤ pdt (negsuc 0)) _ _
              (either_IsValid (pdt ==ℤ negsuc 2) _ _ tt (λ o. tt)) (λ k. v)))

  once-IsValid :
      (o : Option (List ℕ)) (x y : Step)
      → OfOptions IsValid x
      → OfOptions IsValid y
      → OfOptions IsValid (once o x y)
  once-IsValid none x y hx hy = hx
  once-IsValid (some s) x y hx hy = hy

module _ (sg : SgLib) where
  pub arg_option-IsValid :
      (c : ℕ) (arg : List ℕ) (op : OptColl)
      → IsValid op
      → OfOptions IsValid (arg_option sg c arg op)
  unfolding arg_option
  arg_option-IsValid c arg op v =
      either_IsValid (c == b'c') _ _ (v.0, v.1, v.2, v.3, inr (refl, refl), inr refl, v.6)
        (λ e. either_IsValid (c == b'C') _ _ v (λ e.
          either_IsValid (c == b'g') _ _ (once-IsValid sg arg op v op.get_str _ _ v tt) (λ e.
            either_IsValid (c == b'I') _ _ v (λ e. either_IsValid (c == b'J') _ _ v (λ e.
              either_IsValid (c == b'M') _ _ (vendor_option-IsValid sg arg op v) (λ e.
                either_IsValid (c == b'o') _ _
                  (then_step-IsValid (in_mask_part sg (split_at b',' arg) op) (out_mask_part sg arg)
                    (in_mask_part-IsValid sg arg op v (split_at b',' arg))
                    (λ op' v'. out_mask_part-IsValid sg arg op' v'))
                  (λ e.
                    either_IsValid (c == b'p') _ _ (once-IsValid sg arg op v op.page_str _ _ v tt)
                      (λ e. either_IsValid (c == b'P') _ _ (pdt_option-IsValid sg arg op v) (λ e.
                        either_IsValid (c == b's') _ _
                          (once-IsValid sg arg op v op.set_str _ _
                            (v.0, v.1, v.2, v.3, inr (refl, refl), inr refl, v.6) tt)
                          (λ e.
                            either_IsValid (c == b't') _ _ (transport_option-IsValid sg arg op v)
                              (λ e. tt)))))))))))
