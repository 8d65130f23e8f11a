-- ===== src/Descriptor/Adjust.antt =====
-- How desc_adjust_start_byte moves an item from one descriptor to the next.
use sdparm.Prelude.{
  ℕ, zero, suc, ◌+◌, ◌-◌, ◌*◌, ◌<◌, ◌≤◌, ◌≡◌, refl, ◌∙◌, Bool, List, arith, drop, if◌then◌else◌,
  Bool-cases, inl, inr, true, false, leb,
}
use sdparm.Prelude.Int.{pos, ltb_ℤ, pos_part}
use sdparm.SgLib.{SgLib}
use sdparm.Tables.Types.{MpItem, Descriptor}
use sdparm.Descriptor.{Adjusted, moved, refused, place_at, walk_to, desc_adjust_start_byte}

place_at-moved :
    (start_byte rep_len : ℕ) (mpip out : MpItem)
    → place_at start_byte rep_len mpip ≡ moved out
    → (out ≡ record mpip { start_byte = start_byte }) × (start_byte < rep_len)
place_at-moved start_byte rep_len mpip out h =
    let inside : start_byte < rep_len = ground arith in
    let e : out ≡ record mpip { start_byte = start_byte } = ground arith in (e, inside)

place_at-inside :
    (start_byte rep_len : ℕ) (mpip : MpItem)
    → start_byte < rep_len
    → place_at start_byte rep_len mpip ≡ moved (record mpip { start_byte = start_byte })
place_at-inside start_byte rep_len mpip h = ground (arith, h)

module _ (sg : SgLib) where
  -- The bytes of the descriptor that begins at `d_off`: they are as many as the template says, or
  -- the ones up to and with its length field and the number that this field has.
  abbrev pub desc_size : Descriptor → List ℕ → ℕ → ℕ
  desc_size mdp cur_mp d_off =
      if ltb_ℤ (pos 0) mdp.desc_len
      then pos_part mdp.desc_len
      else pos_part mdp.desc_len_off
        + pos_part mdp.desc_len_bytes
        + sg.get_big_endian (drop (d_off + pos_part mdp.desc_len_off) cur_mp) 7
            (pos_part mdp.desc_len_bytes * 8)

  -- `out'` is `out` a descriptor further on, that descriptor beginning as far in front of it as
  -- the first one in front of `mpip`.
  abbrev pub IsNext : Descriptor → List ℕ → MpItem → MpItem → MpItem → Type 0
  IsNext mdp cur_mp mpip out out' = out' ≡ record out {
    start_byte =
        out.start_byte
        + desc_size mdp cur_mp (out.start_byte + mdp.first_desc_off - mpip.start_byte);
  }

  -- Of descriptor 0 the item stays where it is. Of another one it is moved from where it is in the
  -- descriptor in front of that, which is on the page too.
  abbrev pub Follows : Descriptor → List ℕ → ℕ → MpItem → ℕ → MpItem → Type 0
  Follows mdp cur_mp rep_len mpip zero out' = out' ≡ mpip
  Follows mdp cur_mp rep_len mpip (suc n) out' =
      (out : MpItem) × (desc_adjust_start_byte sg n mdp cur_mp rep_len mpip ≡ moved out)
      × IsNext mdp cur_mp mpip out out'

  -- What comes behind the guards.
  abbrev adjusted : ℕ → Descriptor → List ℕ → ℕ → MpItem → Adjusted
  adjusted n mdp cur_mp rep_len mpip =
      if ltb_ℤ (pos 0) mdp.desc_len
      then place_at (mpip.start_byte + pos_part mdp.desc_len * n) rep_len mpip
      else if ltb_ℤ (pos 0) mdp.desc_len_off
      then walk_to sg n mdp cur_mp rep_len mdp.first_desc_off mpip
      else refused

  unguarded :
      (n : ℕ) (mdp : Descriptor) (cur_mp : List ℕ) (rep_len : ℕ) (mpip out : MpItem)
      → desc_adjust_start_byte sg n mdp cur_mp rep_len mpip ≡ moved out
      → adjusted n mdp cur_mp rep_len mpip ≡ moved out
  unfolding desc_adjust_start_byte
  unguarded n mdp cur_mp rep_len mpip out h = ground (arith, h)

  -- The guards that let a descriptor pass let the one in front of it pass.
  unguarded_before :
      (n : ℕ) (mdp : Descriptor) (cur_mp : List ℕ) (rep_len : ℕ) (mpip out : MpItem)
      → desc_adjust_start_byte sg (suc n) mdp cur_mp rep_len mpip ≡ moved out
      → desc_adjust_start_byte sg n mdp cur_mp rep_len mpip ≡ adjusted n mdp cur_mp rep_len mpip
  unfolding desc_adjust_start_byte
  unguarded_before n mdp cur_mp rep_len mpip out h = ground (arith, h)

  module _ (mdp : Descriptor) (cur_mp : List ℕ) (rep_len : ℕ) (mpip : MpItem)
      (behind : mdp.first_desc_off ≤ mpip.start_byte) where
    place_at-step :
        (n : ℕ) (out' : MpItem)
        → ltb_ℤ (pos 0) mdp.desc_len ≡ true
        → place_at (mpip.start_byte + pos_part mdp.desc_len * suc n) rep_len mpip ≡ moved out'
        → (out : MpItem) × (place_at (mpip.start_byte + pos_part mdp.desc_len * n) rep_len mpip
            ≡ moved out)
          × IsNext mdp cur_mp mpip out out'
    place_at-step n out' fixed h =
        let start = mpip.start_byte + pos_part mdp.desc_len * n in
        let placed = place_at-moved _ rep_len mpip out' h in
        let further : mpip.start_byte + pos_part mdp.desc_len * suc n
            ≡ start + pos_part mdp.desc_len =
          omega arith in
        (
          record mpip { start_byte = start },
          place_at-inside start rep_len mpip (omega (arith, placed.1, further)),
          rw (fixed, placed.0, further) refl,
        )

    walk_to-step :
        (n d_off : ℕ) (out' : MpItem)
        → ltb_ℤ (pos 0) mdp.desc_len ≡ false
        → walk_to sg (suc n) mdp cur_mp rep_len d_off mpip ≡ moved out'
        → (out : MpItem) × (walk_to sg n mdp cur_mp rep_len d_off mpip ≡ moved out)
          × IsNext mdp cur_mp mpip out out'
    unfolding walk_to
    walk_to-step zero d_off out' varies h =
        let size =
          pos_part mdp.desc_len_off
          + pos_part mdp.desc_len_bytes
          + sg.get_big_endian (drop (d_off + pos_part mdp.desc_len_off) cur_mp) 7
              (pos_part mdp.desc_len_bytes * 8) in
        let start = d_off + mpip.start_byte - mdp.first_desc_off in
        let inner : place_at (d_off + size + mpip.start_byte - mdp.first_desc_off) rep_len mpip
            ≡ moved out' =
          ground (arith, h) in
        let placed = place_at-moved _ rep_len mpip out' inner in
        let further : d_off + size + mpip.start_byte - mdp.first_desc_off ≡ start + size =
          omega arith in
        let back : start + mdp.first_desc_off - mpip.start_byte ≡ d_off = omega arith in
        (
          record mpip { start_byte = start },
          place_at-inside start rep_len mpip (omega (arith, placed.1, further)),
          rw (varies, back, placed.0, further) refl,
        )
    walk_to-step (suc n) d_off out' varies h =
        let size =
          pos_part mdp.desc_len_off
          + pos_part mdp.desc_len_bytes
          + sg.get_big_endian (drop (d_off + pos_part mdp.desc_len_off) cur_mp) 7
              (pos_part mdp.desc_len_bytes * 8) in
        elim (Bool-cases (leb rep_len (d_off + size))) [
          | inl outside ↦ absurd (out_of_page _ _ outside h)
          | inr inside ↦ rw inside (walk_to-step n (d_off + size) out' varies (rw inside at h))
        ]
      where
        out_of_page :
            (b : Bool) (x : Adjusted) → b ≡ true → (if b then refused else x) ≡ moved out' → ⊥
        out_of_page true x e h = cc
        out_of_page false x e h = cc

    adjusted-step :
        (n : ℕ) (out' : MpItem)
        → adjusted (suc n) mdp cur_mp rep_len mpip ≡ moved out'
        → (out : MpItem) × (adjusted n mdp cur_mp rep_len mpip ≡ moved out)
          × IsNext mdp cur_mp mpip out out'
    adjusted-step n out' h = elim (Bool-cases (ltb_ℤ (pos 0) mdp.desc_len)) [
      | inl fixed ↦ let s = place_at-step n out' fixed (rw fixed at h) in (s.0, rw fixed s.1, s.2)
      | inr varies ↦ elim (Bool-cases (ltb_ℤ (pos 0) mdp.desc_len_off)) [
        | inl walked ↦
            let s = walk_to-step n mdp.first_desc_off out' varies (rw (varies, walked) at h) in
            (s.0, rw (varies, walked) s.1, s.2)
        | inr neither ↦ absurd (ground (arith, h, varies, neither))
      ]
    ]

    adjusted_first :
        (out' : MpItem) → adjusted zero mdp cur_mp rep_len mpip ≡ moved out' → out' ≡ mpip
    unfolding walk_to
    adjusted_first out' h =
        let same : mpip.start_byte + pos_part mdp.desc_len * 0 ≡ mpip.start_byte = omega arith in
        let back : mdp.first_desc_off + mpip.start_byte - mdp.first_desc_off ≡ mpip.start_byte =
          omega arith in
        elim (Bool-cases (ltb_ℤ (pos 0) mdp.desc_len)) [
          | inl fixed ↦ unmoved _ same (rw fixed at h)
          | inr varies ↦ elim (Bool-cases (ltb_ℤ (pos 0) mdp.desc_len_off)) [
            | inl walked ↦ unmoved _ back (rw (varies, walked) at h)
            | inr neither ↦ absurd (ground (arith, h, varies, neither))
          ]
        ]
      where
        unmoved : (x : ℕ) → x ≡ mpip.start_byte → place_at x rep_len mpip ≡ moved out' → out' ≡ mpip
        unmoved x e h = rw ((place_at-moved x rep_len mpip out' h).0, e) refl

    -- An item that begins where the first descriptor does or behind that stays where it is for
    -- descriptor 0. If `desc_adjust_start_byte` finds it for another descriptor then it is found for the
    -- one in front of that too, and stands as many bytes behind its place there as that descriptor
    -- has, be they of one length or each with a length of its own; the rest of it is kept.
    pub desc_adjust_start_byte-Follows :
        (desc_num : ℕ) (out' : MpItem)
        → desc_adjust_start_byte sg desc_num mdp cur_mp rep_len mpip ≡ moved out'
        → Follows mdp cur_mp rep_len mpip desc_num out'
    desc_adjust_start_byte-Follows zero out' h =
        adjusted_first out' (unguarded zero mdp cur_mp rep_len mpip out' h)
    desc_adjust_start_byte-Follows (suc n) out' h =
        let s = adjusted-step n out' (unguarded (suc n) mdp cur_mp rep_len mpip out' h) in
        (s.0, unguarded_before n mdp cur_mp rep_len mpip out' h ∙ s.1, s.2)
