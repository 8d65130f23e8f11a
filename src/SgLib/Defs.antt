-- ===== src/SgLib/Defs.antt =====
-- The interface of the sg3_utils library, with its laws.
use sdparm.Prelude.{
  ℕ, ◌+◌, ◌-◌, ◌*◌, ◌/◌, ◌%◌, ◌^◌, ◌≤◌, ◌<◌, Bool, List, ◌∷◌, ◌≡◌, ◌⊎◌, length, if◌then◌else◌,
}
use sdparm.Prelude.Int.{ℤ, pos, negsuc}
use sdparm.SgLib.Bits.{bit_at, bits_value}

pub record SgLib : Type 0 where
  -- sg_pdt_s_eq and sg_lib_pdt_decay, on (compound) peripheral device types
  pub pdt_s_eq : ℤ → ℤ → Bool
  pub pdt_decay : ℤ → ℤ
  -- sg_get_pdt_from_acronym: below -1 if there is none, -3 if a list of them was asked for
  pub get_pdt_from_acronym : List ℕ → ℤ
  -- sg_get_big_endian from start_bit num_bits, sg_set_big_endian val to start_bit num_bits
  pub get_big_endian : List ℕ → ℕ → ℕ → ℕ
  pub set_big_endian : ℕ → List ℕ → ℕ → ℕ → List ℕ
  -- sg_get_unaligned_be16
  pub get_unaligned_be16 : List ℕ → ℕ
  -- and the like of 4 and 8 bytes
  pub get_unaligned_be32 : List ℕ → ℕ
  pub get_unaligned_be64 : List ℕ → ℕ
  -- sg_vpd_dev_id_iter of some designation descriptors, the last offset, and the association, type
  -- and code set asked for: what it returns and the next offset.
  pub vpd_dev_id_iter : List ℕ → ℤ → ℤ → ℤ → ℤ → ℤ × ℤ
  -- sg_get_llnum_nomult and sg_get_num_nomult: the number that a text holds, or -1
  pub get_llnum_nomult : List ℕ → ℤ
  pub get_num_nomult : List ℕ → ℤ
  -- sg_get_sense_progress_fld of sense data and its length: the progress, or below 0 if it returns
  -- false
  pub get_sense_progress_fld : List ℕ → ℕ → ℤ
  -- sg_mode_page_offset of a response, its length and whether MODE SENSE (6) gave it
  pub mode_page_offset : List ℕ → ℕ → Bool → ℤ

-- A field of `num_bits` bits from bit `start_bit` of the first byte on lies in the bytes.
abbrev pub Fits : List ℕ → ℕ → ℕ → Type 0
Fits bs start_bit num_bits =
    (start_bit ≤ 7) × (1 ≤ num_bits) × (num_bits ≤ 64) × (7 - start_bit + num_bits ≤ 8 * length bs)

-- What a search for the next descriptor behind one at `off` starts from.
abbrev pub next_from : ℤ → ℕ
next_from (pos n) = n + 1
next_from (negsuc n) = 0

-- The bits of a byte string are counted from the most significant bit of its first byte on.
pub record SgLibLaws (sg : SgLib) : Type 0 where
  -- "starts at a given start_bit (i.e. within byte, so 7 is MSbit of byte and 0 is LSbit)"
  pub get_field :
      (bs : List ℕ) (start_bit num_bits : ℕ)
      → Fits bs start_bit num_bits
      → sg.get_big_endian bs start_bit num_bits ≡ bits_value (bit_at bs) (7 - start_bit) num_bits
  pub set_length :
      (v : ℕ) (bs : List ℕ) (start_bit num_bits : ℕ)
      → length (sg.set_big_endian v bs start_bit num_bits) ≡ length bs
  -- the field holds the low bits of the value
  pub set_inside :
      (v : ℕ) (bs : List ℕ) (start_bit num_bits : ℕ)
      → Fits bs start_bit num_bits
      → (j : ℕ) → j < num_bits
      → bit_at (sg.set_big_endian v bs start_bit num_bits) (7 - start_bit + j)
        ≡ v / 2 ^ (num_bits - 1 - j) % 2
  -- "Preserves residual bits in partially written bytes."
  pub set_outside :
      (v : ℕ) (bs : List ℕ) (start_bit num_bits : ℕ)
      → Fits bs start_bit num_bits
      → (i : ℕ) → ((i < 7 - start_bit) ⊎ (7 - start_bit + num_bits ≤ i))
      → bit_at (sg.set_big_endian v bs start_bit num_bits) i ≡ bit_at bs i
  -- "a response that has header then zero or more block descriptors followed by mode pages":
  -- the header has 4 or 8 bytes
  pub offset_behind_header :
      (resp : List ℕ) (resp_len : ℕ) (mode6 : Bool) (off : ℕ)
      → sg.mode_page_offset resp resp_len mode6 ≡ pos off
      → (if mode6 then 4 else 8) ≤ off
  -- "decaying to": PDT_ADC to PDT_TAPE, PDT_ZBC to PDT_DISK; a decayed type stays.
  pub decay_once : (pdt : ℤ) → sg.pdt_decay (sg.pdt_decay pdt) ≡ sg.pdt_decay pdt
  -- "big endian": the first byte has the most weight.
  pub be16_value :
      (high low : ℕ) (bs : List ℕ) → sg.get_unaligned_be16 (high ∷ low ∷ bs) ≡ high * 256 + low
  -- "Iterates to next designation descriptor", "If 0 returned then 'initial_desig_desc + *off'
  -- should be a valid descriptor": one whose header of 4 bytes is there.
  pub dev_id_valid :
      (buff : List ℕ) (off m_assoc m_desig_type m_code_set off' : ℤ)
      → sg.vpd_dev_id_iter buff off m_assoc m_desig_type m_code_set ≡ (pos 0, off')
      → (o : ℕ) × (off' ≡ pos o) × (next_from off ≤ o) × (o + 4 ≤ length buff)
