-- ===== src/Field/Values.antt =====
-- How a value is shown as a signed number.
use sdparm.Prelude.{ℕ, ◌%◌, ◌^◌, ◌⊎◌, inl, inr, ◌≡◌, arith}
use sdparm.Prelude.Bits.{mask_and, flag_and, fields_or, bit_and_comm}
use sdparm.Field.{as_signed, signed_decimal}

-- The widths of which sdp_signed_decimal_str knows.
abbrev pub SignedWidth : ℕ → Type 0
SignedWidth n = (n ≡ 4) ⊎ ((n ≡ 8) ⊎ ((n ≡ 16) ⊎ ((n ≡ 24) ⊎ ((n ≡ 32) ⊎ (n ≡ 64)))))

nibble : (u : ℕ) → signed_decimal u 4 ≡ as_signed 4 u
unfolding signed_decimal
nibble u =
    ground (arith, bit_and_comm u 0xf, mask_and 4 u, flag_and 3 (u % 16), fields_or 4 0xf (u % 16))

three_bytes : (u : ℕ) → signed_decimal u 24 ≡ as_signed 24 u
unfolding signed_decimal
three_bytes u =
    ground (arith, mask_and 24 u, flag_and 23 (u % 2 ^ 24), fields_or 24 0xff (u % 2 ^ 24))

-- At each of these widths `sdp_signed_decimal_str` prints the two's complement value of the low
-- bits of its argument.
signed_decimal_lem : (n u : ℕ) → SignedWidth n → signed_decimal u n ≡ as_signed n u
unfolding signed_decimal
signed_decimal_lem n u (inl e) = rw e (nibble u)
signed_decimal_lem n u (inr (inl e)) = rw e
signed_decimal_lem n u (inr (inr (inl e))) = rw e
signed_decimal_lem n u (inr (inr (inr (inl e)))) = rw e (three_bytes u)
signed_decimal_lem n u (inr (inr (inr (inr (inl e))))) = rw e
signed_decimal_lem n u (inr (inr (inr (inr (inr e))))) = rw e
