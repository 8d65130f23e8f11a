-- ===== src/Vpd.antt =====
-- How src/sdparm_vpd.c walks through the descriptors of a VPD page: what the decoders share. A
-- page is the list of the bytes that the device returned, and `bp` what is left of it, so that
-- `k + bump > len` compares `bump` with the length of `bp`. A read behind the page is an outcome.
pub mod Reads
pub mod Walk
pub mod OverRead
pub mod Stride
pub mod Checked
pub mod Network
pub mod Ports
pub mod PortLayout
pub mod ScsiPorts
pub mod Designators
pub mod Quiet
pub mod QuietKeeps
pub mod QuietWhole
use sdparm.Prelude.{
  ℕ, zero, suc, ◌+◌, Bool, true, false, Option, none, some, List, [], ◌∷◌, ◌++◌, get_elem?, length,
  drop, ltb, if◌then◌else◌,
}
use sdparm.SgLib.{SgLib}

-- How a decoder ends: at the end of the page, with a message about the length of the page or of a
-- descriptor, with a read behind the page, or out of fuel.
pub data Ending : Type 0 where
  ended : Ending
  short_page : Ending
  short_descriptor : Ending
  over_read : Ending
  out_of_fuel : Ending

-- What one round of a decoder's loop comes to: a descriptor and the step to the next one, or what
-- was printed of the descriptor and the end.
pub data Round (A : Type 0) : Type 0 where
  row : A → ℕ → Round A
  last : List A → Ending → Round A

-- What a decoder prints, and how it ends.
abbrev pub Decoded : Type 0 → Type 0
Decoded A = List A × Ending

infixl 5 ◌>>=◌
abbrev pub ◌>>=◌ : {A B : Type 0} → Option A → (A → Option B) → Option B
none >>= f = none
some a >>= f = f a

-- `n` bytes are left.
abbrev pub has : ℕ → List ℕ → Bool
has zero bp = true
has (suc n) [] = false
has (suc n) (b ∷ bp) = has n bp

-- bp[i]
abbrev pub byte : List ℕ → ℕ → Option ℕ
byte bp i = get_elem? bp i

-- A read of `n` bytes from bp + i on.
abbrev pub word : (List ℕ → ℕ) → ℕ → List ℕ → ℕ → Option ℕ
word get n bp i = if has (i + n) bp then some (get (drop i bp)) else none

abbrev pub be16 : SgLib → List ℕ → ℕ → Option ℕ
be16 sg bp i = word sg.get_unaligned_be16 2 bp i

abbrev pub be32 : SgLib → List ℕ → ℕ → Option ℕ
be32 sg bp i = word sg.get_unaligned_be32 4 bp i

abbrev pub be64 : SgLib → List ℕ → ℕ → Option ℕ
be64 sg bp i = word sg.get_unaligned_be64 8 bp i

-- A round whose reads may go wrong.
abbrev pub checked : {A : Type 0} → Option (Round A) → Round A
checked none = last [] over_read
checked (some r) = r

abbrev pub after : {A : Type 0} → Round A → (ℕ → Decoded A) → Decoded A
after (row a bump) next = let rest = next bump in (a ∷ rest.0, rest.1)
after (last rows e) next = (rows, e)

-- `for (k = 0; k < len; k += bump, bp += bump)`
unfoldable pub each : {A : Type 0} → (List ℕ → Round A) → List ℕ → ℕ → Decoded A
each f [] fuel = ([], ended)
each f (b ∷ bp) zero = ([], out_of_fuel)
each f (b ∷ bp) (suc fuel) = after (f (b ∷ bp)) (λ bump. each f (drop bump (b ∷ bp)) fuel)

-- The loop behind a header of `header` bytes of a page that must have `least` bytes.
abbrev pub decode : {A : Type 0} → ℕ → ℕ → (List ℕ → Round A) → List ℕ → Decoded A
decode least header f buff =
    if ltb (length buff) least
    then ([], short_page)
    else let bp = drop header buff in each f bp (length bp)
