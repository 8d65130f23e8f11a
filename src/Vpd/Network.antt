-- ===== src/Vpd/Network.antt =====
-- decode_man_net_vpd of src/sdparm_vpd.c: management network addresses, which are URLs.
use sdparm.Vpd.{
  ended, short_descriptor, Round, row, last, Decoded, byte, be16, checked, ◌>>=◌, decode,
}
use sdparm.Vpd.Walk.{take-append, bytes_of, decode-bytes_of}
use sdparm.Prelude.{
  ℕ, ◌+◌, ◌*◌, ◌/◌, ◌%◌, ◌<◌, Bool, true, false, Option, none, some, List, [], ◌∷◌, ◌++◌, ◌≡◌, refl,
  ap, map, ◌∙◌, length-append, arith, length, take, drop, replicate, All, leb, ltb, ◌==◌,
  if◌then◌else◌,
}
use sdparm.SgLib.{SgLib, SgLibLaws}

pub record NetAddr : Type 0 where
  pub association : ℕ
  pub service_type : ℕ
  pub network_address : List ℕ

-- What `%s` prints: the text up to the zero byte that ends it.
unfoldable pub c_string : List ℕ → Option (List ℕ)
c_string [] = none
c_string (c ∷ bp) =
    let rest = c_string bp in if c == 0 then some [] else (do s ← rest; some (c ∷ s))

-- With -H given twice, `na_len` bytes are printed, otherwise a string.
unfoldable pub shown_addr : Bool → List ℕ → ℕ → Option (List ℕ)
unfolding c_string
shown_addr hex bp na_len =
    if na_len == 0
    then some []
    else if hex
    then (if leb na_len (length bp) then some (take na_len bp) else none)
    else c_string bp

abbrev net_addr : ℕ → List ℕ → NetAddr
net_addr b0 addr = record {
  association = b0 / 32 % 4;
  service_type = b0 % 32;
  network_address = addr;
}

abbrev room_check : List ℕ → ℕ → NetAddr → Round NetAddr
room_check bp bump net =
    if ltb (length bp) bump then last (net ∷ []) short_descriptor else row net bump

unfoldable pub man_net_round : SgLib → Bool → List ℕ → Round NetAddr
unfolding shown_addr
man_net_round sg hex bp = checked do
  b0 ← byte bp 0
  na_len ← be16 sg bp 2
  addr ← shown_addr hex (drop 4 bp) na_len
  some (room_check bp (4 + na_len) (net_addr b0 addr))

unfoldable pub decode_man_net_vpd : SgLib → Bool → List ℕ → Decoded NetAddr
unfolding man_net_round
decode_man_net_vpd sg hex buff = decode 4 4 (man_net_round sg hex) buff

-- A network address as SCSI lays it out: none, or a text with a zero byte behind it and more of
-- them as padding.
pub data Addr : Type 0 where
  no_addr : Addr
  url : List ℕ → ℕ → Addr

unfoldable pub addr_bytes : Addr → List ℕ
addr_bytes no_addr = []
addr_bytes (url s padding) = s ++ (0 ∷ replicate padding 0)

abbrev pub IsText : Addr → Type 0
IsText no_addr = Unit {0}
IsText (url s padding) = All (λ c. (c == 0) ≡ false) s

unfoldable pub addr_text : Addr → List ℕ
addr_text no_addr = []
addr_text (url s padding) = s

pub record Service : Type 0 where
  pub kind : ℕ
  pub number : ℕ
  pub addr : Addr

abbrev pub IsService : Service → Type 0
IsService d = (d.kind < 4) × (d.number < 32) × IsText d.addr × (length (addr_bytes d.addr) < 65536)

unfoldable pub layout : Service → List ℕ
layout d =
    let n = length (addr_bytes d.addr) in
    (d.kind * 32 + d.number) ∷ (0 ∷ (n / 256 ∷ (n % 256 ∷ addr_bytes d.addr)))

-- What is shown of it, with -H or without.
unfoldable pub shown_service : Bool → Service → NetAddr
shown_service hex d = record {
  association = d.kind;
  service_type = d.number;
  network_address = if hex then addr_bytes d.addr else addr_text d.addr;
}

c_string-append :
    (s pad rest : List ℕ)
    → All (λ c. (c == 0) ≡ false) s
    → c_string ((s ++ (0 ∷ pad)) ++ rest) ≡ some s
unfolding c_string
c_string-append [] pad rest h = ground arith
c_string-append (c ∷ s) pad rest h = rw (c_string-append s pad rest h.1, h.0) refl

not_empty : (s : List ℕ) (padding : ℕ) → (length (s ++ (0 ∷ replicate padding 0)) == 0) ≡ false
not_empty [] padding = ground arith
not_empty (c ∷ s) padding = ground arith

room : (xs rest : List ℕ) → leb (length xs) (length (xs ++ rest)) ≡ true
room xs rest = ground (arith, length-append xs rest)

shown_addr-text :
    (hex : Bool) (a : Addr) (rest : List ℕ)
    → IsText a
    → shown_addr hex (addr_bytes a ++ rest) (length (addr_bytes a))
      ≡ some (if hex then addr_bytes a else addr_text a)
unfolding shown_addr addr_bytes addr_text
shown_addr-text true no_addr rest h = refl
shown_addr-text false no_addr rest h = refl
shown_addr-text true (url s padding) rest h =
    let xs = s ++ (0 ∷ replicate padding 0) in
    rw (not_empty s padding, room xs rest) (ap some (take-append xs rest))
shown_addr-text false (url s padding) rest h =
    rw (not_empty s padding) (c_string-append s (replicate padding 0) rest h)

kind_of : (k n : ℕ) → k < 4 → n < 32 → ((k * 32 + n) / 32 % 4 ≡ k) × ((k * 32 + n) % 32 ≡ n)
kind_of k n hk hn = (omega arith, omega arith)

man_net_round-layout :
    (sg : SgLib) (laws : SgLibLaws sg) (hex : Bool) (d : Service) (rest : List ℕ)
    → IsService d
    → man_net_round sg hex (layout d ++ rest) ≡ row (shown_service hex d) (length (layout d))
unfolding man_net_round layout shown_service
man_net_round-layout sg laws hex d rest h =
    let n = length (addr_bytes d.addr) in
    let len : sg.get_unaligned_be16 (n / 256 ∷ (n % 256 ∷ (addr_bytes d.addr ++ rest))) ≡ n =
      laws.be16_value (n / 256) (n % 256) (addr_bytes d.addr ++ rest) ∙ omega arith in
    let fits : ltb (length (layout d ++ rest)) (4 + n) ≡ false =
      ground (arith, length-append (addr_bytes d.addr) rest) in
    let k = kind_of d.kind d.number h.0 h.1 in
    let bump : 4 + n ≡ length (layout d) = omega arith in
    rw (len, shown_addr-text hex d.addr rest h.2, fits, k.0, k.1)
      (ap (row (shown_service hex d)) bump)

-- The decoder of management network addresses reads a page of network services back: the
-- association, the service type and the address of each, which is its text, or all of its bytes
-- with -H given twice. The services are laid out as SCSI has it: an address is empty or a text
-- that a zero byte ends, and has less than 2 ^ 16 bytes.
pub decode_man_net_vpd-layout :
    (sg : SgLib) (laws : SgLibLaws sg) (hex : Bool) (header : List ℕ) (ds : List Service)
    → length header ≡ 4
    → All IsService ds
    → decode_man_net_vpd sg hex (header ++ bytes_of layout ds) ≡ (map (shown_service hex) ds, ended)
unfolding decode_man_net_vpd
decode_man_net_vpd-layout sg laws hex header ds h v =
    decode-bytes_of layout (shown_service hex) (man_net_round sg hex) IsService
      (λ d. unfold layout in omega arith) (man_net_round-layout sg laws hex) header ds h v
