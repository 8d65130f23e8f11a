-- ===== src/Vpd/ScsiPorts.antt =====
-- decode_scsi_ports_vpd of src/sdparm_vpd.c: ports with the transport id of the initiator port and
-- the designators of the target port. (Without -H and --quiet.)
use sdparm.Vpd.{ended, short_descriptor, Round, row, last, Decoded, be16, checked, ◌>>=◌, decode}
use sdparm.Vpd.Walk.{take-append, bytes_of, decode-bytes_of}
use sdparm.Vpd.Designators.{Designator, decode_dev_ids}
use sdparm.Vpd.Reads.{word_inside}
use sdparm.Prelude.{
  ℕ, suc, ◌+◌, ◌/◌, ◌%◌, ◌<◌, false, Option, some, List, [], ◌∷◌, ◌++◌, ◌≡◌, refl, ap, map, ◌∙◌,
  length-append, arith, length, take, drop, All, ltb, ◌==◌, if◌then◌else◌,
}
use sdparm.Prelude.Int.{pos, negsuc}
use sdparm.SgLib.{SgLib, SgLibLaws}

-- What the walk over the target port's designators returns is not looked at.
pub record ScsiPort : Type 0 where
  pub relative_port : ℕ
  pub initiator_tid : List ℕ
  pub designators : Decoded Designator

-- VPD_ASSOC_TPORT is 1; any designator type and code set.
abbrev pub target_designators : SgLib → List ℕ → Decoded Designator
target_designators sg ds =
    if length ds == 0 then ([], ended) else decode_dev_ids sg (pos 1) (negsuc 0) (negsuc 0) ds

module _ (sg : SgLib) where
  abbrev scsi_port : ℕ → List ℕ → List ℕ → ScsiPort
  scsi_port n tid ds = record {
    relative_port = n;
    initiator_tid = tid;
    designators = target_designators sg ds;
  }

  -- From the length of the target port's descriptors on.
  abbrev read_target : List ℕ → ℕ → ℕ → Option (Round ScsiPort)
  read_target bp n ip_tid_len = do
    tpd_len ← be16 sg bp (8 + ip_tid_len + 2)
    if ltb (length bp) (8 + ip_tid_len + tpd_len + 4)
        then some (last (scsi_port n (take ip_tid_len (drop 8 bp)) [] ∷ []) short_descriptor)
        else some (
            row
              (scsi_port n (take ip_tid_len (drop 8 bp))
                (take tpd_len (drop (8 + ip_tid_len + 4) bp)))
              (8 + ip_tid_len + (tpd_len + 4)))

  unfoldable pub scsi_port_round : List ℕ → Round ScsiPort
  scsi_port_round bp = checked do
    n ← be16 sg bp 2
    ip_tid_len ← be16 sg bp 6
    if ltb (length bp) (8 + ip_tid_len)
        then some (last (scsi_port n [] [] ∷ []) short_descriptor)
        else read_target bp n ip_tid_len

  unfoldable pub decode_scsi_ports_vpd : List ℕ → Decoded ScsiPort
  unfolding scsi_port_round
  decode_scsi_ports_vpd buff = decode 4 4 scsi_port_round buff

-- A port as SCSI lays it out.
pub record PortPair : Type 0 where
  pub number : ℕ
  pub tid : List ℕ
  pub target : List ℕ

abbrev pub IsPortPair : PortPair → Type 0
IsPortPair d = (d.number < 65536) × (length d.tid < 65536) × (length d.target < 65536)

abbrev target_bytes : List ℕ → List ℕ
target_bytes ds = 0 ∷ (0 ∷ (length ds / 256 ∷ (length ds % 256 ∷ ds)))

-- The header of a descriptor in front of some bytes.
abbrev pub port_header : PortPair → List ℕ → List ℕ
port_header d bs =
    0
    ∷ (0
        ∷ (d.number / 256
            ∷ (d.number % 256 ∷ (0 ∷ (0 ∷ (length d.tid / 256 ∷ (length d.tid % 256 ∷ bs)))))))

unfoldable pub pair_bytes : PortPair → List ℕ
pair_bytes d = port_header d (d.tid ++ target_bytes d.target)

unfoldable pub shown_pair : SgLib → PortPair → ScsiPort
shown_pair sg d = record {
  relative_port = d.number;
  initiator_tid = d.tid;
  designators = target_designators sg d.target;
}

append_assoc : (xs ys zs : List ℕ) → (xs ++ ys) ++ zs ≡ xs ++ (ys ++ zs)
append_assoc [] ys zs = refl
append_assoc (x ∷ xs) ys zs = ap (λ t. x ∷ t) (append_assoc xs ys zs)

drop-more : (xs ys : List ℕ) (n : ℕ) → drop (length xs + n) (xs ++ ys) ≡ drop n ys
drop-more [] ys n = ap (λ (k : ℕ). drop k ys) (omega arith)
drop-more (x ∷ xs) ys n =
    let e : suc (length xs) + n ≡ suc (length xs + n) = omega arith in
    ap (λ (k : ℕ). drop k (x ∷ (xs ++ ys))) e ∙ drop-more xs ys n

-- The part of a descriptor in front of the target port's.
abbrev front : PortPair → List ℕ
front d = port_header d d.tid

module _ (sg : SgLib) (laws : SgLibLaws sg) where
  be16-bytes :
      (n : ℕ) (bs : List ℕ) → n < 65536 → sg.get_unaligned_be16 (n / 256 ∷ (n % 256 ∷ bs)) ≡ n
  be16-bytes n bs h = laws.be16_value (n / 256) (n % 256) bs ∙ omega arith

  -- What is read behind the transport id.
  read_target-front :
      (d : PortPair) (rest : List ℕ)
      → length d.target < 65536
      → read_target sg (front d ++ (target_bytes d.target ++ rest)) d.number (length d.tid)
        ≡ some (row (shown_pair sg d) (8 + length d.tid + (length d.target + 4)))
  unfolding shown_pair
  read_target-front d rest h =
      let tail = target_bytes d.target ++ rest in
      let bp = front d ++ tail in
      let n = length d.tid in
      let m = length d.target in
      let total = length-append (front d) tail in
      let total' = length-append d.target rest in
      let at : (k : ℕ) → drop (8 + n + k) bp ≡ drop k tail =
        λ k. ap (λ (j : ℕ). drop j bp) (omega arith) ∙ drop-more (front d) tail k in
      let len : be16 sg bp (8 + n + 2) ≡ some m =
        word_inside sg.get_unaligned_be16 2 bp (8 + n + 2) (omega (arith, total, total'))
        ∙ ap some (ap sg.get_unaligned_be16 (at 2) ∙ be16-bytes m (d.target ++ rest) h) in
      let fits : ltb (length bp) (8 + n + m + 4) ≡ false = ground (arith, total, total') in
      let tid : take n (drop 8 bp) ≡ d.tid = take-append d.tid tail in
      let ds : take m (drop (8 + n + 4) bp) ≡ d.target =
        ap (take m) (at 4) ∙ take-append d.target rest in
      rw (len, fits, tid, ds) refl

  scsi_port_round-front :
      (d : PortPair) (rest : List ℕ)
      → IsPortPair d
      → scsi_port_round sg (front d ++ (target_bytes d.target ++ rest))
        ≡ row (shown_pair sg d) (8 + length d.tid + (length d.target + 4))
  unfolding scsi_port_round
  scsi_port_round-front d rest h =
      let tail = target_bytes d.target ++ rest in
      let n = length d.tid in
      let first : sg.get_unaligned_be16 (drop 2 (front d ++ tail)) ≡ d.number =
        be16-bytes d.number (drop 4 (front d ++ tail)) h.0 in
      let len : sg.get_unaligned_be16 (drop 6 (front d ++ tail)) ≡ n =
        be16-bytes n (d.tid ++ tail) h.1 in
      let fits : ltb (length (front d ++ tail)) (8 + n) ≡ false =
        ground (arith, length-append d.tid tail) in
      rw (first, len, fits) (ap checked (read_target-front d rest h.2))

  scsi_port_round-pair_bytes :
      (d : PortPair) (rest : List ℕ)
      → IsPortPair d
      → scsi_port_round sg (pair_bytes d ++ rest) ≡ row (shown_pair sg d) (length (pair_bytes d))
  unfolding pair_bytes
  scsi_port_round-pair_bytes d rest h =
      let bump : 8 + length d.tid + (length d.target + 4) ≡ length (pair_bytes d) =
        omega (arith, length-append d.tid (target_bytes d.target)) in
      ap (λ t. scsi_port_round sg (port_header d t))
        (append_assoc d.tid (target_bytes d.target) rest)
      ∙ scsi_port_round-front d rest h
      ∙ ap (row (shown_pair sg d)) bump

  -- The decoder of SCSI ports reads a page of ports back: the relative port of each, the transport
  -- id of its initiator port, and what the walk over exactly the bytes of its target port's
  -- designators gives.
  pub decode_scsi_ports_vpd-pair_bytes :
      (page_header : List ℕ) (ds : List PortPair)
      → length page_header ≡ 4
      → All IsPortPair ds
      → decode_scsi_ports_vpd sg (page_header ++ bytes_of pair_bytes ds)
        ≡ (map (shown_pair sg) ds, ended)
  unfolding decode_scsi_ports_vpd
  decode_scsi_ports_vpd-pair_bytes page_header ds h v =
      decode-bytes_of pair_bytes (shown_pair sg) (scsi_port_round sg) IsPortPair
        (λ d. unfold pair_bytes in omega arith) scsi_port_round-pair_bytes page_header ds h v
