-- ===== src/Vpd/PortLayout.antt =====
-- The layout of the descriptors of SAS ports, against which decode_proto_port_vpd is held.
use sdparm.Vpd.{ended, row}
use sdparm.Vpd.Walk.{bytes_of, decode-bytes_of}
use sdparm.Vpd.Ports.{
  Port, port, port_round, Phy, PortInfo, no_port_info, sas_port, phys, port_info,
  decode_proto_port_vpd,
}
use sdparm.Prelude.{
  ℕ, ◌+◌, ◌*◌, ◌/◌, ◌%◌, ◌<◌, false, Option, some, List, [], ◌∷◌, ◌++◌, ◌≡◌, refl, ap, map, ◌∙◌,
  length-append, arith, length, All, ltb, ◌==◌, if◌then◌else◌,
}
use sdparm.SgLib.{SgLib, SgLibLaws}

-- The bytes of a port descriptor with some bytes `body` behind its header of 8 bytes.
abbrev pub port_bytes : ℕ → ℕ → ℕ → List ℕ → List ℕ
port_bytes number proto flags body =
    let n = length body in
    number / 256 ∷ (number % 256 ∷ (proto ∷ (flags ∷ (0 ∷ (0 ∷ (n / 256 ∷ (n % 256 ∷ body)))))))

module _ {A : Type 0} (sg : SgLib) (laws : SgLibLaws sg) (no_info : A)
    (info : ℕ → ℕ → List ℕ → Option A) where
  port_round-port_bytes :
      (number proto flags : ℕ) (body rest : List ℕ) (v : A)
      → number < 65536
      → proto < 16
      → length body < 65536
      → (if length body == 0
          then some no_info
          else info proto (length body) (port_bytes number proto flags body ++ rest))
        ≡ some v
      → port_round sg no_info info (port_bytes number proto flags body ++ rest)
        ≡ row
            (record { rel_port = number; proto = proto; info = v })
            (length (port_bytes number proto flags body))
  unfolding port_round
  port_round-port_bytes number proto flags body rest v hn hp hb h =
      let n = length body in
      let bp = port_bytes number proto flags body ++ rest in
      let first : sg.get_unaligned_be16 bp ≡ number =
        laws.be16_value (number / 256) (number % 256) _ ∙ omega arith in
      let len : sg.get_unaligned_be16 (n / 256 ∷ (n % 256 ∷ (body ++ rest))) ≡ n =
        laws.be16_value (n / 256) (n % 256) (body ++ rest) ∙ omega arith in
      let low : proto % 16 ≡ proto = omega arith in
      let fits : ltb (length bp) (8 + n) ≡ false = ground (arith, length-append body rest) in
      let bump : 8 + n ≡ length (port_bytes number proto flags body) = omega arith in
      rw (first, len, low, fits, h) (ap (row (port number proto v)) bump)

-- A SAS port: its number, whether its power can be disabled, and its phys.
pub record SasPort : Type 0 where
  pub number : ℕ
  pub pwr_d_s : ℕ
  pub phy_list : List Phy

unfoldable pub phy_bytes : Phy → List ℕ
phy_bytes p = 0 ∷ (p.phy_identifier ∷ (p.ssp_persistent_capable ∷ (0 ∷ [])))

abbrev pub IsSasPort : SasPort → Type 0
IsSasPort d =
    (d.number < 65536)
    × (d.pwr_d_s < 2)
    × (length (bytes_of phy_bytes d.phy_list) < 65536)
    × All (λ p. p.ssp_persistent_capable < 2) d.phy_list

abbrev pub sas_bytes : SasPort → List ℕ
sas_bytes d = port_bytes d.number 6 d.pwr_d_s (bytes_of phy_bytes d.phy_list)

abbrev pub sas_info : ℕ → List Phy → PortInfo
sas_info pwr_d_s [] = no_port_info
sas_info pwr_d_s (p ∷ ps) = sas_port pwr_d_s (p ∷ ps)

abbrev pub shown_port : SasPort → Port PortInfo
shown_port d = record { rel_port = d.number; proto = 6; info = sas_info d.pwr_d_s d.phy_list }

phys-bytes_of :
    (ps : List Phy) (rest : List ℕ)
    → All (λ p. p.ssp_persistent_capable < 2) ps
    → (phys (length ps) (bytes_of phy_bytes ps ++ rest) ≡ some ps)
      × (length (bytes_of phy_bytes ps) ≡ 4 * length ps)
unfolding phys bytes_of phy_bytes
phys-bytes_of [] rest h = (refl, omega arith)
phys-bytes_of (p ∷ ps) rest h =
    let r = phys-bytes_of ps rest h.1 in
    let bit : p.ssp_persistent_capable % 2 ≡ p.ssp_persistent_capable = omega (arith, h.0) in
    (rw (bit, r.0) refl, omega (arith, r.1))

sas_port_info :
    (d : SasPort) (rest : List ℕ)
    → IsSasPort d
    → (if length (bytes_of phy_bytes d.phy_list) == 0
        then some no_port_info
        else port_info 6 (length (bytes_of phy_bytes d.phy_list)) (sas_bytes d ++ rest))
      ≡ some (sas_info d.pwr_d_s d.phy_list)
sas_port_info d rest h = go d.phy_list h.3 h.1
  where
    go :
        (ps : List Phy)
        → All (λ p. p.ssp_persistent_capable < 2) ps
        → d.pwr_d_s < 2
        → (if length (bytes_of phy_bytes ps) == 0
            then some no_port_info
            else port_info 6
                (length (bytes_of phy_bytes ps))
                (port_bytes d.number 6 d.pwr_d_s (bytes_of phy_bytes ps) ++ rest))
          ≡ some (sas_info d.pwr_d_s ps)
    go [] v b = unfold bytes_of in refl
    go (p ∷ ps) v b =
        let r = phys-bytes_of (p ∷ ps) rest v in
        let some_bytes : (length (bytes_of phy_bytes (p ∷ ps)) == 0) ≡ false =
          ground (arith, r.1) in
        let count : (length (bytes_of phy_bytes (p ∷ ps)) + 3) / 4 ≡ length (p ∷ ps) =
          omega (arith, r.1) in
        let bit : d.pwr_d_s % 2 ≡ d.pwr_d_s = omega (arith, b) in
        rw (some_bytes, count, r.0, bit) refl

module _ (sg : SgLib) (laws : SgLibLaws sg) where
  -- The decoder of protocol specific port information reads a page of SAS ports back: the number
  -- of each, and of each that has phys whether its power can be disabled and all of its phys in
  -- order; of a port without phys nothing more than its number and its protocol is shown.
  pub decode_proto_port_vpd-sas_bytes :
      (page_header : List ℕ) (ds : List SasPort)
      → length page_header ≡ 4
      → All IsSasPort ds
      → decode_proto_port_vpd sg (page_header ++ bytes_of sas_bytes ds) ≡ (map shown_port ds, ended)
  unfolding decode_proto_port_vpd
  decode_proto_port_vpd-sas_bytes page_header ds h v =
      decode-bytes_of sas_bytes shown_port (port_round sg no_port_info port_info) IsSasPort
        (λ d. omega arith)
        (λ d rest hd.
          port_round-port_bytes sg laws no_port_info port_info d.number 6 d.pwr_d_s
            (bytes_of phy_bytes d.phy_list) rest (sas_info d.pwr_d_s d.phy_list) hd.0 (omega arith)
            hd.2 (sas_port_info d rest hd))
        page_header ds h v
