-- ===== src/Vpd/Ports.antt =====
-- decode_proto_port_vpd, decode_proto_lu_vpd and decode_scsi_ports_vpd of src/sdparm_vpd.c.
use sdparm.Vpd.{short_descriptor, Round, row, last, Decoded, byte, be16, checked, ◌>>=◌, decode}
use sdparm.Prelude.{
  ℕ, zero, suc, ◌+◌, ◌/◌, ◌%◌, Option, some, List, [], ◌∷◌, length, take, drop, ltb, ◌==◌,
  if◌then◌else◌,
}
use sdparm.SgLib.{SgLib}

-- A port and its protocol, with what is shown of the latter.
pub record Port (A : Type 0) : Type 0 where
  pub rel_port : ℕ
  pub proto : ℕ
  pub info : A

abbrev pub port : {A : Type 0} → ℕ → ℕ → A → Port A
port n p i = record { rel_port = n; proto = p; info = i }

abbrev pub read_port :
    {A : Type 0} → A → (ℕ → ℕ → List ℕ → Option A) → ℕ → ℕ → ℕ → List ℕ → Option (Round (Port A))
read_port no_info info n proto desc_len bp =
    if ltb (length bp) (8 + desc_len)
    then some (last (port n proto no_info ∷ []) short_descriptor)
    else ((if desc_len == 0 then some no_info else info proto desc_len bp) >>= λ i.
        some (row (port n proto i) (8 + desc_len)))

-- What the two decoders share: they differ in the switch on the protocol, `info`.
unfoldable pub port_round :
    {A : Type 0} → SgLib → A → (ℕ → ℕ → List ℕ → Option A) → List ℕ → Round (Port A)
port_round sg no_info info bp = checked do
  n ← be16 sg bp 0
  b2 ← byte bp 2
  desc_len ← be16 sg bp 6
  read_port no_info info n (b2 % 16) desc_len bp

-- What is shown behind the protocol of a logical unit: nothing for a descriptor of length 0, the
-- TLR control bit of SAS, or the bytes for another protocol.
pub data LuInfo : Type 0 where
  no_lu_info : LuInfo
  sas_lu : ℕ → LuInfo
  other_lu : List ℕ → LuInfo

abbrev pub lu_info : ℕ → ℕ → List ℕ → Option LuInfo
lu_info proto desc_len bp =
    if proto == 6
    then (byte bp 8 >>= λ b8. some (sas_lu (b8 % 2)))
    else some (other_lu (take (8 + desc_len) bp))

unfoldable pub decode_proto_lu_vpd : SgLib → List ℕ → Decoded (Port LuInfo)
unfolding port_round
decode_proto_lu_vpd sg buff = decode 4 4 (port_round sg no_lu_info lu_info) buff

pub record Phy : Type 0 where
  pub phy_identifier : ℕ
  pub ssp_persistent_capable : ℕ

-- The same of a port: its power disable bit and its phys, if it is one of SAS.
pub data PortInfo : Type 0 where
  no_port_info : PortInfo
  sas_port : ℕ → List Phy → PortInfo
  other_port : List ℕ → PortInfo

-- `for (j = 0; j < desc_len; j += 4, pidp += 4)`, by the number of rounds.
unfoldable pub phys : ℕ → List ℕ → Option (List Phy)
phys zero pidp = some []
phys (suc n) pidp = do
  b1 ← byte pidp 1
  b2 ← byte pidp 2
  rest ← phys n (drop 4 pidp)
  some (record { phy_identifier = b1; ssp_persistent_capable = b2 % 2 } ∷ rest)

abbrev pub port_info : ℕ → ℕ → List ℕ → Option PortInfo
port_info proto desc_len bp =
    if proto == 6
    then (byte bp 3 >>= λ b3.
        phys ((desc_len + 3) / 4) (drop 8 bp) >>= λ ps. some (sas_port (b3 % 2) ps))
    else some (other_port (take (8 + desc_len) bp))

unfoldable pub decode_proto_port_vpd : SgLib → List ℕ → Decoded (Port PortInfo)
unfolding port_round phys
decode_proto_port_vpd sg buff = decode 4 4 (port_round sg no_port_info port_info) buff
