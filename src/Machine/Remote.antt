-- ===== src/Machine/Remote.antt =====
-- How a controller programs another node: `artnet_send_address` and `artnet_send_input`
-- (artnet/artnet.c), to an entry of the node list, which `find_private_entry` finds by its address.
pub mod Inputs
pub mod Bytes
pub mod Addresses
mod Tests
use libartnet.Base.{
  ℕ, ◌≡◌, ◌%◌, Bool, true, false, not, ◌||◌, List, [], ◌∷◌, ◌++◌, Option, none, some, if◌then◌else◌,
  ◌==◌, length, min, memcpy, replicate, take, bit_and, bit_or, earg, eaction, estate,
}
use libartnet.Node.{NodeType, srv, raw}
use libartnet.Node.Address.{program_no_change, program_change_mask}
use libartnet.Packet.{Packet, address, input}
use libartnet.Transmit.{Tx, TxState, refuse, transmit, send_to, header}
use libartnet.Wire.{short_get_high_byte, short_get_low_byte}

-- Only a server and a raw node program others.
abbrev pub programs_others : NodeType → Bool
programs_others srv = true
programs_others raw = true
programs_others _ = false

-- A name in its field of `size` bytes; `name` is the string up to its zero.
unfoldable pub name_bytes : ℕ → Option (List ℕ) → List ℕ
name_bytes size none = replicate size program_no_change
name_bytes size (some name) = memcpy (replicate size 0) name (min (length name) size)

-- `swIn` and `swOut`: the four values that are given
abbrev pub port_bytes : Option (List ℕ) → List ℕ
port_bytes none = replicate 4 program_no_change
port_bytes (some addrs) = memcpy (replicate 4 0) addrs 4

abbrev pub net_byte : ℕ → ℕ
net_byte net = if not (net == program_no_change) then bit_or net program_change_mask else net

abbrev pub subnet_byte : ℕ → ℕ
subnet_byte subnet =
    if not (subnet == program_no_change)
    then bit_or (bit_and subnet 0x0f) program_change_mask
    else subnet

-- What `artnet_send_address` is given
pub record Programming : Type 0 where
  pub short_name : Option (List ℕ)
  pub long_name : Option (List ℕ)
  pub in_addr : Option (List ℕ)
  pub out_addr : Option (List ℕ)
  pub net_addr : ℕ
  pub sub_addr : ℕ
  pub command : ℕ
  pub acn_priority : ℕ

abbrev pub behind_short_name : Programming → List ℕ
behind_short_name g =
    name_bytes 64 g.long_name
    ++ (port_bytes g.in_addr
        ++ (port_bytes g.out_addr ++ (subnet_byte g.sub_addr ∷ g.acn_priority ∷ g.command ∷ [])))

abbrev pub address_bytes : Programming → List ℕ
address_bytes g =
    header 0x60 ++ (net_byte g.net_addr ∷ 1 ∷ name_bytes 18 g.short_name ++ behind_short_name g)

-- `artnet_send_address`, to the address of an entry; none where the entry is NULL or not found
unfoldable pub artnet_send_address : TxState → Option ℕ → Programming → Tx
artnet_send_address s none g = refuse earg
artnet_send_address s (some to) g =
    if not s.mode_on
    then refuse eaction
    else if programs_others s.node_type
    then send_to to 107 address (address_bytes g)
    else refuse estate

abbrev pub input_bytes : ℕ → List ℕ → List ℕ
input_bytes numbports settings =
    header 0x70
    ++ (0 ∷ 1 ∷ short_get_high_byte numbports ∷ short_get_low_byte numbports ∷ take 4 settings)

-- `artnet_send_input`, to the address of an entry that counts so many ports; none where the entry is
-- NULL
unfoldable pub artnet_send_input : TxState → Option (ℕ × ℕ) → List ℕ → Tx
artnet_send_input s none settings = refuse earg
artnet_send_input s (some (to, numbports)) settings =
    if not s.mode_on
    then refuse eaction
    else if programs_others s.node_type
    then send_to to 20 input (input_bytes numbports settings)
    else refuse estate

-- What arrives of a call that sends one packet; `artnet_net_send` gives it the sender's address.
abbrev pub arrives : ℕ → Tx → Option Packet
arrives from (refuse code) = none
arrives from (transmit d) = some (record (d.packet) { from = from })
