-- ===== src/Transmit.antt =====
-- The packets that artnet/transmit.c sends: what they share, and `artnet_net_send`
-- (artnet/network.c) as its callers see it.
pub mod Tod
pub mod Rdm
pub mod Data
pub mod Clock
pub mod Media
pub mod Files
pub mod Program
pub mod Spread
pub mod Accepted
mod Tests
use libartnet.Base.{
  ℕ, zero, suc, Bool, true, false, List, [], ◌∷◌, ◌++◌, if◌then◌else◌, bit_or, Option, none, some,
  ltb, Code,
}
use libartnet.Node.{NodeType}
use libartnet.Base.{◌*◌, ◌^◌, ◌%◌}
use libartnet.Packet.{Packet, PacketType}
use libartnet.Wire.{addr_port, addr_subnet}

-- `id`, `opCode` low byte first, `verH` and `ver`. The low byte of every opcode is 0.
abbrev pub header : ℕ → List ℕ
header op_high = 0x41 ∷ 0x72 ∷ 0x74 ∷ 0x2d ∷ 0x4e ∷ 0x65 ∷ 0x74 ∷ 0 ∷ 0 ∷ op_high ∷ 0 ∷ 14 ∷ []

-- An `artnet_packet_t` to send. `artnet_net_send` sets `from` to the node's own address.
pub record Datagram : Type 0 where
  pub to : ℕ
  pub packet : Packet

-- What the functions that send return: ARTNET_EOK, the 1 that `ret || ...` makes of any other code,
-- or ARTNET_EACTION where there is nobody to send to.
pub data Sent : Type 0 where
  sent_ok sent_failed sent_nowhere : Sent

-- `ret = ret || artnet_net_send(n, &p)`. `works` tells of each send whether it succeeds: after a
-- failure nothing more is sent.
unfoldable pub send_unless_failed : Bool → Sent → Datagram → List Datagram × Sent
send_unless_failed works sent_ok d = if works then (d ∷ [], sent_ok) else ([], sent_failed)
send_unless_failed works sent_failed d = ([], sent_failed)
send_unless_failed works sent_nowhere d = ([], sent_failed)

-- `(addr_subnet(address) << 4) | addr_port(address)`, as a byte
unfoldable pub address_byte : ℕ → ℕ
address_byte address = bit_or (addr_subnet address * 2 ^ 4) (addr_port address) % 2 ^ 8

-- `if (tx_ret) { ret = tx_ret; }`
abbrev pub worse : Sent → Sent → Sent
worse ret sent_ok = ret
worse ret sent_failed = sent_failed
worse ret sent_nowhere = sent_nowhere

-- `ret || tx_ret`, of two codes
abbrev pub either_failed : Sent → Sent → Sent
either_failed sent_ok sent_ok = sent_ok
either_failed _ _ = sent_failed

-- The fields of `node_state_t` that the functions of the children read. `nodes` are the addresses
-- of the node list, in its order.
pub record TxState : Type 0 where
  pub mode_on : Bool
  pub node_type : NodeType
  pub bcast_addr : ℕ
  pub reply_addr : ℕ
  pub rdm_reply_addr : ℕ
  pub ip_addr : ℕ
  pub subnet_mask : ℕ
  pub gateway : ℕ
  pub esta_hi : ℕ
  pub esta_lo : ℕ
  pub oem_hi : ℕ
  pub oem_lo : ℕ
  pub diag_enabled : Bool
  pub diag_unicast : Bool
  pub diag_priority : ℕ

-- What such a function does: it returns a code at once, or returns what `artnet_net_send` does on a
-- datagram.
pub data Tx : Type 0 where
  refuse : Code → Tx
  transmit : Datagram → Tx

abbrev pub send_to : ℕ → ℕ → PacketType → List ℕ → Tx
send_to to length type bytes =
    transmit (record {
      to = to;
      packet = record { length = length; from = 0; type = type; bytes = bytes };
    })

-- A signed length, as the callers give it
pub data ℤ : Type 0 where
  pos negsuc : ℕ → ℤ

-- `length < 0`, and the length where it is not
abbrev pub is_negative : ℤ → Bool
is_negative (pos _) = false
is_negative (negsuc _) = true

abbrev pub magnitude : ℤ → ℕ
magnitude (pos n) = n
magnitude (negsuc _) = 0

-- `length > 0 && data == NULL`
abbrev pub is_missing : ℤ → Option (List ℕ) → Bool
is_missing n (some _) = false
is_missing n none = ltb 0 (magnitude n)

abbrev pub content : Option (List ℕ) → List ℕ
content none = []
content (some data_bytes) = data_bytes

-- An address given as text: a null pointer, a text that `artnet_net_inet_aton` refuses with
-- ARTNET_EARG, or one that it reads.
pub data Target : Type 0 where
  no_target bad_target : Target
  target : (address : ℕ) → Target
