-- ===== src/Transmit/Accepted.antt =====
-- What a node accepts of the packets that a node sends.
pub mod Calls
pub mod Texts
pub mod Transfers
pub mod All
use libartnet.Base.{
  ltb, ◌*◌, ◌+◌, ℕ, ◌≤◌, ◌<◌, ◌≡◌, refl, arith, Bool, true, false, if◌then◌else◌, List, Code,
}
use libartnet.Packet.{
  byte, has_id, Packet, PacketType, get_type, opcode_type, packet_length_is_valid,
}
use libartnet.Packet.Fields.{packet_fields_are_valid}
use libartnet.Transmit.{Datagram, Tx, refuse, transmit, send_to}
use libartnet.Wire.{bytes_to_short}

pub version : bytes_to_short 0 14 ≡ 14
unfolding bytes_to_short
version = refl

-- A receiver finds the type of the packet in its bytes, and passes it to the handler of its type.
pub record IsAccepted (p : Packet) : Type 0 where
  pub announced : opcode_type (get_type p) ≡ p.type
  pub length_is_valid : packet_length_is_valid p ≡ true
  pub fields_are_valid : packet_fields_are_valid p ≡ true

-- What is transmitted is accepted.
pub data Passes : Tx → Type 0 where
  refused : (code : Code) → Passes (refuse code)
  transmitted : (d : Datagram) → IsAccepted d.packet → Passes (transmit d)

-- A call that is refused under a condition
pub guard-Passes :
    (refuses : Bool) (code : Code) (tx : Tx)
    → (refuses ≡ false → Passes tx)
    → Passes (if refuses then refuse code else tx)
guard-Passes true code tx later = refused code
guard-Passes false code tx later = later refl

pub announced_type :
    (p : Packet)
    → 10 ≤ p.length
    → has_id p ≡ true
    → opcode_type (byte p 9 * 256 + byte p 8) ≡ p.type
    → opcode_type (get_type p) ≡ p.type
unfolding get_type
announced_type p long id code =
    let enough : ltb p.length 10 ≡ false = ground arith in rw (enough, id) code

pub sent-Passes :
    (to length : ℕ) (type : PacketType) (bytes : List ℕ)
    → let p : Packet = record { length = length; from = 0; type = type; bytes = bytes } in
      10 ≤ length
      → has_id p ≡ true
      → opcode_type (byte p 9 * 256 + byte p 8) ≡ type
      → packet_length_is_valid p ≡ true
      → packet_fields_are_valid p ≡ true
      → Passes (send_to to length type bytes)
sent-Passes to length type bytes long id code l f = transmitted _ (record {
  announced = announced_type _ long id code;
  length_is_valid = l;
  fields_are_valid = f;
})
