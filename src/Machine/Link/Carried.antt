-- ===== src/Machine/Link/Carried.antt =====
-- What a node reads of an ArtDmx that another sent.
use libartnet.Base.{
  ℕ, zero, suc, ◌+◌, ◌-◌, ◌%◌, ◌/◌, ◌^◌, ◌≤◌, ◌<◌, ◌≡◌, refl, ap, ◌∙◌, arith, true, false, List, [],
  ◌∷◌, ◌++◌, length, take, get_or, memcpy, replicate, min, get_or-memcpy, length-replicate,
  length-take, length-memcpy, bit_and, and_mask, ltb, suc-add,
}
use libartnet.Machine.Read.{received_packet, data_size}
use libartnet.Machine.Run.Kept.{received_packet-IsWhole}
use libartnet.Node.{universe, dmx_packet}
use libartnet.Node.Ports.{IsWhole}
use libartnet.Node.Send.{build_dmx, dmx_bytes}
use libartnet.Packet.{Packet, dmx, opcode_type, get_type, packet_length_is_valid, min_len}
use libartnet.Packet.Fields.{packet_fields_are_valid, type_is_valid, dmx_is_valid}
use libartnet.Port.{InputPort}
use libartnet.Wire.{bytes_to_short, short_get_high_byte, short_get_low_byte}
use libartnet.Transmit.Accepted.{version}
use libartnet.Wire.Misc.{bytes_to_short-get_bytes}
use libartnet.Machine.Link.{receive_from}

zero-add : (n : ℕ) → 0 + n ≡ n
zero-add n = omega arith

module _ {ℓ} {A : Type ℓ} where
  memcpy-append :
      (head xs : List A) (m n : ℕ) (z : A)
      → memcpy (replicate (length head + m) z) (head ++ xs) (length head + n)
        ≡ head ++ memcpy (replicate m z) xs n
  unfolding memcpy
  memcpy-append [] xs m n z = rw (zero-add m, zero-add n) refl
  memcpy-append (x ∷ head) xs m n z =
      rw (suc-add (length head) m, suc-add (length head) n)
        (ap (λ l. x ∷ l) (memcpy-append head xs m n z))

  take-append : (head xs : List A) (n : ℕ) → take (length head + n) (head ++ xs) ≡ head ++ take n xs
  take-append [] xs n = rw (zero-add n) refl
  take-append (x ∷ head) xs n =
      rw (suc-add (length head) n) (ap (λ l. x ∷ l) (take-append head xs n))

-- The header of the ArtDmx
unfoldable dmx_header : ℕ → ℕ → InputPort → List ℕ
dmx_header port_id len port =
    0x41
    ∷ 0x72
    ∷ 0x74
    ∷ 0x2d
    ∷ 0x4e
    ∷ 0x65
    ∷ 0x74
    ∷ 0
    ∷ 0x00
    ∷ 0x50
    ∷ 0
    ∷ 14
    ∷ port.seq
    ∷ port_id
    ∷ port.port_addr % 256
    ∷ port.port_addr / 256
    ∷ short_get_high_byte len
    ∷ short_get_low_byte len
    ∷ []

module _ (from port_id len : ℕ) (slots : List ℕ) (port : InputPort) (h : len ≤ 512) where
  abbrev head : List ℕ
  head = dmx_header port_id len port

  abbrev frame : Packet
  frame = build_dmx 0 port_id len slots port

  -- What is sent is the header and the slots.
  sent_bytes : take frame.length frame.bytes ≡ head ++ take len (memcpy (replicate 512 0) slots len)
  unfolding build_dmx dmx_bytes dmx_header
  sent_bytes =
      let long : 530 - (512 - len) ≡ length head + len = omega arith in
      ap (λ n. take n frame.bytes) long ∙ take-append head (memcpy (replicate 512 0) slots len) len

  sent_size : length (take frame.length frame.bytes) ≡ 18 + len
  unfolding build_dmx dmx_bytes
  sent_size =
      length-take frame.length frame.bytes
      ∙ omega (arith, length-memcpy (replicate 512 0) slots len, length-replicate {A = ℕ} 512 0)

  received_bytes :
      (receive_from from frame).bytes
      ≡ head ++ memcpy (replicate 2050 0) (take len (memcpy (replicate 512 0) slots len)) len
  unfolding receive_from received_packet dmx_header
  received_bytes =
      let long : min (length (take frame.length frame.bytes)) data_size ≡ length head + len =
        omega (arith, sent_size) in
      rw (long, sent_bytes) (memcpy-append head _ 2050 len 0)

  received_length : (receive_from from frame).length ≡ 18 + len
  unfolding receive_from received_packet
  received_length = omega (arith, sent_size)

-- What a node reads of a packet that begins with the header of an ArtDmx
pub record IsDmx (port_id len : ℕ) (port : InputPort) (q : Packet) : Type 0 where
  pub length_is_valid : packet_length_is_valid q ≡ true
  pub fields_are_valid : packet_fields_are_valid q ≡ true
  pub data_length : (dmx_packet q).data_length ≡ len
  pub address : universe q ≡ port.port_addr
  pub type : q.type ≡ dmx

module _ (port_id len : ℕ) (port : InputPort) (q : Packet) (rest : List ℕ) where
  header_type :
      q.bytes ≡ dmx_header port_id len port ++ rest → q.length ≡ 18 + len → get_type q ≡ 0x5000
  unfolding get_type dmx_header
  header_type bytes long =
      let enough : ltb q.length 10 ≡ false = ground (arith, long) in rw (enough, bytes) refl

  header-IsDmx :
      2 ≤ len
      → len ≤ 512
      → len % 2 ≡ 0
      → port.port_addr < 2 ^ 16
      → q.bytes ≡ dmx_header port_id len port ++ rest
      → q.length ≡ 18 + len
      → q.type ≡ dmx
      → IsDmx port_id len port q
  unfolding packet_length_is_valid min_len packet_fields_are_valid type_is_valid dmx_is_valid
      dmx_header
  header-IsDmx low high even address bytes long type =
      let announced : bytes_to_short (short_get_high_byte len) (short_get_low_byte len) ≡ len =
        bytes_to_short-get_bytes len (omega arith) in
      let parity : bit_and len 1 ≡ 0 = omega (arith, and_mask 1 len) in
      record {
        length_is_valid = rw (type, long) (ground arith);
        fields_are_valid = rw (type, bytes, long, version, announced, parity) (ground arith);
        data_length = rw (bytes, announced) (omega arith);
        address = rw bytes (omega arith);
        type = type;
      }

receive_from_type :
    (from : ℕ) (p : Packet)
    → (receive_from from p).type ≡ opcode_type (get_type (receive_from from p))
unfolding receive_from received_packet get_type
receive_from_type from p = refl

dmx_opcode : opcode_type 0x5000 ≡ dmx
unfolding opcode_type
dmx_opcode = refl

pub receive_from-IsWhole : (from : ℕ) (p : Packet) → IsWhole (receive_from from p)
unfolding receive_from
receive_from-IsWhole from p = received_packet-IsWhole from (take p.length p.bytes)

get_or-take {ℓ} :
    {A : Type ℓ} (n : ℕ) (xs : List A) (i : ℕ) (z : A)
    → i < n
    → get_or (take n xs) i z ≡ get_or xs i z
get_or-take zero xs i z h = absurd (omega arith)
get_or-take (suc n) [] i z h = refl
get_or-take (suc n) (x ∷ xs) zero z h = refl
get_or-take (suc n) (x ∷ xs) (suc i) z h = get_or-take n xs i z (omega arith)

module _ (from port_id len : ℕ) (slots : List ℕ) (port : InputPort) where
  pub received-IsDmx :
      2 ≤ len
      → len ≤ 512
      → len % 2 ≡ 0
      → port.port_addr < 2 ^ 16
      → IsDmx port_id len port (receive_from from (build_dmx 0 port_id len slots port))
  received-IsDmx low high even address =
      header-IsDmx port_id len port _ _ low high even address
        (received_bytes from port_id len slots port high)
        (received_length from port_id len slots port high) received_type
    where
      q : Packet
      q = receive_from from (build_dmx 0 port_id len slots port)

      received_type : q.type ≡ dmx
      received_type =
          receive_from_type from (build_dmx 0 port_id len slots port)
          ∙ ap opcode_type (
              header_type port_id len port q _ (received_bytes from port_id len slots port high)
                (received_length from port_id len slots port high))
          ∙ dmx_opcode

pub received_slots :
    (from port_id len i : ℕ) (slots : List ℕ) (port : InputPort)
    → len ≤ 512
    → len ≤ length slots
    → i < len
    → get_or (dmx_packet (receive_from from (build_dmx 0 port_id len slots port))).slots i 0
      ≡ get_or slots i 0
unfolding dmx_header
received_slots from port_id len i slots port high enough h =
    let frame = memcpy (replicate 512 0) slots len in
    let sent_size : length frame ≡ 512 =
      length-memcpy (replicate 512 0) slots len ∙ length-replicate {A = ℕ} 512 0 in
    get_or-take 512 _ i 0 (omega arith)
    ∙ rw (received_bytes from port_id len slots port high) (
        get_or-memcpy (replicate 2050 0) (take len frame) len i 0 h
          (omega (arith, length-replicate {A = ℕ} 2050 0))
          (omega (arith, length-take len frame, sent_size))
        ∙ get_or-take len frame i 0 h
        ∙ get_or-memcpy (replicate 512 0) slots len i 0 h
            (omega (arith, length-replicate {A = ℕ} 512 0)) enough)
