-- ===== src/Prog/Programmed.antt =====
-- The laws of ArtIpProg: what a query leaves, the broadcast address, and programming end to end.
use libartnet.Base.{ℕ, ◌+◌, ◌*◌, ◌/◌, ◌%◌, ◌^◌, ◌<◌, ◌≡◌, refl, arith, inl, inr, Bool-cases}
use libartnet.Base.{Bool, true, false}
use libartnet.Packet.{Packet, byte, ip_prog}
use libartnet.Port.{has_bit}
use libartnet.Prog.{
  NetState, broadcast_of, program_ip, program_mask, program_gateway, program, handle_ipprog,
}
use libartnet.Transmit.{target}
use libartnet.Transmit.Program.{ip_prog_bytes}

-- The broadcast address is that of the address and the mask.
abbrev pub Agrees : NetState → Type 0
Agrees s = s.bcast_addr ≡ broadcast_of s.ip_addr s.subnet_mask

module _ (htonl : ℕ → ℕ) (p : Packet) (s : NetState) where
  ip-Agrees : Agrees s → Agrees (program_ip htonl p s)
  unfolding program_ip
  ip-Agrees a = elim (Bool-cases (has_bit (byte p 14) 0x04)) [
    | inl on ↦ rw on refl
    | inr off ↦ rw off a
  ]

  mask-Agrees : Agrees s → Agrees (program_mask htonl p s)
  unfolding program_mask
  mask-Agrees a = elim (Bool-cases (has_bit (byte p 14) 0x02)) [
    | inl on ↦ rw on refl
    | inr off ↦ rw off a
  ]

  gateway-Agrees : Agrees s → Agrees (program_gateway htonl p s)
  unfolding program_gateway
  gateway-Agrees a = elim (Bool-cases (has_bit (byte p 14) 0x10)) [
    | inl on ↦ rw on a
    | inr off ↦ rw off a
  ]

-- An ArtIpProg packet, whatever it programs, leaves the broadcast address to be that of the node's
-- address and mask, if it was.
pub handle_ipprog-Agrees :
    (htonl : ℕ → ℕ) (handled program_c : Bool) (p : Packet) (s : NetState)
    → Agrees s
    → Agrees (handle_ipprog htonl handled program_c p s).0
unfolding handle_ipprog program
handle_ipprog-Agrees htonl true program_c p s a = a
handle_ipprog-Agrees htonl false program_c p s a = elim (Bool-cases (has_bit (byte p 14) 0x80)) [
  | inr query ↦ rw query a
  | inl programs ↦ elim (Bool-cases (has_bit (byte p 14) 0x40)) [
    | inl dhcp ↦ rw (programs, dhcp) a
    | inr no_dhcp ↦ elim (Bool-cases (has_bit (byte p 14) 0x08)) [
      | inl reset ↦ rw (programs, no_dhcp, reset) a
      | inr each ↦
          rw (programs, no_dhcp, each)
            (gateway-Agrees htonl p _
              (mask-Agrees htonl p _ (ip-Agrees htonl p (record s { reply_addr = p.from }) a)))
    ]
  ]
]

word_rebuilt :
    (w : ℕ)
    → w < 2 ^ 32
    → w / 2 ^ 24 % 2 ^ 8 * 2 ^ 24
        + w / 2 ^ 16 % 2 ^ 8 * 2 ^ 16
        + w / 2 ^ 8 % 2 ^ 8 * 2 ^ 8
        + w % 2 ^ 8
      ≡ w
word_rebuilt w h = omega arith

-- The packet that `artnet_tx_ipprog` sends, as it arrives
abbrev pub prog_packet : (ℕ → ℕ) → ℕ → ℕ → ℕ → ℕ → ℕ → Packet
prog_packet ntohl from command ip mask gateway = record {
  length = 34;
  from = from;
  type = ip_prog;
  bytes = ip_prog_bytes ntohl command (target ip) (target mask) (target gateway);
}

-- An ArtIpProg that programs the address, the mask and the gateway, as `artnet_tx_ipprog` builds it
-- from three addresses, gives the node that receives it those three, and the broadcast address that
-- they make, where no callback takes it, the bits for DHCP and defaults are not set, the addresses
-- have 32 bits, and, on 32 bits, htonl reverses ntohl, whose results have 32 bits.
pub handle_ipprog-artnet_tx_ipprog :
    (htonl ntohl : ℕ → ℕ) (program_c : Bool) (from command ip mask gateway : ℕ) (s : NetState)
    → ((w : ℕ) → w < 2 ^ 32 → htonl (ntohl w) ≡ w)
    → ((w : ℕ) → w < 2 ^ 32 → ntohl w < 2 ^ 32)
    → ip < 2 ^ 32
    → mask < 2 ^ 32
    → gateway < 2 ^ 32
    → has_bit command 0x80 ≡ true
    → has_bit command 0x40 ≡ false
    → has_bit command 0x08 ≡ false
    → has_bit command 0x04 ≡ true
    → has_bit command 0x02 ≡ true
    → has_bit command 0x10 ≡ true
    → (handle_ipprog htonl false program_c (prog_packet ntohl from command ip mask gateway) s).0
      ≡ record s {
        reply_addr = from;
        ip_addr = ip;
        subnet_mask = mask;
        gateway = gateway;
        bcast_addr = broadcast_of ip mask;
        debug_report = true;
      }
unfolding handle_ipprog program program_ip program_mask program_gateway
handle_ipprog-artnet_tx_ipprog htonl ntohl program_c from command ip mask gateway s back small h1 h2
      h3 on dhcp reset b2 b1 b4 =
    rw
      (
        on,
        dhcp,
        reset,
        b2,
        b1,
        b4,
        word_rebuilt (ntohl ip) (small ip h1),
        word_rebuilt (ntohl mask) (small mask h2),
        word_rebuilt (ntohl gateway) (small gateway h3),
        back ip h1,
        back mask h2,
        back gateway h3,
      )
      refl
