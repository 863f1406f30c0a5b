-- ===== src/Prog.antt =====
-- `handle_ipprog` (artnet/receive.c): programming a node's addresses over the network. An address
-- is the number of its `s_addr`; `htonl` is the library function's, a parameter. The text of the
-- report is left out.
pub mod Programmed
mod Tests
use libartnet.Base.{
  ℕ, zero, suc, ◌+◌, ◌*◌, ◌-◌, ◌^◌, Bool, true, false, not, List, [], ◌∷◌, ◌++◌, bit_and, bit_or,
}
use libartnet.Base.{if◌then◌else◌}
use libartnet.Packet.{Packet, byte}
use libartnet.Port.{has_bit}

-- The fields of `node_state_t` that it changes; `debug_report` tells that the report code is
-- ARTNET_RC_DEBUG.
pub record NetState : Type 0 where
  pub reply_addr : ℕ
  pub ip_addr : ℕ
  pub bcast_addr : ℕ
  pub subnet_mask : ℕ
  pub gateway : ℕ
  pub debug_report : Bool

-- What leaves the node, in its order
pub data ProgEvent : Type 0 where
  poll_reply_built program_called poll_reply_sent ip_reply_sent : ProgEvent

-- `(ip & mask) | ~mask`, of 32 bits
unfoldable pub broadcast_of : ℕ → ℕ → ℕ
broadcast_of ip mask = bit_or (bit_and ip mask) (2 ^ 32 - 1 - mask)

-- Four bytes of the packet, the highest first
abbrev pub word_at : Packet → ℕ → ℕ
word_at p at =
    byte p at * 2 ^ 24 + byte p (at + 1) * 2 ^ 16 + byte p (at + 2) * 2 ^ 8 + byte p (at + 3)

unfoldable pub program_ip : (ℕ → ℕ) → Packet → NetState → NetState
program_ip htonl p s =
    if has_bit (byte p 14) 0x04
    then (let new_ip = htonl (word_at p 16) in
        record s {
          ip_addr = new_ip;
          bcast_addr = broadcast_of new_ip s.subnet_mask;
          debug_report = true;
        })
    else s

unfoldable pub program_mask : (ℕ → ℕ) → Packet → NetState → NetState
program_mask htonl p s =
    if has_bit (byte p 14) 0x02
    then (let new_mask = htonl (word_at p 20) in
        record s {
          subnet_mask = new_mask;
          bcast_addr = broadcast_of s.ip_addr new_mask;
          debug_report = true;
        })
    else s

unfoldable pub program_gateway : (ℕ → ℕ) → Packet → NetState → NetState
program_gateway htonl p s =
    if has_bit (byte p 14) 0x10
    then record s { gateway = htonl (word_at p 26); debug_report = true }
    else s

-- What the command programs. DHCP and the reset to defaults change the report only.
unfoldable pub program : (ℕ → ℕ) → Packet → NetState → NetState
program htonl p s =
    if has_bit (byte p 14) 0x40
    then record s { debug_report = true }
    else if has_bit (byte p 14) 0x08
    then record s { debug_report = true }
    else program_gateway htonl p (program_mask htonl p (program_ip htonl p s))

-- `handle_ipprog`; `program_c` tells whether that callback is set.
unfoldable pub handle_ipprog : (ℕ → ℕ) → Bool → Bool → Packet → NetState → NetState × List ProgEvent
handle_ipprog htonl handled program_c p s =
    let s' = record s { reply_addr = p.from } in
    if handled
    then (s', [])
    else if not (has_bit (byte p 14) 0x80)
    then (s', poll_reply_built ∷ ip_reply_sent ∷ [])
    else (
      program htonl p s',
      (if program_c then program_called ∷ [] else [])
          ++ (poll_reply_built ∷ poll_reply_sent ∷ ip_reply_sent ∷ []),
    )
