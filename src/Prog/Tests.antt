-- ===== src/Prog/Tests.antt =====
-- An ArtIpProg for address 3, mask 255 and gateway 1.
use libartnet.Base.{ℕ, ◌≡◌, refl, arith, true, false}
use libartnet.Packet.{Packet}
use libartnet.Port.{has_bit}
use libartnet.Prog.{NetState, handle_ipprog, broadcast_of}
use libartnet.Prog.Programmed.{prog_packet, handle_ipprog-artnet_tx_ipprog}

abbrev net_before : NetState
net_before = record {
  reply_addr = 0;
  ip_addr = 2;
  bcast_addr = broadcast_of 2 255;
  subnet_mask = 255;
  gateway = 0;
  debug_report = true;
}

-- On a machine whose byte order is that of the network
abbrev same_order : ℕ → ℕ
same_order w = w

abbrev programming : Packet
programming = prog_packet same_order 10 0x96 3 255 1

programmed_example :
    (handle_ipprog same_order false true programming net_before).0 ≡ record net_before {
      reply_addr = 10;
      ip_addr = 3;
      subnet_mask = 255;
      gateway = 1;
      bcast_addr = broadcast_of 3 255;
      debug_report = true;
    }
unfolding has_bit
programmed_example =
    handle_ipprog-artnet_tx_ipprog same_order same_order true 10 0x96 3 255 1 net_before
      (λ w h. refl) (λ w h. h) (omega arith) (omega arith) (omega arith) refl refl refl refl refl
      refl
