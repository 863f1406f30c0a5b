-- ===== src/Poll/Tests.antt =====
-- A second controller polls with diagnostics.
use libartnet.Base.{◌≡◌, ◌↔◌, refl, true, false, List, [], ◌∷◌}
use libartnet.Packet.{Packet, poll}
use libartnet.Poll.{PollState, PortPair, handle_poll}
use libartnet.Poll.Diag.{IsFor, handle_poll_answers}

abbrev one_controller : PollState
one_controller = record {
  reply_addr = 0;
  send_apr_on_change = false;
  vlc_disabled = false;
  diag_enabled = true;
  diag_unicast = true;
  diag_controller_ips = 10 ∷ [];
  diag_priority = 0x80;
  apr_pending = false;
  apr_pending_time = 0;
}

abbrev diag_poll : Packet
diag_poll = record {
  length = 18;
  from = 20;
  type = poll;
  bytes =
      0x41 ∷ 0x72 ∷ 0x74 ∷ 0x2d ∷ 0x4e ∷ 0x65 ∷ 0x74 ∷ 0 ∷ 0 ∷ 0x20 ∷ 0 ∷ 14 ∷ 0x2c ∷ 0x10 ∷ 0 ∷ 5
      ∷ 0 ∷ 1 ∷ [];
}

abbrev one_pair : List PortPair
one_pair = record { output_enabled = true; output_addr = 3; input_addr = 0 } ∷ []

answers_example :
    ((handle_poll false false 1000 250 diag_poll one_pair one_controller).apr_pending ≡ true)
    ↔ ((false ≡ false) × (false ≡ false) × IsFor diag_poll one_pair)
answers_example = handle_poll_answers false false 1000 250 diag_poll one_pair one_controller refl
