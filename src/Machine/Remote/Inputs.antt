-- ===== src/Machine/Remote/Inputs.antt =====
-- ArtInput from a controller to a node, end to end.
use libartnet.Base.{
  ℕ, zero, suc, ◌+◌, ◌≤◌, ◌<◌, ◌≡◌, ◌%◌, refl, arith, true, false, List, [], ◌∷◌, some, get_or,
  get_elem?, min, if◌then◌else◌, earg, eok,
}
use libartnet.Machine.Remote.{input_bytes, artnet_send_input, programs_others, arrives}
use libartnet.Node.{Node}
use libartnet.Node.Address.{bind_index_matches}
use libartnet.Node.Input.{
  artnet_handle_input, answers_input, artnet_handle_input_sends, port_disable_mask,
}
use libartnet.Node.Send.{artnet_send_dmx}
use libartnet.Packet.{Packet, input, byte, packet_length_is_valid, min_len}
use libartnet.Packet.Fields.{packet_fields_are_valid, type_is_valid, input_is_valid}
use libartnet.Port.{InputPort, has_bit}
use libartnet.Transmit.{TxState}
use libartnet.Transmit.Accepted.{version}
use libartnet.Wire.{short_get_high_byte, short_get_low_byte}

-- The setting of a port in the bytes of the packet
input_setting :
    (numbports a b c d j : ℕ)
    → j < 4
    → get_or (input_bytes numbports (a ∷ b ∷ c ∷ d ∷ [])) (16 + j) 0
      ≡ get_or (a ∷ b ∷ c ∷ d ∷ []) j 0
input_setting k a b c d zero h = refl
input_setting k a b c d (suc zero) h = refl
input_setting k a b c d (suc (suc zero)) h = refl
input_setting k a b c d (suc (suc (suc zero))) h = refl
input_setting k a b c d (suc (suc (suc (suc j)))) h = absurd (omega arith)

few_ports : (k : ℕ) → k ≤ 4 → (short_get_high_byte k ≡ 0) × (short_get_low_byte k ≡ k)
unfolding short_get_high_byte short_get_low_byte
few_ports zero h = (refl, refl)
few_ports (suc zero) h = (refl, refl)
few_ports (suc (suc zero)) h = (refl, refl)
few_ports (suc (suc (suc zero))) h = (refl, refl)
few_ports (suc (suc (suc (suc zero)))) h = (refl, refl)
few_ports (suc (suc (suc (suc (suc k))))) h = absurd (omega arith)

-- An ArtInput that a controller which is on, a server or a raw node, sends for a node of at most four
-- ports is accepted by it, and afterwards each of these ports of a node or media server, whose bind
-- index is 1, sends ArtDmx of an even length from 2 to 512 exactly if its setting does not disable it,
-- else that call returns ARTNET_EARG.
pub artnet_send_input_disables :
    (s : TxState) (from to numbports j now len a b c d : ℕ) (slots : List ℕ) (n : Node)
    (port : InputPort)
    → s.mode_on ≡ true
    → programs_others s.node_type ≡ true
    → numbports ≤ 4
    → answers_input n.node_type ≡ true
    → bind_index_matches n 1 ≡ true
    → get_elem? n.inputs j ≡ some port
    → port.port_status < 256
    → j < numbports
    → 2 ≤ len
    → len ≤ 512
    → len % 2 ≡ 0
    → let settings = a ∷ b ∷ c ∷ d ∷ [] in
      (p : Packet) × (arrives from (artnet_send_input s (some (to, numbports)) settings) ≡ some p)
      × (packet_length_is_valid p ≡ true)
      × (packet_fields_are_valid p ≡ true)
      × (after : InputPort) × (get_elem? (artnet_handle_input false p n).0.inputs j ≡ some after)
      × ((artnet_send_dmx true true now j len slots after).1
          ≡ (if has_bit (get_or settings j 0) port_disable_mask then earg else eok))
unfolding artnet_send_input packet_length_is_valid min_len packet_fields_are_valid type_is_valid
    input_is_valid
artnet_send_input_disables s from to numbports j now len a b c d slots n port on may few answers
      matches there status counted low high even =
    let (no_high, count) = few_ports numbports few in
    let p : Packet = record {
      length = 20;
      from = from;
      type = input;
      bytes = input_bytes numbports (a ∷ b ∷ c ∷ d ∷ []);
    } in
    let within : j < min (byte p 15) 4 = rw count (omega arith) in
    let (after, at, _, sends) =
      artnet_handle_input_sends p n j now len slots port answers matches there status within low
        high even in
    (
      p,
      rw (on, may) refl,
      refl,
      rw (version, no_high) refl,
      after,
      at,
      rw (← input_setting numbports a b c d j (omega arith)) sends,
    )
