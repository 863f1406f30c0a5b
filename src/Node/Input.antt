-- ===== src/Node/Input.antt =====
-- `_artnet_handle_input` (artnet/receive.c): ArtInput turns the input ports of a node on and off.
use libartnet.Base.{
  ℕ, zero, suc, ◌+◌, ◌≤◌, ◌<◌, ◌≡◌, ◌∙◌, ap, refl, arith, passes, passes_at, min, Bool, true, false,
  ◌||◌, not, List, [], ◌∷◌, some, inl, inr, Bool-cases,
}
use libartnet.Base.{if◌then◌else◌, ◌==◌, ltb, bit_or, bit_and, get_elem?, eok, earg, and_mask, ◌%◌}
use libartnet.Node.{Node, NodeType, node, msrv}
use libartnet.Node.Address.{bind_index_matches}
use libartnet.Node.Send.{artnet_send_dmx}
use libartnet.Packet.{Packet, byte}
use libartnet.Port.{InputPort, has_bit, clear_bit, port_status_input_disabled}

abbrev pub port_disable_mask : ℕ
port_disable_mask = 0x01

unfoldable pub set_input : ℕ → InputPort → InputPort
set_input flags port =
    if has_bit flags port_disable_mask
    then record port { port_status = bit_or port.port_status port_status_input_disabled }
    else record port { port_status = clear_bit port.port_status port_status_input_disabled }

-- The loop over the first `ports` inputs, from number `i` on
unfoldable pub set_inputs : Packet → ℕ → ℕ → List InputPort → List InputPort
set_inputs p i zero ports = ports
set_inputs p i (suc n) [] = []
set_inputs p i (suc n) (port ∷ ports) =
    set_input (byte p (16 + i)) port ∷ set_inputs p (suc i) n ports

abbrev pub answers_input : NodeType → Bool
answers_input node = true
answers_input msrv = true
answers_input _ = false

-- `_artnet_handle_input`; the Bool tells whether an ArtPollReply is built and sent.
unfoldable pub artnet_handle_input : Bool → Packet → Node → Node × Bool
artnet_handle_input handled p n =
    if handled || not (answers_input n.node_type) || not (bind_index_matches n (byte p 13))
    then (n, false)
    else (
      record n { reply_addr = p.from; inputs = set_inputs p 0 (min (byte p 15) 4) n.inputs },
      true,
    )

get_elem?-set_inputs :
    (p : Packet) (i n j : ℕ) (ports : List InputPort) (port : InputPort)
    → get_elem? ports j ≡ some port
    → get_elem? (set_inputs p i n ports) j
      ≡ some (if ltb j n then set_input (byte p (16 + (i + j))) port else port)
unfolding set_inputs
get_elem?-set_inputs p i zero j ports port e =
    let past : ltb j 0 ≡ false = ground arith in e ∙ rw past refl
get_elem?-set_inputs p i (suc n) j [] port e = absurd (cc e)
get_elem?-set_inputs p i (suc n) zero (x ∷ ports) port e =
    let same : x ≡ port = cc e in
    let first : ltb 0 (suc n) ≡ true = ground arith in
    let at : i + 0 ≡ i = omega arith in rw (same, first, at) refl
get_elem?-set_inputs p i (suc n) (suc j) (x ∷ ports) port e =
    let at : suc i + j ≡ i + suc j = omega arith in
    let before : ltb (suc j) (suc n) ≡ ltb j n = ground arith in
    rw (before, ← at) (get_elem?-set_inputs p (suc i) n j ports port e)

sets : (s : ℕ) → s < 256 → has_bit (bit_or s 0x08) 0x08 ≡ true
unfolding has_bit passes
sets s h = passes_at (λ s. has_bit (bit_or s 0x08) 0x08) 256 s h refl

clears : (s : ℕ) → s < 256 → not (has_bit (clear_bit s 0x08) 0x08) ≡ true
unfolding has_bit clear_bit passes
clears s h = passes_at (λ s. not (has_bit (clear_bit s 0x08) 0x08)) 256 s h refl

not_lem : (b : Bool) → not b ≡ true → b ≡ false
not_lem true e = absurd (cc e)
not_lem false e = refl

set_input-disabled :
    (flags : ℕ) (port : InputPort)
    → port.port_status < 256
    → has_bit (set_input flags port).port_status port_status_input_disabled
      ≡ has_bit flags port_disable_mask
unfolding set_input
set_input-disabled flags port h = elim (Bool-cases (has_bit flags 0x01)) [
  | inl off ↦ rw off (sets port.port_status h)
  | inr on ↦ rw on (not_lem _ (clears port.port_status h))
]

set_input-address :
    (flags : ℕ) (port : InputPort) → (set_input flags port).port_addr ≡ port.port_addr
unfolding set_input
set_input-address flags port = elim (Bool-cases (has_bit flags 0x01)) [
  | inl off ↦ rw off refl
  | inr on ↦ rw on refl
]

set_input_sends :
    (flags now j len : ℕ) (slots : List ℕ) (port : InputPort)
    → port.port_status < 256
    → 2 ≤ len
    → len ≤ 512
    → len % 2 ≡ 0
    → (artnet_send_dmx true true now j len slots (set_input flags port)).1
      ≡ (if has_bit flags port_disable_mask then earg else eok)
unfolding artnet_send_dmx
set_input_sends flags now j len slots port byte_status low high even =
    let parity : bit_and len 1 ≡ 0 = omega (arith, and_mask 1 len) in
    let in_range : ltb len 2 || ltb 512 len || not (bit_and len 1 == 0) ≡ false =
      rw parity (ground arith) in
    elim (Bool-cases (has_bit flags 0x01)) [
      | inl off ↦ rw (in_range, set_input-disabled flags port byte_status, off) refl
      | inr on ↦ rw (in_range, set_input-disabled flags port byte_status, on) refl
    ]

-- Where a node answers ArtInput, no callback takes it and the packet is for its page, each input
-- port that the packet counts keeps its Port-Address and afterwards sends ArtDmx of an even length
-- from 2 to 512, on a node that is on, exactly if its flag does not disable it; else that call
-- returns ARTNET_EARG.
pub artnet_handle_input_sends :
    (p : Packet) (n : Node) (j now len : ℕ) (slots : List ℕ) (port : InputPort)
    → answers_input n.node_type ≡ true
    → bind_index_matches n (byte p 13) ≡ true
    → get_elem? n.inputs j ≡ some port
    → port.port_status < 256
    → j < min (byte p 15) 4
    → 2 ≤ len
    → len ≤ 512
    → len % 2 ≡ 0
    → (after : InputPort) × (get_elem? (artnet_handle_input false p n).0.inputs j ≡ some after)
      × (after.port_addr ≡ port.port_addr)
      × ((artnet_send_dmx true true now j len slots after).1
          ≡ (if has_bit (byte p (16 + j)) port_disable_mask then earg else eok))
unfolding artnet_handle_input
artnet_handle_input_sends p n j now len slots port answers matches at byte_status counted low high
      even =
    let in_count : ltb j (min (byte p 15) 4) ≡ true = ground arith in
    (
      set_input (byte p (16 + j)) port,
      rw (answers, matches)
          (get_elem?-set_inputs p 0 (min (byte p 15) 4) j n.inputs port at
            ∙ rw in_count (ap (λ k. some (set_input (byte p (16 + k)) port)) (omega arith))),
      set_input-address (byte p (16 + j)) port,
      set_input_sends (byte p (16 + j)) now j len slots port byte_status low high even,
    )
