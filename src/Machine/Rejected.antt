-- ===== src/Machine/Rejected.antt =====
-- What `handle` (artnet/receive.c) does with a packet whose payload has not all been received.
mod Tests
use libartnet.Base.{
  ℕ, ◌<◌, ◌≡◌, refl, arith, Bool, true, false, not, List, [], inl, inr, Bool-cases,
}
use libartnet.Machine.{Artnet, World, Effect, handle, parse_failed}
use libartnet.Base.{◌⊎◌}
use libartnet.Packet.{Packet, min_len, packet_length_is_valid}
use libartnet.Packet.Fields.{packet_fields_are_valid}
use libartnet.Packet.Payload.{payload_end, checks_payload, payload_received, length_received}

-- A packet that no recv callback takes, and that is shorter than its type, or, for an ArtDmx,
-- ArtNzs, ArtDataReply, ArtDiagData, ArtCommand, ArtTodData, ArtDirectoryReply, ArtFileFnMaster or
-- ArtMediaPatch, ends before the payload that its fields announce, leaves the node as it is but for
-- the report code, calls nothing and sends nothing.
pub handle_truncated :
    (w : World) (p : Packet) (a : Artnet)
    → w.recv_handled ≡ false
    → (p.length < min_len p.type)
      ⊎ ((checks_payload p.type ≡ true) × (p.length < payload_end p.type p))
    → handle w p a ≡ (parse_failed a, [])
unfolding handle
handle_truncated w p a free short_of = elim (Bool-cases (packet_length_is_valid p)) [
  | inr too_short ↦ simp (free, too_short) refl
  | inl long ↦ elim (Bool-cases (packet_fields_are_valid p)) [
    | inr wrong ↦ simp (free, long, wrong) refl
    | inl right ↦ elim short_of [
      | inl below ↦ absurd (omega (arith, length_received p long))
      | inr (checked, cut) ↦ absurd (omega (arith, payload_received p checked long right))
    ]
  ]
]
