-- ===== src/Poll.antt =====
-- `handle_poll` (artnet/receive.c): what an ArtPoll asks of a node, and whether it is answered. The
-- state is the part of `node_state_t` that it changes; `diag_controller_ips` and its count are a
-- list.
pub mod Diag
mod Tests
use libartnet.Base.{ℕ, ◌+◌, ◌*◌, ◌^◌, ◌%◌, Bool, true, false, ◌&&◌, ◌||◌, not, List, [], ◌∷◌, ◌++◌}
use libartnet.Base.{if◌then◌else◌, ◌==◌, ltb, leb}
use libartnet.Base
use libartnet.Port.{has_bit}
use libartnet.Packet.{Packet, byte}

pub record PollState : Type 0 where
  pub reply_addr : ℕ
  pub send_apr_on_change : Bool
  pub vlc_disabled : Bool
  pub diag_enabled : Bool
  pub diag_unicast : Bool
  pub diag_controller_ips : List ℕ
  pub diag_priority : ℕ
  pub apr_pending : Bool
  pub apr_pending_time : ℕ

-- What the target test reads of the ports with one number: the output's `port_enabled` and both
-- Port-Addresses.
pub record PortPair : Type 0 where
  pub output_enabled : Bool
  pub output_addr : ℕ
  pub input_addr : ℕ

abbrev pub target_addr : PortPair → ℕ
target_addr pair = if pair.output_enabled then pair.output_addr else pair.input_addr

abbrev pub any_between : ℕ → ℕ → List PortPair → Bool
any_between bottom top [] = false
any_between bottom top (pair ∷ pairs) =
    leb bottom (target_addr pair) && leb (target_addr pair) top || any_between bottom top pairs

-- Is the node among those that the poll targets? Outside Target Mode every node is.
unfoldable pub is_targeted : Packet → List PortPair → Bool
is_targeted p pairs =
    let top = byte p 14 * 256 + byte p 15 in
    let bottom = byte p 16 * 256 + byte p 17 in
    if has_bit (byte p 12) 0x20
    then bottom == 0 && top == 0 || any_between bottom top pairs
    else true

abbrev pub is_known : ℕ → List ℕ → Bool
is_known ip [] = false
is_known ip (known ∷ ips) = known == ip || is_known ip ips

-- A controller that asks for diagnostics is remembered, up to four.
unfoldable pub remember_controller : ℕ → List ℕ → List ℕ
remember_controller ip ips =
    if not (is_known ip ips) && ltb (Base.length ips) 4 then ips ++ (ip ∷ []) else ips

-- The diagnostic flags of the poll
unfoldable pub configure_diag : Packet → PollState → PollState
configure_diag p st =
    let ips = remember_controller p.from st.diag_controller_ips in
    if has_bit (byte p 12) 0x04
    then record st {
      diag_controller_ips = ips;
      diag_enabled = true;
      diag_unicast = if ltb 1 (Base.length ips) then false else has_bit (byte p 12) 0x08;
      diag_priority = if ltb (byte p 13) st.diag_priority then byte p 13 else st.diag_priority;
    }
    else st

-- The flags that hold for every poll
abbrev pub note_poll : Packet → PollState → PollState
note_poll p st = record st {
  reply_addr = p.from;
  send_apr_on_change = has_bit (byte p 12) 0x02;
  vlc_disabled = has_bit (byte p 12) 0x10;
}

-- `handle_poll`; `is_raw` for a raw node, `delay` for `rand() % 1000`.
unfoldable pub handle_poll : Bool → Bool → ℕ → ℕ → Packet → List PortPair → PollState → PollState
handle_poll handled is_raw now delay p pairs st =
    if handled || is_raw
    then st
    else if is_targeted p pairs
    then record (configure_diag p (note_poll p st)) {
      apr_pending = true;
      apr_pending_time = (now + delay) % 2 ^ 64;
    }
    else note_poll p st
