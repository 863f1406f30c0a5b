-- ===== src/Port/Stale.antt =====
-- `handle_dmx` reads `ipA` and `ipB` before `check_merge_timeouts` clears them, and decides by what
-- it read.
use libartnet.Base.{ℕ, ◌≡◌, ◌≢◌, ◌<◌, refl, ◌∙◌, ap, arith, true, false, get_or, bit_or, max}
use libartnet.Base.{passes, passes_at}
use libartnet.Port.{OutputPort, Env, htp, is_merging, has_bit, check_merge_timeouts, expire_sources}
use libartnet.Port.{merge, stage_merged, flush_sync_output, commit_output_data}
use libartnet.Port.{port_status_merge, port_status_act_mask}
use libartnet.Port.Dmx.{DmxPacket, route, dmx_port, activate, become_b, merge_b, announce_merge}
use libartnet.Port.Bounds.{IsValid, IsPacket}
use libartnet.Port.Merge.{combine, merge_b_slot}
use libartnet.Port.Sources.{
  check_merge_timeouts-Kept, cancel_merge_none, cancel-merge_b, left-IsValid,
}
use libartnet.Time.{is_older, merge_timeout_ms}

-- Source A is stored, but it was last heard longer ago than the merge timeout; B is empty, and the
-- packet comes from another address.
pub record IsTakeover (env : Env) (p : DmxPacket) (port : OutputPort) : Type 0 where
  pub old : is_older env.now port.time_a merge_timeout_ms ≡ true
  pub a_stored : port.ip_a ≢ 0
  pub a_other : port.ip_a ≢ p.source
  pub b_empty : port.ip_b ≡ 0

route_takeover :
    (env : Env) (id : ℕ) (p : DmxPacket) (port left : OutputPort)
    → IsTakeover env p port
    → route env id p port.ip_a port.ip_b left
      ≡ announce_merge env (merge_b env id p (become_b p left))
unfolding route
route_takeover env id p port left t = ground arith

-- What the timeouts do then: A is cleared, and its data stays.
left_of :
    (env : Env) (port : OutputPort)
    → is_older env.now port.time_a merge_timeout_ms ≡ true
    → port.ip_b ≡ 0
    → let left = (check_merge_timeouts env port).0 in
      (left.ip_a ≡ 0) × (left.merge_mode ≡ port.merge_mode) × (left.port_status ≡ port.port_status)
unfolding check_merge_timeouts expire_sources is_merging
left_of env port old b = ground arith

merge_b_keeps :
    (env : Env) (id : ℕ) (p : DmxPacket) (port : OutputPort)
    → let after = (merge_b env id p port).0 in
      (after.ip_a ≡ port.ip_a) × (after.ip_b ≡ port.ip_b) × (after.port_status ≡ port.port_status)
unfolding merge_b merge stage_merged flush_sync_output commit_output_data
merge_b_keeps env id p port = ground arith

merge_bit_table :
    passes
      (λ s. has_bit (bit_or (bit_or s port_status_act_mask) port_status_merge) port_status_merge)
      256
    ≡ true
unfolding passes has_bit
merge_bit_table = refl

-- Outside sync mode, under HTP and with no cancel pending, a source that takes over from one that
-- has timed out is merged with that one's last data: the port drops A, yet shows on each slot the
-- higher of the packet's value and A's old one, and its status reports a merge.
pub dmx_port_takeover_stale :
    (env : Env) (p : DmxPacket) (id i : ℕ) (port : OutputPort)
    → IsPacket p
    → IsValid port
    → env.sync_mode ≡ false
    → port.cancel_merge_pending ≡ false
    → port.merge_mode ≡ htp
    → port.port_status < 256
    → IsTakeover env p port
    → i < p.data_length
    → let after = (dmx_port env p id port).0 in
      (after.ip_a ≡ 0)
      × (after.ip_b ≡ p.source)
      × (get_or after.buffer i 0 ≡ max (get_or p.slots i 0) (get_or port.data_a i 0))
      × (has_bit after.port_status port_status_merge ≡ true)
unfolding dmx_port
dmx_port_takeover_stale env p id i port q v off c m st t h =
    let active = activate p port in
    let left = (check_merge_timeouts env active).0 in
    let k = check_merge_timeouts-Kept env active in
    let l = left_of env active t.old t.b_empty in
    let joined = become_b p left in
    let e = merge_b_keeps env id p joined in
    let s =
      merge_b_slot env id i p joined q (become_b-IsValid p left (left-IsValid env p port v)) off
        h in
    rw
      (
        route_takeover env id p port left t,
        cancel_merge_none env p (announce_merge env (merge_b env id p joined)).0
            (cancel-merge_b env id p joined ∙ k.0 ∙ c),
      )
      (
        e.0 ∙ l.0,
        e.1,
        s.0
            ∙ ap (λ mode. combine mode (get_or p.slots i 0) (get_or left.data_a i 0)) (l.1 ∙ m)
            ∙ ap (λ a. max (get_or p.slots i 0) (get_or a i 0)) k.1.4,
        ap (λ b. has_bit (bit_or b port_status_merge) port_status_merge) (e.2 ∙ l.2)
            ∙ passes_at _ 256 port.port_status st merge_bit_table,
      )
  where
    become_b-IsValid :
        (p : DmxPacket) (port : OutputPort) → IsValid port → IsValid (become_b p port)
    become_b-IsValid p port v = ground arith
