-- ===== src/Port/Bounds.antt =====
-- No operation on an output port leaves its buffers: their sizes, and the lengths kept beside them.
use libartnet.Base.{
  ℕ, ◌≤◌, ◌≡◌, refl, ◌∙◌, ap, arith, Bool, true, false, List, [], ◌∷◌, suc, zero, min,
}
use libartnet.Base.{memcpy, length-memcpy, length-replicate, Bool-cases, inl, inr, if_keeps}
use libartnet.Base
use libartnet.Port.{
  OutputPort, Env, Event, MergeMode, htp, ltp, artnet_dmx_length, commit_output_data,
  stage_output_data,
}
use libartnet.Port.{
  flush_sync_output, htp_merge, merged_data, stage_merged, merge, expire_sources,
  check_merge_timeouts, clear_bit, port_status_merge,
}
use libartnet.Port.Dmx.{
  DmxPacket, take_alone_a, take_alone_b, merge_a, merge_b, route, route_cases, cancel_merge,
  dmx_port, announce_merge, become_a, become_b,
}

pub record IsValid (port : OutputPort) : Type 0 where
  pub size : Base.length port.buffer ≡ artnet_dmx_length
  pub size_a : Base.length port.data_a ≡ artnet_dmx_length
  pub size_b : Base.length port.data_b ≡ artnet_dmx_length
  pub sync_size : Base.length port.sync_data ≡ artnet_dmx_length
  pub failsafe_size : Base.length port.failsafe_data ≡ artnet_dmx_length
  pub fits : port.length ≤ artnet_dmx_length
  pub sync_fits : port.sync_length ≤ artnet_dmx_length
  pub failsafe_fits : port.failsafe_length ≤ artnet_dmx_length

pub length-htp_merge :
    (n : ℕ) (out a b : List ℕ) → Base.length (htp_merge n out a b) ≡ Base.length out
unfolding htp_merge
length-htp_merge zero out a b = refl
length-htp_merge (suc n) [] a b = refl
length-htp_merge (suc n) (o ∷ out) [] b = refl
length-htp_merge (suc n) (o ∷ out) (x ∷ a) [] = refl
length-htp_merge (suc n) (o ∷ out) (x ∷ a) (y ∷ b) = ap suc (length-htp_merge n out a b)

pub commit_output_data-IsValid :
    (port : OutputPort) (src : List ℕ) (len : ℕ)
    → IsValid port
    → IsValid (commit_output_data port src len)
unfolding commit_output_data
commit_output_data-IsValid port src len v =
    ground (arith, length-memcpy port.buffer src (min len artnet_dmx_length))

pub stage_output_data-IsValid :
    (sync_mode : Bool) (port : OutputPort) (src : List ℕ) (len : ℕ)
    → IsValid port
    → IsValid (stage_output_data sync_mode port src len)
unfolding stage_output_data
stage_output_data-IsValid true port src len v =
    ground (arith, length-memcpy port.sync_data src (min len artnet_dmx_length))
stage_output_data-IsValid false port src len v =
    commit_output_data-IsValid port src (min len artnet_dmx_length) v

pub flush_sync_output-IsValid :
    (dmx_c : Bool) (id : ℕ) (port : OutputPort)
    → IsValid port
    → IsValid (flush_sync_output dmx_c id port).0
unfolding flush_sync_output
flush_sync_output-IsValid dmx_c id port v =
    if_keeps (λ (r : OutputPort × List Event). IsValid r.0) port.sync_pending
      (cleared (commit_output_data-IsValid port port.sync_data port.sync_length v)) v
  where
    cleared : {p : OutputPort} → IsValid p → IsValid (record p { sync_pending = false })
    cleared w = ground arith

pub length-merged_data :
    (mode : MergeMode) (port : OutputPort) (len : ℕ) (latest : List ℕ)
    → Base.length (merged_data mode port len latest) ≡ Base.length port.sync_data
unfolding merged_data
length-merged_data htp port len latest = length-htp_merge len port.sync_data port.data_a port.data_b
length-merged_data ltp port len latest = length-memcpy port.sync_data latest len

stage_merged-IsValid :
    (port : OutputPort) (len : ℕ) (latest : List ℕ)
    → len ≤ artnet_dmx_length
    → IsValid port
    → IsValid (stage_merged port len latest)
unfolding stage_merged
stage_merged-IsValid port len latest h v =
    ground (arith, length-merged_data port.merge_mode port len latest)

pub merge-IsValid :
    (env : Env) (id : ℕ) (port : OutputPort) (len : ℕ) (latest : List ℕ)
    → len ≤ artnet_dmx_length
    → IsValid port
    → IsValid (merge env id port len latest).0
unfolding merge
merge-IsValid env id port len latest h v = elim (Bool-cases env.sync_mode) [
  | inl on ↦ rw on (stage_merged-IsValid port len latest h v)
  | inr off ↦ rw off (
      flush_sync_output-IsValid env.dmx_c id (stage_merged port len latest)
        (stage_merged-IsValid port len latest h v))
]

pub check_merge_timeouts-IsValid :
    (env : Env) (port : OutputPort) → IsValid port → IsValid (check_merge_timeouts env port).0
unfolding check_merge_timeouts expire_sources
check_merge_timeouts-IsValid env port v =
    if_keeps (λ (r : OutputPort × List Event). IsValid r.0) _
      (expired (clear_bit port.port_status port_status_merge)) left
  where
    left : IsValid (expire_sources env.now port)
    left = ground arith

    expired : (s : ℕ) → IsValid (record (expire_sources env.now port) { port_status = s })
    expired s = ground arith

-- A packet's slots are the 512 bytes of its data field, of which at most 512 count.
pub record IsPacket (p : DmxPacket) : Type 0 where
  pub slots_size : Base.length p.slots ≡ artnet_dmx_length
  pub length_fits : p.data_length ≤ artnet_dmx_length

alone_a-IsValid :
    (env : Env) (p : DmxPacket) (port : OutputPort)
    → IsValid port
    → IsValid (take_alone_a env p port)
unfolding take_alone_a
alone_a-IsValid env p port v =
    stage_output_data-IsValid env.sync_mode _ p.slots p.data_length
      (ground (arith, length-memcpy port.data_a p.slots p.data_length))

alone_b-IsValid :
    (env : Env) (p : DmxPacket) (port : OutputPort)
    → IsValid port
    → IsValid (take_alone_b env p port)
unfolding take_alone_b
alone_b-IsValid env p port v =
    stage_output_data-IsValid env.sync_mode _ p.slots p.data_length
      (ground (arith, length-memcpy port.data_b p.slots p.data_length))

merge_a-IsValid :
    (env : Env) (id : ℕ) (p : DmxPacket) (port : OutputPort)
    → IsPacket p
    → IsValid port
    → IsValid (merge_a env id p port).0
unfolding merge_a
merge_a-IsValid env id p port q v =
    merge-IsValid env id _ p.data_length _ q.length_fits
      (ground (arith, length-memcpy port.data_a p.slots p.data_length))

merge_b-IsValid :
    (env : Env) (id : ℕ) (p : DmxPacket) (port : OutputPort)
    → IsPacket p
    → IsValid port
    → IsValid (merge_b env id p port).0
unfolding merge_b
merge_b-IsValid env id p port q v =
    merge-IsValid env id _ p.data_length _ q.length_fits
      (ground (arith, length-memcpy port.data_b p.slots p.data_length))

cancel_merge-IsValid :
    (env : Env) (p : DmxPacket) (port : OutputPort)
    → IsValid port
    → IsValid (cancel_merge env p port)
unfolding cancel_merge
cancel_merge-IsValid env p port v = ground (
  arith,
  length-memcpy port.data_a p.slots p.data_length,
  length-replicate {A = ℕ} artnet_dmx_length 0,
)

announce :
    (env : Env) (r : OutputPort × List Event) → IsValid r.0 → IsValid (announce_merge env r).0
announce env (port, events) v = ground arith

-- Each of the eight routes keeps the port valid.
route-IsValid :
    (env : Env) (id : ℕ) (p : DmxPacket) (ip_a ip_b : ℕ) (port : OutputPort)
    → IsPacket p
    → IsValid port
    → IsValid (route env id p ip_a ip_b port).0
route-IsValid env id p ip_a ip_b port q v =
    route_cases (λ r. IsValid r.0) env id p ip_a ip_b port (alone_a-IsValid env p _ (ground arith))
      (alone_a-IsValid env p port v) (alone_b-IsValid env p port v)
      (announce env (merge_b env id p (become_b p port))
        (merge_b-IsValid env id p (become_b p port) q (ground arith)))
      (announce env (merge_a env id p (become_a p port))
        (merge_a-IsValid env id p (become_a p port) q (ground arith)))
      (merge_a-IsValid env id p port q v) (merge_b-IsValid env id p port q v) v

-- An ArtDmx packet leaves a valid port valid: nothing is written outside its buffers.
pub dmx_port-IsValid :
    (env : Env) (p : DmxPacket) (id : ℕ) (port : OutputPort)
    → IsPacket p
    → IsValid port
    → IsValid (dmx_port env p id port).0
unfolding dmx_port
dmx_port-IsValid env p id port q v = stamped (
    cancel_merge-IsValid env p _ (
      route-IsValid env id p port.ip_a port.ip_b _ q
        (check_merge_timeouts-IsValid env _ (ground arith))))
  where
    stamped :
        {port' : OutputPort}
        → IsValid port'
        → IsValid (record port' { last_dmx_time = env.now; failsafe_triggered = false })
    stamped v' = ground arith
