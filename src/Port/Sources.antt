-- ===== src/Port/Sources.antt =====
-- Which source an ArtDmx packet counts as, and what the port shows then.
use libartnet.Base.{ℕ, ◌≡◌, ◌≢◌, ◌<◌, refl, ◌∙◌, arith, false, [], get_or, get_or-memcpy, min}
use libartnet.Port.{
  OutputPort, Env, artnet_dmx_length, is_merging, expire_sources, check_merge_timeouts,
}
use libartnet.Port.{stage_output_data, commit_output_data, merge, stage_merged, flush_sync_output}
use libartnet.Port.Dmx.{DmxPacket, route, dmx_port, cancel_merge, activate, stamp, merge_a, merge_b}
use libartnet.Port.Dmx.{take_alone_a, become_a}
use libartnet.Port.Bounds.{IsValid, IsPacket, check_merge_timeouts-IsValid}
use libartnet.Port.Merge.{combine, merge_a_slot, merge_b_slot}
use libartnet.Time.{is_older, merge_timeout_ms}

-- Neither source has been silent for longer than the merge timeout.
pub record IsLive (env : Env) (port : OutputPort) : Type 0 where
  pub live_a : is_older env.now port.time_a merge_timeout_ms ≡ false
  pub live_b : is_older env.now port.time_b merge_timeout_ms ≡ false

pub check_merge_timeouts_live :
    (env : Env) (port : OutputPort) → IsLive env port → check_merge_timeouts env port ≡ (port, [])
unfolding check_merge_timeouts expire_sources is_merging
check_merge_timeouts_live env port l = ground arith

pub cancel_merge_none :
    (env : Env) (p : DmxPacket) (port : OutputPort)
    → port.cancel_merge_pending ≡ false
    → cancel_merge env p port ≡ port
unfolding cancel_merge
cancel_merge_none env p port h = rw h

-- The packet is from source A, and source B is another address.
pub record IsFromA (p : DmxPacket) (port : OutputPort) : Type 0 where
  pub address_a : port.ip_a ≡ p.source
  pub physical_a : port.physical_a ≡ p.physical
  pub known : p.source ≢ 0
  pub b_there : port.ip_b ≢ 0
  pub b_other : port.ip_b ≢ p.source

route_from_a :
    (env : Env) (id : ℕ) (p : DmxPacket) (port : OutputPort)
    → IsFromA p port
    → route env id p port.ip_a port.ip_b (activate p port) ≡ merge_a env id p (activate p port)
unfolding route
route_from_a env id p port f = ground arith

cancel-merge_a :
    (env : Env) (id : ℕ) (p : DmxPacket) (port : OutputPort)
    → (merge_a env id p port).0.cancel_merge_pending ≡ port.cancel_merge_pending
unfolding merge_a merge stage_merged flush_sync_output commit_output_data
cancel-merge_a env id p port = ground arith

activate-IsLive :
    {env : Env} (p : DmxPacket) (port : OutputPort) → IsLive env port → IsLive env (activate p port)
activate-IsLive p port l = record { live_a = l.live_a; live_b = l.live_b }

activate-IsValid : (p : DmxPacket) (port : OutputPort) → IsValid port → IsValid (activate p port)
activate-IsValid p port v = ground arith

-- While both sources are live and no cancel is pending, a packet from source A is merged.
dmx_port_from_a :
    (env : Env) (p : DmxPacket) (id : ℕ) (port : OutputPort)
    → IsLive env port
    → port.cancel_merge_pending ≡ false
    → IsFromA p port
    → (dmx_port env p id port).0 ≡ stamp env (merge_a env id p (activate p port)).0
unfolding dmx_port
dmx_port_from_a env p id port l c f = rw (
  check_merge_timeouts_live env (activate p port) (activate-IsLive p port l),
  route_from_a env id p port f,
  cancel_merge_none env p (merge_a env id p (activate p port)).0
      (cancel-merge_a env id p (activate p port) ∙ c),
)

-- With two live sources A and B at different addresses, no cancel pending and outside sync mode, a
-- packet from A puts on each slot that it carries the higher of its value and B's last one (HTP),
-- or its own value (LTP), and the output gets the packet's length.
pub dmx_port_merges_a :
    (env : Env) (p : DmxPacket) (id i : ℕ) (port : OutputPort)
    → IsPacket p
    → IsValid port
    → env.sync_mode ≡ false
    → port.cancel_merge_pending ≡ false
    → IsLive env port
    → IsFromA p port
    → i < p.data_length
    → let after = (dmx_port env p id port).0 in
      (get_or after.buffer i 0
        ≡ combine port.merge_mode (get_or p.slots i 0) (get_or port.data_b i 0))
      × (after.length ≡ p.data_length)
dmx_port_merges_a env p id i port q v off c l f h =
    rw (dmx_port_from_a env p id port l c f)
      (merge_a_slot env id i p (activate p port) q (activate-IsValid p port v) off h)

-- The packet is from source B, and source A is another address.
pub record IsFromB (p : DmxPacket) (port : OutputPort) : Type 0 where
  pub address_b : port.ip_b ≡ p.source
  pub physical_b : port.physical_b ≡ p.physical
  pub known : p.source ≢ 0
  pub a_there : port.ip_a ≢ 0
  pub a_other : port.ip_a ≢ p.source

route_from_b :
    (env : Env) (id : ℕ) (p : DmxPacket) (port : OutputPort)
    → IsFromB p port
    → route env id p port.ip_a port.ip_b (activate p port) ≡ merge_b env id p (activate p port)
unfolding route
route_from_b env id p port f = ground arith

pub cancel-merge_b :
    (env : Env) (id : ℕ) (p : DmxPacket) (port : OutputPort)
    → (merge_b env id p port).0.cancel_merge_pending ≡ port.cancel_merge_pending
unfolding merge_b merge stage_merged flush_sync_output commit_output_data
cancel-merge_b env id p port = ground arith

dmx_port_from_b :
    (env : Env) (p : DmxPacket) (id : ℕ) (port : OutputPort)
    → IsLive env port
    → port.cancel_merge_pending ≡ false
    → IsFromB p port
    → (dmx_port env p id port).0 ≡ stamp env (merge_b env id p (activate p port)).0
unfolding dmx_port
dmx_port_from_b env p id port l c f = rw (
  check_merge_timeouts_live env (activate p port) (activate-IsLive p port l),
  route_from_b env id p port f,
  cancel_merge_none env p (merge_b env id p (activate p port)).0
      (cancel-merge_b env id p (activate p port) ∙ c),
)

-- With two live sources A and B at different addresses, no cancel pending and outside sync mode, a
-- packet from B puts on each slot that it carries the higher of its value and A's last one (HTP),
-- or its own value (LTP), and the output gets the packet's length.
dmx_port_merges_b :
    (env : Env) (p : DmxPacket) (id i : ℕ) (port : OutputPort)
    → IsPacket p
    → IsValid port
    → env.sync_mode ≡ false
    → port.cancel_merge_pending ≡ false
    → IsLive env port
    → IsFromB p port
    → i < p.data_length
    → let after = (dmx_port env p id port).0 in
      (get_or after.buffer i 0
        ≡ combine port.merge_mode (get_or p.slots i 0) (get_or port.data_a i 0))
      × (after.length ≡ p.data_length)
dmx_port_merges_b env p id i port q v off c l f h =
    rw (dmx_port_from_b env p id port l c f)
      (merge_b_slot env id i p (activate p port) q (activate-IsValid p port v) off h)

-- The packet is from neither of two sources.
pub record IsThird (p : DmxPacket) (port : OutputPort) : Type 0 where
  pub a_there : port.ip_a ≢ 0
  pub b_there : port.ip_b ≢ 0
  pub not_a : port.ip_a ≢ p.source
  pub not_b : port.ip_b ≢ p.source

route_third :
    (env : Env) (id : ℕ) (p : DmxPacket) (port port' : OutputPort)
    → IsThird p port
    → route env id p port.ip_a port.ip_b port' ≡ (port', [])
unfolding route
route_third env id p port port' f = ground arith

-- What the timeouts leave alone.
abbrev pub Kept : OutputPort → OutputPort → Type 0
Kept port left =
    (left.cancel_merge_pending ≡ port.cancel_merge_pending)
    × ((left.buffer ≡ port.buffer)
        × (left.length ≡ port.length)
        × (left.sync_data ≡ port.sync_data)
        × (left.sync_pending ≡ port.sync_pending)
        × (left.data_a ≡ port.data_a)
        × (left.data_b ≡ port.data_b))

pub check_merge_timeouts-Kept :
    (env : Env) (port : OutputPort) → Kept port (check_merge_timeouts env port).0
unfolding check_merge_timeouts expire_sources
check_merge_timeouts-Kept env port = ground arith

-- With no cancel pending a third source is discarded: the output, what is staged for it, and the
-- data of both sources stay as they were, in sync mode too.
pub dmx_port_discards_third :
    (env : Env) (p : DmxPacket) (id : ℕ) (port : OutputPort)
    → port.cancel_merge_pending ≡ false
    → IsThird p port
    → let after = (dmx_port env p id port).0 in
      (after.buffer ≡ port.buffer)
      × (after.length ≡ port.length)
      × (after.sync_data ≡ port.sync_data)
      × (after.sync_pending ≡ port.sync_pending)
      × (after.data_a ≡ port.data_a)
      × (after.data_b ≡ port.data_b)
unfolding dmx_port
dmx_port_discards_third env p id port c f =
    rw
      (
        route_third env id p port (check_merge_timeouts env (activate p port)).0 f,
        cancel_merge_none env p (check_merge_timeouts env (activate p port)).0 (checked.0 ∙ c),
      )
      checked.1
  where
    checked : Kept (activate p port) (check_merge_timeouts env (activate p port)).0
    checked = check_merge_timeouts-Kept env (activate p port)

pub check_merge_timeouts-no_b :
    (env : Env) (port : OutputPort) → port.ip_b ≡ 0 → (check_merge_timeouts env port).0.ip_b ≡ 0
unfolding check_merge_timeouts expire_sources
check_merge_timeouts-no_b env port b = ground arith

become_a-IsValid : (p : DmxPacket) (port : OutputPort) → IsValid port → IsValid (become_a p port)
become_a-IsValid p port v = ground arith

pub left-IsValid :
    (env : Env) (p : DmxPacket) (port : OutputPort)
    → IsValid port
    → IsValid (check_merge_timeouts env (activate p port)).0
left-IsValid env p port v =
    check_merge_timeouts-IsValid env (activate p port) (activate-IsValid p port v)

route_first :
    (env : Env) (id : ℕ) (p : DmxPacket) (ip_a ip_b : ℕ) (port : OutputPort)
    → ip_a ≡ 0
    → ip_b ≡ 0
    → route env id p ip_a ip_b port ≡ (take_alone_a env p (become_a p port), [])
unfolding route
route_first env id p ip_a ip_b port a b = rw (a, b)

-- A lone packet from A goes straight to the output.
alone_a_output :
    (env : Env) (p : DmxPacket) (i : ℕ) (port : OutputPort)
    → IsPacket p
    → IsValid port
    → env.sync_mode ≡ false
    → i < p.data_length
    → let after = take_alone_a env p port in
      (get_or after.buffer i 0 ≡ get_or p.slots i 0)
      × (after.length ≡ p.data_length)
      × (after.ip_a ≡ port.ip_a)
      × (after.ip_b ≡ port.ip_b)
      × (after.cancel_merge_pending ≡ port.cancel_merge_pending)
unfolding take_alone_a stage_output_data commit_output_data
alone_a_output env p i port q v off h = rw off (
  get_or-memcpy port.buffer p.slots (min (min p.data_length artnet_dmx_length) artnet_dmx_length) i
      0 (omega arith) (omega arith) (omega arith),
  omega arith,
  refl,
  refl,
  refl,
)

-- Outside sync mode and with no cancel pending, the first packet on a port that has no source shows
-- its slots on the output, makes its sender source A, and leaves B empty.
pub dmx_port_first :
    (env : Env) (p : DmxPacket) (id i : ℕ) (port : OutputPort)
    → IsPacket p
    → IsValid port
    → env.sync_mode ≡ false
    → port.cancel_merge_pending ≡ false
    → port.ip_a ≡ 0
    → port.ip_b ≡ 0
    → i < p.data_length
    → let after = (dmx_port env p id port).0 in
      (get_or after.buffer i 0 ≡ get_or p.slots i 0)
      × (after.length ≡ p.data_length)
      × (after.ip_a ≡ p.source)
      × (after.ip_b ≡ 0)
unfolding dmx_port
dmx_port_first env p id i port q v off c a b h =
    rw
      (
        route_first env id p port.ip_a port.ip_b left a b,
        cancel_merge_none env p (take_alone_a env p (become_a p left)) (out.4 ∙ kept.0 ∙ c),
      )
      (out.0, out.1, out.2, out.3 ∙ check_merge_timeouts-no_b env (activate p port) b)
  where
    left : OutputPort
    left = (check_merge_timeouts env (activate p port)).0

    kept : Kept (activate p port) left
    kept = check_merge_timeouts-Kept env (activate p port)

    out :
        let after = take_alone_a env p (become_a p left) in
        (get_or after.buffer i 0 ≡ get_or p.slots i 0)
        × (after.length ≡ p.data_length)
        × (after.ip_a ≡ p.source)
        × (after.ip_b ≡ left.ip_b)
        × (after.cancel_merge_pending ≡ left.cancel_merge_pending)
    out =
        alone_a_output env p i (become_a p left) q
          (become_a-IsValid p left (left-IsValid env p port v)) off h
