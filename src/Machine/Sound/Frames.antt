-- ===== src/Machine/Sound/Frames.antt =====
-- The output ports under ArtDmx, ArtSync, ArtNzs and the time-outs: these keep a port's Port-Address
-- and its table of devices.
use Prim.{tt}
use libartnet.Base.{
  ℕ, zero, suc, ◌≡◌, refl, ◌∙◌, Bool, false, ◌&&◌, List, [], ◌∷◌, ◌==◌, if_keeps, Bool-cases, inl,
  inr,
}
use libartnet.Machine.Sound.{Exactly, IsSoundOutput, IsSoundNode}
use libartnet.Node.{
  Node, FailsafeMode, hold, zeros, full, scene, each_port, dmx_step, sync_step, nzs_port, nzs_ports,
  failsafe_output, failsafe_step, unsync_step, check_output_timeouts, handle_dmx, handle_sync,
  handle_nzs, env_of, universe, any_accepts, dmx_packet,
}
use libartnet.Node.Address.Rebuilt.{OutputsOn}
use libartnet.Node.Ports.{
  IsWhole, dmx_step-IsValid, sync_step-IsValid, nzs_port-IsValid, failsafe_step-IsValid,
  unsync_step-IsValid,
}
use libartnet.Packet.{Packet}
use libartnet.Port.{
  OutputPort, Env, Event, commit_output_data, stage_output_data, flush_sync_output, stage_merged,
  merge, check_merge_timeouts, expire_sources,
}
use libartnet.Port.Bounds.{IsValid}
use libartnet.Time.{artnet_is_timeout, artsync_timeout_ms}
use libartnet.Port.Dmx.{
  DmxPacket, take_alone_a, take_alone_b, merge_a, merge_b, route, route_cases, cancel_merge,
  dmx_port, receive_a, receive_b, announce_merge, become_a, become_b, activate,
}

-- The second port has the Port-Address and the table of the first.
abbrev pub Framed : OutputPort → OutputPort → Type 0
Framed old port = (port.port_addr ≡ old.port_addr) × (port.port_tod ≡ old.port_tod)

abbrev pub FramedBy : OutputPort → OutputPort × List Event → Type 0
FramedBy old r = Framed old r.0

stage-Framed :
    (sync_mode : Bool) (port : OutputPort) (src : List ℕ) (len : ℕ)
    → Framed port (stage_output_data sync_mode port src len)
unfolding stage_output_data commit_output_data
stage-Framed sync_mode port src len = if_keeps (Framed port) sync_mode (refl, refl) (refl, refl)

flush-Framed :
    (dmx_c : Bool) (i : ℕ) (port : OutputPort) → FramedBy port (flush_sync_output dmx_c i port)
unfolding flush_sync_output commit_output_data
flush-Framed dmx_c i port = if_keeps (FramedBy port) port.sync_pending (refl, refl) (refl, refl)

merge-Framed :
    (env : Env) (i : ℕ) (port : OutputPort) (len : ℕ) (latest : List ℕ)
    → FramedBy port (merge env i port len latest)
unfolding merge stage_merged
merge-Framed env i port len latest =
    if_keeps (FramedBy port) env.sync_mode (refl, refl)
      (flush-Framed env.dmx_c i (stage_merged port len latest))

check-Framed : (env : Env) (port : OutputPort) → FramedBy port (check_merge_timeouts env port)
unfolding check_merge_timeouts expire_sources
check-Framed env port = if_keeps (FramedBy port) _ (refl, refl) (refl, refl)

announce-Framed :
    (env : Env) (old : OutputPort) (r : OutputPort × List Event)
    → FramedBy old r
    → FramedBy old (announce_merge env r)
announce-Framed env old (port, events) f = f

route-Framed :
    (env : Env) (i : ℕ) (p : DmxPacket) (ip_a ip_b : ℕ) (port : OutputPort)
    → FramedBy port (route env i p ip_a ip_b port)
unfolding take_alone_a take_alone_b merge_a merge_b
route-Framed env i p ip_a ip_b port =
    route_cases (FramedBy port) env i p ip_a ip_b port
      (stage-Framed env.sync_mode (receive_a env p (become_a p port)) p.slots p.data_length)
      (stage-Framed env.sync_mode (receive_a env p port) p.slots p.data_length)
      (stage-Framed env.sync_mode (receive_b env p port) p.slots p.data_length)
      (announce-Framed env port (merge_b env i p (become_b p port)) (
        merge-Framed env i (receive_b env p (become_b p port)) p.data_length
          (receive_b env p (become_b p port)).data_b))
      (announce-Framed env port (merge_a env i p (become_a p port)) (
        merge-Framed env i (receive_a env p (become_a p port)) p.data_length
          (receive_a env p (become_a p port)).data_a))
      (merge-Framed env i (receive_a env p port) p.data_length (receive_a env p port).data_a)
      (merge-Framed env i (receive_b env p port) p.data_length (receive_b env p port).data_b)
      (refl, refl)

cancel-Framed :
    (env : Env) (p : DmxPacket) (port : OutputPort) → Framed port (cancel_merge env p port)
unfolding cancel_merge
cancel-Framed env p port =
    if_keeps (Framed port) port.cancel_merge_pending (refl, refl) (refl, refl)

dmx_port-Framed :
    (env : Env) (p : DmxPacket) (i : ℕ) (port : OutputPort) → FramedBy port (dmx_port env p i port)
unfolding dmx_port
dmx_port-Framed env p i port =
    let checked = (check_merge_timeouts env (activate p port)).0 in
    let routed = (route env i p port.ip_a port.ip_b checked).0 in
    let (addr1, tod1) = check-Framed env (activate p port) in
    let (addr2, tod2) = route-Framed env i p port.ip_a port.ip_b checked in
    let (addr3, tod3) = cancel-Framed env p routed in
    (addr3 ∙ (addr2 ∙ addr1), tod3 ∙ (tod2 ∙ tod1))

reframed :
    (old port : OutputPort)
    → IsSoundOutput old
    → IsValid port
    → Framed old port
    → IsSoundOutput port
reframed old port v buffers (addr, tod) = record {
  buffers = buffers;
  table = rw tod v.table;
  six_bytes = rw tod v.six_bytes;
}

module _ (step : ℕ → OutputPort → OutputPort × List Event)
    (valid : (i : ℕ) (port : OutputPort) → IsValid port → IsValid (step i port).0)
    (framed : (i : ℕ) (port : OutputPort) → FramedBy port (step i port)) where
  each-Exactly :
      (k i : ℕ) (ports : List OutputPort)
      → Exactly k IsSoundOutput ports
      → Exactly k IsSoundOutput (each_port step i ports).0
  unfolding each_port
  each-Exactly zero i [] v = tt
  each-Exactly zero i (port ∷ ports) v = elim v [ ]
  each-Exactly (suc k) i [] v = elim v [ ]
  each-Exactly (suc k) i (port ∷ ports) (v, vs) =
      (reframed port _ v (valid i port v.buffers) (framed i port), each-Exactly k (suc i) ports vs)

  each-OutputsOn :
      (net subnet i : ℕ) (ports : List OutputPort)
      → OutputsOn net subnet ports
      → OutputsOn net subnet (each_port step i ports).0
  unfolding each_port
  each-OutputsOn net subnet i [] on = tt
  each-OutputsOn net subnet i (port ∷ ports) (on, ons) =
      (rw (framed i port).0 on, each-OutputsOn net subnet (suc i) ports ons)

  -- A loop over the outputs with such a body keeps a sound node sound, whatever else of it changes.
  each-IsSoundNode :
      (n m : Node)
      → IsSoundNode n
      → m.outputs ≡ (each_port step 0 n.outputs).0
      → m.inputs ≡ n.inputs
      → m.net_switch ≡ n.net_switch
      → m.sub_switch ≡ n.sub_switch
      → IsSoundNode m
  each-IsSoundNode n m v outs ins net subnet = record {
    outputs_sound = rw outs (each-Exactly 4 0 n.outputs v.outputs_sound);
    inputs_sound = rw ins v.inputs_sound;
    on_page = record {
      inputs_on = rw (ins, net, subnet) v.on_page.inputs_on;
      outputs_on =
          rw (outs, net, subnet)
            (each-OutputsOn n.net_switch n.sub_switch 0 n.outputs v.on_page.outputs_on);
    };
  }

dmx_step-Framed :
    (env : Env) (p : Packet) (i : ℕ) (port : OutputPort) → FramedBy port (dmx_step env p i port)
unfolding dmx_step
dmx_step-Framed env p i port =
    if_keeps (FramedBy port) _ (dmx_port-Framed env (dmx_packet p) i port) (refl, refl)

sync_step-Framed :
    (dmx_c : Bool) (from i : ℕ) (port : OutputPort) → FramedBy port (sync_step dmx_c from i port)
unfolding sync_step
sync_step-Framed dmx_c from i port =
    if_keeps (FramedBy port) _ (flush-Framed dmx_c i port) (refl, refl)

failsafe_output-Framed :
    (mode : FailsafeMode) (port : OutputPort) → Framed port (failsafe_output mode port)
unfolding failsafe_output
failsafe_output-Framed hold port = (refl, refl)
failsafe_output-Framed zeros port = (refl, refl)
failsafe_output-Framed full port = (refl, refl)
failsafe_output-Framed scene port = if_keeps (Framed port) _ (refl, refl) (refl, refl)

failsafe_step-Framed :
    (mode : FailsafeMode) (now i : ℕ) (port : OutputPort)
    → FramedBy port (failsafe_step mode now i port)
unfolding failsafe_step
failsafe_step-Framed mode now i port =
    if_keeps (FramedBy port) _ (failsafe_output-Framed mode port) (refl, refl)

unsync_step-Framed :
    (dmx_c : Bool) (i : ℕ) (port : OutputPort) → FramedBy port (unsync_step dmx_c i port)
unfolding unsync_step
unsync_step-Framed dmx_c i port =
    if_keeps (FramedBy port) port.sync_pending (refl, refl) (refl, refl)

nzs_port-Framed : (now : ℕ) (p : Packet) (port : OutputPort) → Framed port (nzs_port now p port)
unfolding nzs_port
nzs_port-Framed now p port = (refl, refl)

module _ (dmx_c : Bool) (now : ℕ) (p : Packet) where
  nzs-Exactly :
      (k i : ℕ) (ports : List OutputPort)
      → Exactly k IsSoundOutput ports
      → Exactly k IsSoundOutput (nzs_ports dmx_c now p i ports).0
  unfolding nzs_ports
  nzs-Exactly zero i [] v = tt
  nzs-Exactly zero i (port ∷ ports) v = elim v [ ]
  nzs-Exactly (suc k) i [] v = elim v [ ]
  nzs-Exactly (suc k) i (port ∷ ports) (v, vs) =
      if_keeps (λ (r : List OutputPort × List Event). Exactly (suc k) IsSoundOutput r.0)
        (port.port_enabled && universe p == port.port_addr)
        (
          reframed port (nzs_port now p port) v (nzs_port-IsValid now p port v.buffers)
              (nzs_port-Framed now p port),
          vs,
        )
        (v, nzs-Exactly k (suc i) ports vs)

  nzs-OutputsOn :
      (net subnet i : ℕ) (ports : List OutputPort)
      → OutputsOn net subnet ports
      → OutputsOn net subnet (nzs_ports dmx_c now p i ports).0
  unfolding nzs_ports nzs_port
  nzs-OutputsOn net subnet i [] on = tt
  nzs-OutputsOn net subnet i (port ∷ ports) (on, ons) =
      if_keeps (λ (r : List OutputPort × List Event). OutputsOn net subnet r.0)
        (port.port_enabled && universe p == port.port_addr) (on, ons)
        (on, nzs-OutputsOn net subnet (suc i) ports ons)

module _ (now : ℕ) (n : Node) (v : IsSoundNode n) where
  pub handle_dmx-IsSoundNode :
      (handled : Bool) (p : Packet) → IsWhole p → IsSoundNode (handle_dmx handled now p n).0
  unfolding handle_dmx
  handle_dmx-IsSoundNode handled p whole =
      if_keeps (λ (r : Node × List Event). IsSoundNode r.0) handled v
        (each-IsSoundNode (dmx_step (env_of now n) p) (dmx_step-IsValid (env_of now n) p whole)
          (dmx_step-Framed (env_of now n) p) n _ v refl refl refl refl)

  pub handle_sync-IsSoundNode :
      (handled : Bool) (p : Packet) → IsSoundNode (handle_sync handled now p n).0
  unfolding handle_sync
  handle_sync-IsSoundNode handled p =
      if_keeps (λ (r : Node × List Event). IsSoundNode r.0) handled v
        (if_keeps (λ (r : Node × List Event). IsSoundNode r.0) (any_accepts p.from n.outputs)
          (flushed _ refl refl refl refl) (flushed _ refl refl refl refl))
    where
      flushed :
          (m : Node)
          → m.outputs ≡ (each_port (sync_step n.dmx_c p.from) 0 n.outputs).0
          → m.inputs ≡ n.inputs
          → m.net_switch ≡ n.net_switch
          → m.sub_switch ≡ n.sub_switch
          → IsSoundNode m
      flushed m =
          each-IsSoundNode (sync_step n.dmx_c p.from) (sync_step-IsValid n.dmx_c p.from)
            (sync_step-Framed n.dmx_c p.from) n m v

  pub handle_nzs-IsSoundNode :
      (handled : Bool) (p : Packet) → IsSoundNode (handle_nzs handled now p n).0
  unfolding handle_nzs
  handle_nzs-IsSoundNode handled p =
      if_keeps (λ (r : Node × List Event). IsSoundNode r.0) handled v
        (record {
          outputs_sound = nzs-Exactly n.dmx_c now p 4 0 n.outputs v.outputs_sound;
          inputs_sound = v.inputs_sound;
          on_page = record {
            inputs_on = v.on_page.inputs_on;
            outputs_on =
                nzs-OutputsOn n.dmx_c now p n.net_switch n.sub_switch 0 n.outputs
                  v.on_page.outputs_on;
          };
        })

  pub check_output_timeouts-IsSoundNode : IsSoundNode (check_output_timeouts now n).0
  unfolding check_output_timeouts
  check_output_timeouts-IsSoundNode =
      let safe = record n {
        outputs = (each_port (failsafe_step n.failsafe_mode now) 0 n.outputs).0;
      } in
      let safe_sound : IsSoundNode safe =
        each-IsSoundNode (failsafe_step n.failsafe_mode now)
          (failsafe_step-IsValid n.failsafe_mode now) (failsafe_step-Framed n.failsafe_mode now) n
          safe v refl refl refl refl in
      elim (Bool-cases (n.sync_mode && artnet_is_timeout now n.last_sync_time artsync_timeout_ms)) [
        | inl ended ↦ rw ended (
            each-IsSoundNode (unsync_step n.dmx_c) (unsync_step-IsValid n.dmx_c)
              (unsync_step-Framed n.dmx_c) safe
              (record safe {
                outputs = (each_port (unsync_step n.dmx_c) 0 safe.outputs).0;
                sync_mode = false;
              })
              safe_sound refl refl refl refl)
        | inr still ↦ rw still safe_sound
      ]
