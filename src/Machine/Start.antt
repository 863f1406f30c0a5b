-- ===== src/Machine/Start.antt =====
-- `artnet_net_init` (artnet/network.c), which chooses an interface among those that the system has;
-- `artnet_new`, `artnet_start` and `artnet_stop` (artnet/artnet.c).
use libartnet.Base.{
  ℕ, ◌+◌, ◌*◌, ◌%◌, Bool, true, false, List, [], ◌∷◌, Option, none, some, if◌then◌else◌, ◌==◌,
  replicate, Code, eok, earg, enet, eaction, estate,
}
use libartnet.Machine.{Artnet, Effect, datagram, answer, each, tx_state}
use libartnet.Node.{srv, NodeType, power_ok, led_unknown, hold}
use libartnet.Port.{InputPort, OutputPort, htp, artnet_dmx_length}
use libartnet.Tod.{Tod}
use libartnet.Transmit.{Target, no_target, bad_target, target, Tx, Sent}
use libartnet.Transmit.Program.{artnet_tx_poll_ex}
use libartnet.Transmit.Spread.{artnet_tx_tod_request}

-- `iface_t`, without its name and its hardware address
pub record Interface : Type 0 where
  pub ip_addr : ℕ
  pub bcast_addr : ℕ
  pub netmask : ℕ

pub data Chosen : Type 0 where
  chosen : Interface → Chosen
  not_chosen : Code → Chosen

abbrev pub first_interface : List Interface → Chosen
first_interface [] = not_chosen enet
first_interface (i ∷ is) = chosen i

abbrev pub interface_with : ℕ → List Interface → Chosen
interface_with ip [] = not_chosen enet
interface_with ip (i ∷ is) = if i.ip_addr == ip then chosen i else interface_with ip is

-- `artnet_net_init`, on what `get_ifaces` found or the code with which it failed
unfoldable pub artnet_net_init : Code → List Interface → Target → Chosen
artnet_net_init eok is no_target = first_interface is
artnet_net_init eok is bad_target = not_chosen earg
artnet_net_init eok is (target ip) = interface_with ip is
artnet_net_init failed is preferred_ip = not_chosen failed

abbrev pub fresh_tod : Tod
fresh_tod = record { block = none; length = 0; max_length = 0 }

-- The ports as `memset` and the loop of `artnet_new` leave them
abbrev pub fresh_output : OutputPort
fresh_output = record {
  port_addr = 0;
  port_default_addr = 0;
  port_net_ctl = false;
  port_status = 0;
  port_enabled = false;
  port_tod = fresh_tod;
  length = 0;
  buffer = replicate artnet_dmx_length 0;
  merge_mode = htp;
  proto_sel = 0;
  output_style = 0;
  rdm_enabled = 0;
  data_a = replicate artnet_dmx_length 0;
  data_b = replicate artnet_dmx_length 0;
  physical_a = 0;
  physical_b = 0;
  time_a = 0;
  time_b = 0;
  last_dmx_time = 0;
  failsafe_triggered = false;
  failsafe_data = replicate artnet_dmx_length 0;
  failsafe_length = 0;
  nzs_start_code = 0;
  sync_data = replicate artnet_dmx_length 0;
  sync_length = 0;
  sync_pending = false;
  cancel_merge_pending = false;
  last_dmx_source = 0;
  ip_a = 0;
  ip_b = 0;
}

abbrev pub fresh_input : InputPort
fresh_input = record {
  port_addr = 0;
  port_default_addr = 0;
  port_net_ctl = false;
  port_status = 0;
  port_enabled = false;
  port_tod = fresh_tod;
  seq = 1;
  last_dmx_data = replicate artnet_dmx_length 0;
  last_dmx_length = 0;
  last_dmx_send_time = 0;
}

abbrev pub fresh_node : Interface → Artnet
fresh_node i = record {
  node = record {
    node_type = srv;
    mode_on = false;
    reply_addr = 0;
    send_apr_on_change = false;
    short_name = replicate 18 0;
    long_name = replicate 64 0;
    net_switch = 0;
    default_net_switch = 0;
    net_switch_net_ctl = false;
    sub_switch = 0;
    default_sub_switch = 0;
    sub_switch_net_ctl = false;
    report_code = power_ok;
    led_state = led_unknown;
    failsafe_mode = hold;
    acn_priority = 0xff;
    bind_index = 1;
    bqp_policy = 0;
    sync_mode = false;
    last_sync_time = 0;
    last_dmx_source = 0;
    dmx_c = false;
    types = replicate 4 0;
    inputs = replicate 4 fresh_input;
    outputs = replicate 4 fresh_output;
  };
  list = record { entries = []; length = 0; nl_seq = 0 };
  transfer = record {
    block = none;
    bytes_current = 0;
    bytes_total = 0;
    peer = 0;
    ubea = false;
    last_time = 0;
    expected_block = 0;
  };
  rdm = record {
    tod_reply_addr = 0;
    rdm_reply_addr = 0;
    tod_requester_ips = [];
    rdm_c = false;
    rdm_tod_c = false;
    rdm_init_c = false;
  };
  vlc_disabled = false;
  diag_enabled = false;
  diag_unicast = false;
  diag_controller_ips = [];
  diag_priority = 0xff;
  apr_pending = false;
  apr_pending_time = 0;
  ip_addr = i.ip_addr;
  bcast_addr = i.bcast_addr;
  subnet_mask = i.netmask;
  gateway = 0;
  esta_hi = b'z';
  esta_lo = b'p';
  oem_hi = 0x04;
  oem_lo = 0x30;
  firmware_c = false;
  program_c = false;
}

abbrev pub on_interface : Chosen → Option Artnet
on_interface (chosen i) = some (fresh_node i)
on_interface (not_chosen _) = none

-- `artnet_new`; `alloc` tells whether its malloc succeeds.
unfoldable pub artnet_new : Bool → Code → List Interface → Target → Option Artnet
artnet_new true failed is ip = on_interface (artnet_net_init failed is ip)
artnet_new false failed is ip = none

-- What `artnet_start` returns: a code, or the result of the requests for tables
pub data Started : Type 0 where
  returned : Code → Started
  requested : Sent → Started

-- `artnet_tx_poll` for all nodes with ARTNET_TTM_AUTO, the flags `~ttm`
abbrev start_poll : Artnet → Tx
start_poll a =
    artnet_tx_poll_ex (tx_state a) no_target 0x02 0x10 0 0 (a.esta_hi * 256 + a.esta_lo % 256)
      (a.oem_hi * 256 + a.oem_lo)

abbrev pub is_server : NodeType → Bool
is_server srv = true
is_server _ = false

abbrev pub requests : (ℕ → Bool) → Code → Artnet → Artnet × List Effect × Started
requests works eok a =
    let (out, ret) = artnet_tx_tod_request works a.bcast_addr a.node.outputs in
    (a, answer (start_poll a) ∷ each datagram out, requested ret)
requests works failed a = (a, answer (start_poll a) ∷ [], returned failed)

abbrev pub begin : Code → Code → (ℕ → Bool) → Artnet → Artnet × List Effect × Started
begin eok poll_sent works a =
    let started = record a { node = record (a.node) { mode_on = true } } in
    if is_server a.node.node_type
    then requests works poll_sent started
    else (started, [], returned eok)
begin failed poll_sent works a = (a, [], returned failed)

-- `artnet_start`. `bound` is what `artnet_net_start` returns, `poll_sent` what the send of the ArtPoll
-- does.
unfoldable pub artnet_start : Code → Code → (ℕ → Bool) → Artnet → Artnet × List Effect × Started
artnet_start bound poll_sent works a =
    if a.node.mode_on then (a, [], returned estate) else begin bound poll_sent works a

-- `artnet_stop`
unfoldable pub artnet_stop : Artnet → Artnet × Code
artnet_stop a =
    if a.node.mode_on
    then (record a { node = record (a.node) { mode_on = false } }, eok)
    else (a, eaction)
