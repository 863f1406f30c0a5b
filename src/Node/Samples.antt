-- ===== src/Node/Samples.antt =====
-- A node with one output port and one input port, for the examples.
use libartnet.Base.{Bool, true, false, none, [], ◌∷◌, replicate}
use libartnet.Tod.{Tod}
use libartnet.Port.{InputPort, OutputPort, htp}
use libartnet.Node.{Node, node, power_ok, led_normal, hold}

abbrev pub no_devices : Tod
no_devices = record { block = none; length = 0; max_length = 0 }

abbrev pub output : OutputPort
output = record {
  port_addr = 1;
  port_default_addr = 1;
  port_net_ctl = false;
  port_status = 0;
  port_enabled = true;
  port_tod = no_devices;
  length = 0;
  buffer = replicate 512 0;
  merge_mode = htp;
  proto_sel = 0;
  output_style = 0;
  rdm_enabled = 0;
  data_a = replicate 512 0;
  data_b = replicate 512 0;
  physical_a = 0;
  physical_b = 0;
  time_a = 0;
  time_b = 0;
  last_dmx_time = 0;
  failsafe_triggered = false;
  failsafe_data = replicate 512 0;
  failsafe_length = 0;
  nzs_start_code = 0;
  sync_data = replicate 512 9;
  sync_length = 8;
  sync_pending = true;
  cancel_merge_pending = false;
  last_dmx_source = 0;
  ip_a = 0;
  ip_b = 0;
}

abbrev pub input : InputPort
input = record {
  port_addr = 2;
  port_default_addr = 2;
  port_net_ctl = false;
  port_status = 0;
  port_enabled = true;
  port_tod = no_devices;
  seq = 1;
  last_dmx_data = replicate 512 0;
  last_dmx_length = 0;
  last_dmx_send_time = 0;
}

abbrev pub small_node : Bool → Node
small_node sync_mode = record {
  node_type = node;
  mode_on = true;
  reply_addr = 0;
  send_apr_on_change = false;
  short_name = replicate 18 65;
  long_name = replicate 64 65;
  net_switch = 0;
  default_net_switch = 0;
  net_switch_net_ctl = false;
  sub_switch = 0;
  default_sub_switch = 0;
  sub_switch_net_ctl = false;
  report_code = power_ok;
  led_state = led_normal;
  failsafe_mode = hold;
  acn_priority = 100;
  bind_index = 1;
  bqp_policy = 0;
  sync_mode = sync_mode;
  last_sync_time = 0;
  last_dmx_source = 0;
  dmx_c = true;
  types = 0x80 ∷ 0x40 ∷ [];
  inputs = input ∷ [];
  outputs = output ∷ [];
}
