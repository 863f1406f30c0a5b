-- ===== src/Reply.antt =====
-- The ArtPollReply of a node: `artnet_tx_build_art_poll_reply` and `artnet_tx_poll_reply`
-- (artnet/transmit.c), as the fields of `artnet_reply_t`.
pub mod Listed
mod Tests
use libartnet.Base.{
  ℕ, zero, suc, ◌+◌, ◌*◌, ◌%◌, ◌^◌, Bool, true, false, ◌&&◌, ◌||◌, not, List, [], ◌∷◌, ◌++◌, Option,
  none, some,
}
use libartnet.Base.{if◌then◌else◌, ◌==◌, bit_or, replicate}
use libartnet.Node.{Node, FailsafeMode, hold, zeros, full, scene, LedState}
use libartnet.Node.{led_unknown, led_locate, led_mute, led_normal}
use libartnet.NodeList.Entry.{PollReply}
use libartnet.Port.{InputPort, OutputPort}
use libartnet.Wire.{addr_port, short_get_high_byte, short_get_low_byte}

-- The fields of `node_state_t` that only the reply reads; an address is its four bytes as they lie
-- in memory.
pub record Identity : Type 0 where
  pub ip_addr : List ℕ
  pub hw_addr : List ℕ
  pub oem_hi : ℕ
  pub oem_lo : ℕ
  pub esta_hi : ℕ
  pub esta_lo : ℕ
  pub style_code : ℕ
  pub status2 : ℕ
  pub status3 : ℕ
  pub default_resp_uid : List ℕ
  pub refresh_rate : ℕ

abbrev led_code : LedState → ℕ
led_code led_unknown = 0x00
led_code led_locate = 0x01
led_code led_mute = 0x02
led_code led_normal = 0x03

abbrev failsafe_code : FailsafeMode → ℕ
failsafe_code hold = 0x00
failsafe_code zeros = 0x40
failsafe_code full = 0x80
failsafe_code scene = 0xc0

-- The loop for `numbports`: the number of the last port that is on, counted from 1
unfoldable pub ports_in_use : List OutputPort → List InputPort → ℕ
ports_in_use [] _ = 0
ports_in_use (out ∷ outs) [] = 0
ports_in_use (out ∷ outs) (i ∷ ins) =
    let later = ports_in_use outs ins in
    if later == 0 then (if out.port_enabled || i.port_enabled then 1 else 0) else suc later

abbrev pub good_inputs : List InputPort → List ℕ
good_inputs [] = []
good_inputs (port ∷ ports) = port.port_status ∷ good_inputs ports

abbrev pub good_outputs : List OutputPort → List ℕ
good_outputs [] = []
good_outputs (port ∷ ports) = bit_or port.port_status port.proto_sel ∷ good_outputs ports

abbrev pub input_switches : List InputPort → List ℕ
input_switches [] = []
input_switches (port ∷ ports) = addr_port port.port_addr ∷ input_switches ports

abbrev pub output_switches : List OutputPort → List ℕ
output_switches [] = []
output_switches (port ∷ ports) = addr_port port.port_addr ∷ output_switches ports

abbrev pub any_input_net_ctl : List InputPort → Bool
any_input_net_ctl [] = false
any_input_net_ctl (port ∷ ports) = port.port_net_ctl || any_input_net_ctl ports

abbrev pub any_output_net_ctl : List OutputPort → Bool
any_output_net_ctl [] = false
any_output_net_ctl (port ∷ ports) = port.port_net_ctl || any_output_net_ctl ports

-- Was any address programmed over the network?
unfoldable pub network_programmed : Node → Bool
network_programmed n =
    n.net_switch_net_ctl
    || n.sub_switch_net_ctl
    || any_input_net_ctl n.inputs
    || any_output_net_ctl n.outputs

-- `goodOutputB` of a port
unfoldable pub good_output_b : ℕ → OutputPort → ℕ
good_output_b bqp_policy port =
    let style = if port.output_style == 0 then 0 else 0x40 in
    if port.rdm_enabled == 0
    then bit_or 0x80 style
    else bit_or (bit_or style 0x20) (if bqp_policy == 0x04 then 0x10 else 0)

unfoldable pub good_outputs_b : ℕ → List OutputPort → List ℕ
good_outputs_b bqp_policy [] = []
good_outputs_b bqp_policy (port ∷ ports) =
    good_output_b bqp_policy port ∷ good_outputs_b bqp_policy ports

-- `artnet_tx_build_art_poll_reply`: the template `ar_temp`
unfoldable pub artnet_tx_build_art_poll_reply : Identity → Node → PollReply
artnet_tx_build_art_poll_reply own n = record {
  ip = own.ip_addr;
  ver_h = 0;
  ver = 14;
  net_switch = n.net_switch;
  sub_switch = n.sub_switch;
  oem_h = own.oem_hi;
  oem = own.oem_lo;
  ubea = 0;
  status =
      bit_or (bit_or (led_code n.led_state * 2 ^ 6) (if network_programmed n then 0x20 else 0x10))
        0x02;
  esta_man = own.esta_lo ∷ own.esta_hi ∷ [];
  short_name = n.short_name;
  long_name = n.long_name;
  node_report = replicate 64 0;
  numbports_h = 0;
  numbports = ports_in_use n.outputs n.inputs;
  port_types = n.types;
  good_input = good_inputs n.inputs;
  good_output_a = good_outputs n.outputs;
  sw_in = input_switches n.inputs;
  sw_out = output_switches n.outputs;
  acn_priority = n.acn_priority;
  sw_macro = 0;
  sw_remote = 0;
  style = own.style_code;
  mac = own.hw_addr;
  bind_ip = own.ip_addr;
  bind_index = (if n.bind_index == 0 then 1 else n.bind_index);
  status2 = own.status2;
  good_output_b = good_outputs_b n.bqp_policy n.outputs;
  status3 = bit_or (failsafe_code n.failsafe_mode) own.status3;
  default_resp_uid = own.default_resp_uid;
  user_hi = 0;
  user_lo = 0;
  refresh_rate_hi = short_get_high_byte own.refresh_rate;
  refresh_rate_lo = short_get_low_byte own.refresh_rate;
  bg_queue_policy = n.bqp_policy;
}

-- `artnet_tx_poll_reply`: the template with the ports' present state, and the new `ar_count`. The
-- 64 bytes of the report are what `snprintf` writes for that count, a parameter; the trace is left
-- out.
unfoldable pub artnet_tx_poll_reply :
    (ℕ → List ℕ) → PollReply → Node → ℕ → ℕ × Option (ℕ × PollReply)
artnet_tx_poll_reply report ar_temp n ar_count =
    let count = (ar_count + 1) % 10000 in
    if n.reply_addr == 0 then (count, none) else (
      count,
      some (
        n.reply_addr,
        record ar_temp {
          good_input = good_inputs n.inputs;
          good_output_a = good_outputs n.outputs;
          node_report = report count;
        },
      ),
    )
