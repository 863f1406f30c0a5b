-- ===== src/NodeList/Entry.antt =====
-- The public node entry and `copy_apr_to_node_entry`. An array is a list of its bytes.
use libartnet.Base.{ℕ, List, [], ◌∷◌, memcpy, replicate}
use libartnet.Wire.{bytes_to_short}

-- The fields of `artnet_reply_t` that are copied.
pub record PollReply : Type 0 where
  pub ip : List ℕ
  pub ver_h : ℕ
  pub ver : ℕ
  pub net_switch : ℕ
  pub sub_switch : ℕ
  pub oem_h : ℕ
  pub oem : ℕ
  pub ubea : ℕ
  pub status : ℕ
  pub esta_man : List ℕ
  pub short_name : List ℕ
  pub long_name : List ℕ
  pub node_report : List ℕ
  pub numbports_h : ℕ
  pub numbports : ℕ
  pub port_types : List ℕ
  pub good_input : List ℕ
  pub good_output_a : List ℕ
  pub sw_in : List ℕ
  pub sw_out : List ℕ
  pub acn_priority : ℕ
  pub sw_macro : ℕ
  pub sw_remote : ℕ
  pub style : ℕ
  pub mac : List ℕ
  pub bind_ip : List ℕ
  pub bind_index : ℕ
  pub status2 : ℕ
  pub good_output_b : List ℕ
  pub status3 : ℕ
  pub default_resp_uid : List ℕ
  pub user_hi : ℕ
  pub user_lo : ℕ
  pub refresh_rate_hi : ℕ
  pub refresh_rate_lo : ℕ
  pub bg_queue_policy : ℕ

-- `artnet_node_entry_t`; `ver`, `oem` and `numbports` are int16_t bit patterns.
pub record NodeEntry : Type 0 where
  pub ip : List ℕ
  pub ver : ℕ
  pub net_switch : ℕ
  pub sub_switch : ℕ
  pub oem : ℕ
  pub ubea : ℕ
  pub status : ℕ
  pub esta_man : List ℕ
  pub short_name : List ℕ
  pub long_name : List ℕ
  pub node_report : List ℕ
  pub numbports : ℕ
  pub port_types : List ℕ
  pub good_input : List ℕ
  pub good_output_a : List ℕ
  pub sw_in : List ℕ
  pub sw_out : List ℕ
  pub acn_priority : ℕ
  pub sw_macro : ℕ
  pub sw_remote : ℕ
  pub style : ℕ
  pub mac : List ℕ
  pub bind_ip : List ℕ
  pub bind_index : ℕ
  pub status2 : ℕ
  pub good_output_b : List ℕ
  pub status3 : ℕ
  pub default_resp_uid : List ℕ
  pub user_hi : ℕ
  pub user_lo : ℕ
  pub refresh_rate : ℕ
  pub bg_queue_policy : ℕ

-- `memcpy` of a whole array field
abbrev copy : List ℕ → List ℕ → ℕ → List ℕ
copy dst src n = memcpy dst src n

unfoldable pub copy_apr_to_node_entry : NodeEntry → PollReply → NodeEntry
copy_apr_to_node_entry e reply = record {
  ip = copy e.ip reply.ip 4;
  ver = bytes_to_short reply.ver_h reply.ver;
  net_switch = reply.net_switch;
  sub_switch = reply.sub_switch;
  oem = bytes_to_short reply.oem_h reply.oem;
  ubea = reply.ubea;
  status = reply.status;
  esta_man = copy e.esta_man reply.esta_man 2;
  short_name = copy e.short_name reply.short_name 18;
  long_name = copy e.long_name reply.long_name 64;
  node_report = copy e.node_report reply.node_report 64;
  numbports = bytes_to_short reply.numbports_h reply.numbports;
  port_types = copy e.port_types reply.port_types 4;
  good_input = copy e.good_input reply.good_input 4;
  good_output_a = copy e.good_output_a reply.good_output_a 4;
  sw_in = copy e.sw_in reply.sw_in 4;
  sw_out = copy e.sw_out reply.sw_out 4;
  acn_priority = reply.acn_priority;
  sw_macro = reply.sw_macro;
  sw_remote = reply.sw_remote;
  style = reply.style;
  mac = copy e.mac reply.mac 6;
  bind_ip = copy e.bind_ip reply.bind_ip 4;
  bind_index = reply.bind_index;
  status2 = reply.status2;
  good_output_b = copy e.good_output_b reply.good_output_b 4;
  status3 = reply.status3;
  default_resp_uid = copy e.default_resp_uid reply.default_resp_uid 6;
  user_hi = reply.user_hi;
  user_lo = reply.user_lo;
  refresh_rate = bytes_to_short reply.refresh_rate_hi reply.refresh_rate_lo;
  bg_queue_policy = reply.bg_queue_policy;
}

-- `swOut[0]`
abbrev pub first_sw_out : List ℕ → ℕ
first_sw_out [] = 0
first_sw_out (s ∷ _) = s

-- `memset(entry, 0, ...)`
abbrev pub zero_entry : NodeEntry
zero_entry = record {
  ip = replicate 4 0;
  ver = 0;
  net_switch = 0;
  sub_switch = 0;
  oem = 0;
  ubea = 0;
  status = 0;
  esta_man = replicate 2 0;
  short_name = replicate 18 0;
  long_name = replicate 64 0;
  node_report = replicate 64 0;
  numbports = 0;
  port_types = replicate 4 0;
  good_input = replicate 4 0;
  good_output_a = replicate 4 0;
  sw_in = replicate 4 0;
  sw_out = replicate 4 0;
  acn_priority = 0;
  sw_macro = 0;
  sw_remote = 0;
  style = 0;
  mac = replicate 6 0;
  bind_ip = replicate 4 0;
  bind_index = 0;
  status2 = 0;
  good_output_b = replicate 4 0;
  status3 = 0;
  default_resp_uid = replicate 6 0;
  user_hi = 0;
  user_lo = 0;
  refresh_rate = 0;
  bg_queue_policy = 0;
}
