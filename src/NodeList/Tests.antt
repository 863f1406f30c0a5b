-- ===== src/NodeList/Tests.antt =====
-- A list of two nodes, one of them silent, and a reply from a third.
use Prim.{tt}
use libartnet.Base.{
  ℕ, suc, ◌≡◌, ◌≤◌, ◌%◌, refl, arith, Bool, true, false, Option, none, some, List, [], ◌∷◌,
  replicate, Code, eok, emem,
}
use libartnet.Base
use libartnet.NodeList.{
  PrivateEntry, NodeList, artnet_nl_update, purge_nodes, find_entry_from_ip_and_swout0,
}
use libartnet.NodeList.Entry.{PollReply, zero_entry}
use libartnet.NodeList.Update.{recent, purge_nodes-recent}
use libartnet.NodeList.Subscribers.{find_nodes_from_uni, found, not_yet}
use libartnet.NodeList.Subscribers.Found.{find_nodes_from_uni_ends, artnet_nl_update_stuck}

abbrev entry : ℕ → ℕ → PrivateEntry
entry ip seen = record {
  public = record zero_entry { numbports = 2; port_types = 0x80 ∷ 0x80 ∷ 0 ∷ 0 ∷ [] };
  ip = ip;
  last_seen = seen;
}

abbrev two_nodes : NodeList
two_nodes = record { entries = entry 10 1000 ∷ entry 20 30000 ∷ []; length = 2; nl_seq = 4 }

abbrev poll_reply : PollReply
poll_reply = record {
  ip = 30 ∷ 0 ∷ 0 ∷ 2 ∷ [];
  ver_h = 0;
  ver = 1;
  net_switch = 0;
  sub_switch = 0;
  oem_h = 0;
  oem = 0;
  ubea = 0;
  status = 0;
  esta_man = replicate 2 0;
  short_name = replicate 18 65;
  long_name = replicate 64 65;
  node_report = replicate 64 0;
  numbports_h = 0;
  numbports = 1;
  port_types = replicate 4 0x80;
  good_input = replicate 4 0;
  good_output_a = replicate 4 0;
  sw_in = replicate 4 0;
  sw_out = replicate 4 5;
  acn_priority = 100;
  sw_macro = 0;
  sw_remote = 0;
  style = 0;
  mac = replicate 6 1;
  bind_ip = replicate 4 0;
  bind_index = 1;
  status2 = 0;
  good_output_b = replicate 4 0;
  status3 = 0;
  default_resp_uid = replicate 6 0;
  user_hi = 0;
  user_lo = 0;
  refresh_rate_hi = 0;
  refresh_rate_lo = 44;
  bg_queue_policy = 0;
}

purge_example :
    ((purge_nodes 31000 two_nodes).entries ≡ recent 31000 two_nodes.entries)
    × ((purge_nodes 31000 two_nodes).length ≡ Base.length (recent 31000 two_nodes.entries))
purge_example =
    purge_nodes-recent 31000 two_nodes (omega arith) (omega arith, (omega arith, tt)) refl

ends_example :
    (ips : List ℕ) × (count : ℕ) × (find_nodes_from_uni (suc 0) two_nodes 0 2 ≡ found ips count)
    × (Base.length ips ≤ 2)
    × (Base.length ips ≤ count)
ends_example =
    find_nodes_from_uni_ends 0 0 2 two_nodes refl ((omega arith, refl), ((omega arith, refl), tt))

stuck_example :
    let (after, code) = artnet_nl_update false 31000 30 poll_reply two_nodes in
    (code ≡ emem) × (find_nodes_from_uni 9 after 0 2 ≡ not_yet)
unfolding find_entry_from_ip_and_swout0
stuck_example = artnet_nl_update_stuck 31000 30 9 0 2 poll_reply two_nodes refl refl
