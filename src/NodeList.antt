-- ===== src/NodeList.antt =====
-- The list of nodes on the network (artnet/artnet.c, node_list_t of artnet/private.h): updating it
-- from an ArtPollReply, searching it, and dropping silent nodes. The linked list is a list, `first`
-- at its head; `length` and the sequence number `nl_seq` are kept beside it.
pub mod Entry
pub mod Update
pub mod Subscribers
mod Tests
use libartnet.Base.{ℕ, zero, suc, ◌+◌, ◌-◌, ◌%◌, ◌^◌, Bool, true, false, ◌&&◌, ◌||◌, not}
use libartnet.Base.{
  Option, none, some, List, [], ◌∷◌, ◌++◌, get_elem?, ltb, leb, ◌==◌, if◌then◌else◌,
}
use libartnet.Base.{Code, eok, emem}
use libartnet.Base
use libartnet.NodeList.Entry.{
  NodeEntry, PollReply, copy_apr_to_node_entry, zero_entry, first_sw_out,
}
use libartnet.Time.{is_older, nodelist_timeout_ms}
use libartnet.Wire.{make_addr}
use libartnet.Port.{has_bit}
use Prim.Native.Nat.{bit_and}

-- `node_entry_private_t`, without the transfer to that node
pub record PrivateEntry : Type 0 where
  pub public : NodeEntry
  pub ip : ℕ
  pub last_seen : ℕ

pub record NodeList : Type 0 where
  pub entries : List PrivateEntry
  pub length : ℕ
  pub nl_seq : ℕ

abbrev pub bump_seq : ℕ → ℕ
bump_seq seq = (seq + 1) % 2 ^ 32

-- The test of `find_entry_from_ip_and_swout0`
abbrev pub is_entry : ℕ → ℕ → PrivateEntry → Bool
is_entry ip swout0 e = ip == e.ip && first_sw_out e.public.sw_out == swout0

unfoldable pub find_entry_from_ip : List PrivateEntry → ℕ → Option PrivateEntry
find_entry_from_ip [] ip = none
find_entry_from_ip (e ∷ es) ip = if ip == e.ip then some e else find_entry_from_ip es ip

unfoldable pub find_entry_from_ip_and_swout0 : List PrivateEntry → ℕ → ℕ → Option PrivateEntry
find_entry_from_ip_and_swout0 [] ip swout0 = none
find_entry_from_ip_and_swout0 (e ∷ es) ip swout0 =
    if is_entry ip swout0 e then some e else find_entry_from_ip_and_swout0 es ip swout0

-- An entry that is there is updated where it stands.
unfoldable pub update_entry : ℕ → ℕ → PollReply → List PrivateEntry → List PrivateEntry
update_entry now from reply [] = []
update_entry now from reply (e ∷ es) =
    if is_entry from (first_sw_out reply.sw_out) e
    then (record e { public = copy_apr_to_node_entry e.public reply; last_seen = now }) ∷ es
    else e ∷ update_entry now from reply es

abbrev pub new_entry : ℕ → ℕ → PollReply → PrivateEntry
new_entry now from reply = record {
  public = copy_apr_to_node_entry zero_entry reply;
  ip = from;
  last_seen = now;
}

-- What `artnet_nl_update` does with the entry that it found, or with none. NL_WRITE_END is not
-- reached where malloc fails.
unfoldable pub write_reply :
    Option PrivateEntry → Bool → ℕ → ℕ → PollReply → NodeList → NodeList × Code
write_reply (some _) alloc now from reply nl = (
  record nl {
    entries = update_entry now from reply nl.entries;
    nl_seq = bump_seq (bump_seq nl.nl_seq);
  },
  eok,
)
write_reply none true now from reply nl = (
  record {
    entries = nl.entries ++ (new_entry now from reply ∷ []);
    length = nl.length + 1;
    nl_seq = bump_seq (bump_seq nl.nl_seq);
  },
  eok,
)
write_reply none false now from reply nl = (record nl { nl_seq = bump_seq nl.nl_seq }, emem)

-- `artnet_nl_update`; `alloc` tells whether malloc succeeds.
unfoldable pub artnet_nl_update : Bool → ℕ → ℕ → PollReply → NodeList → NodeList × Code
artnet_nl_update alloc now from reply nl =
    write_reply (find_entry_from_ip_and_swout0 nl.entries from (first_sw_out reply.sw_out)) alloc
      now from reply nl

-- The clean-up loop of `check_timeouts`, with the length that it counts down.
unfoldable pub purge : ℕ → List PrivateEntry → ℕ → List PrivateEntry × ℕ
purge now [] n = ([], n)
purge now (e ∷ es) n =
    let (kept, m) =
      purge now es (if is_older now e.last_seen nodelist_timeout_ms then n - 1 else n) in
    if is_older now e.last_seen nodelist_timeout_ms then (kept, m) else (e ∷ kept, m)

unfoldable pub purge_nodes : ℕ → NodeList → NodeList
unfolding purge
purge_nodes now nl =
    let (kept, n) = purge now nl.entries nl.length in
    record { entries = kept; length = n; nl_seq = bump_seq (bump_seq nl.nl_seq) }
