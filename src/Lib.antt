-- ===== src/Lib.antt =====
-- libartnet: an implementation of the Art-Net 4 lighting protocol over UDP, in C.
--
-- A node has four input and four output ports. Packets arrive at `handle` (artnet/receive.c),
-- which checks their length and fields and calls a handler for each type; an application calls
-- the functions of artnet/artnet.c; `check_timeouts` runs between packets. All of them work on
-- one `artnet_node_t`. The files, with the code that each is about:
--
-- - Wire: the byte and address helpers of artnet/private.h and artnet/misc.c. Address and Misc
--   have their laws.
-- - Tod: artnet/tod.c, a port's table of RDM devices. Laws: its lengths. Bag: the table as a
--   bag.
-- - Time: artnet/time_util.c and the time-outs of artnet/artnet.c.
-- - Port: `input_port_t`, `output_port_t`, and commit_output_data, stage_output_data,
--   flush_sync_output, merge and check_merge_timeouts of artnet/receive.c. Port/Dmx: the loop
--   body of handle_dmx. Bounds, Merge, Sources, Sync and Stale have its laws.
-- - Packet: get_type and packet_length_is_valid. Packet/Fields: packet_fields_are_valid.
-- - Firmware: `firmware_transfer_t`. Receive: handle_firmware. Send: artnet_tx_firmware_packet
--   and handle_firmware_reply. Sides: artnet_send_firmware, and the two sides joined. Exchange: how an
--   upload ends.
-- - NodeList: artnet_nl_update, find_entry_from_ip_and_swout0 and the clean-up of
--   check_timeouts. Entry: copy_apr_to_node_entry. Subscribers: find_nodes_from_uni.
-- - Node: `node_state_t`, handle_dmx, handle_sync, handle_nzs, and the output parts of
--   check_timeouts. Address: handle_address. Config: artnet_set_node_type, artnet_set_net_addr,
--   artnet_set_subnet_addr, artnet_set_port_addr and the names. Send: artnet_send_dmx up to its
--   receivers. Input: _artnet_handle_input. Timeouts: check_timeouts as a whole.
-- - Poll: handle_poll. Diag has its laws.
-- - Transmit: the functions of artnet/transmit.c that build packets. Tod: artnet_tx_tod_data
--   and its pages. Rdm, Data, Clock, Media, Files and Program: those that send one packet, and
--   Accepted: their packets at a receiver. Spread: those that send to several nodes.
--   Spread/Past: artnet_tx_nzs on what find_nodes_from_uni counts. Spread/Raw:
--   artnet_raw_send_dmx, artnet_send_nzs and artnet_send_vlc of artnet/artnet.c.
-- - Rdm: handle_tod_request, handle_tod_data, handle_tod_control, handle_rdm and
--   remember_tod_requester of artnet/receive.c. Devices: artnet_add_rdm_device,
--   artnet_add_rdm_devices and artnet_remove_rdm_device. Requesters, Replies and Control: its
--   laws.
-- - Reply: artnet_tx_build_art_poll_reply. Listed: what a controller's node list makes of it.
-- - Prog: handle_ipprog. Programmed has its laws.
-- - Files: handle_file_tn_master, handle_file_fn_master, handle_command, handle_trigger and
--   handle_directory. Upload: a block from its sender to the callback.
-- - Machine: `artnet_node_t` as a whole, and `handle`, which gives a packet to its handler.
--   Decode: how it reads an ArtPollReply and an ArtFirmwareMaster. Start: artnet_net_init of
--   artnet/network.c, artnet_new, artnet_start and artnet_stop. Read: check_timeouts on a whole
--   node, artnet_net_recv of artnet/network.c, and artnet_read, with Read/Rounds: what a round
--   does to each node. Run: the steps of a node. Sound: what they keep. Link: DMX from a
--   controller to a node. Remote: artnet_send_address and artnet_send_input. Rejected: packets
--   that are cut off. Peers: artnet_join.
-- - Base: shared names, arrays, bits, the return codes. The modules Tests hold examples.
--
-- State is passed explicitly: an operation takes a record and gives the new one, with a return
-- code or with the events that leave the node (a callback called, an ArtPollReply sent). A C
-- array is a list; a byte, a word or an address is the number of its bits, and wrap-around is
-- written out. An allocation is an argument: the block that malloc returned, or none. A user's
-- callback that can swallow a packet is an argument, its answer; other callbacks are events.
-- The clock is read once for a packet. Whether artnet_net_send works is an argument too, a
-- function of the number of the packet in the call (`works`) or its return code (`net`); so are
-- the receivers that find_nodes_from_uni finds, the address that artnet_net_inet_aton reads,
-- and htonl and ntohl.
--
-- Bounds and fuel: the firmware exchange runs on `length / 1024 + 1` packets, which the
-- theorems show to be enough, over a network that loses nothing and keeps the order; the
-- receiver checks its firmware time-out before each packet, and the sender keeps the receiver's
-- entry in its list. The search of the node list runs on the rounds of its seqlock loop; one is
-- enough where the sequence number is even. The pages of a table run on its length and one
-- more; each page but the last takes 200 UIDs. All other loops are over a list or a count.
--
-- A call of artnet_read is given its rounds, one for each time that it waits on the socket:
-- what arrives, and the clock and the world that each node meets; where the rounds end before
-- it returns, it has no code. The nodes that share a socket are a list there, and nodes with
-- `peer` pointers in Machine/Peers, where the loops of artnet_join run on fuel, the number of
-- nodes but one.
--
-- Not modelled: opening sockets, enumerating interfaces and sending (artnet/network.c), which
-- are operating-system calls; a callback that calls the library; the receivers of
-- artnet_send_dmx, and a failure to allocate their array in a keepalive; the report texts; the
-- rest of the public functions; examples and tests.

pub mod Base
pub mod Wire
pub mod Tod
pub mod Time
pub mod Port
pub mod Firmware
pub mod NodeList
pub mod Packet
pub mod Node
pub mod Poll
pub mod Transmit
pub mod Rdm
pub mod Reply
pub mod Prog
pub mod Files
pub mod Machine
