-- ===== src/Machine/Remote/Addresses.antt =====
-- ArtAddress from a controller to a node, end to end.
use libartnet.Base.{
  ℕ, suc, ◌<◌, ◌≡◌, ◌%◌, ◌∙◌, refl, arith, true, false, ◌&&◌, ◌||◌, not, List, ◌∷◌, ◌++◌, some,
  length, get_or, drop, memcpy, min, ◌==◌, ltb, ap, if_keeps,
}
use libartnet.Machine.Remote.{
  Programming, address_bytes, behind_short_name, name_bytes, artnet_send_address, programs_others,
  arrives,
}
use libartnet.Node.{Node}
use libartnet.Node.Address.{
  bind_index_matches, program_addresses, program_net, program_subnet, program_short_name,
  program_long_name, rebuild_addresses,
}
use libartnet.Node.Address.Command.{handle_address, answers_address, run_command, run_port_command}
use libartnet.Packet.{Packet, address, byte, packet_length_is_valid, min_len}
use libartnet.Packet.Fields.{packet_fields_are_valid, type_is_valid, address_is_valid}
use libartnet.Transmit.{TxState}
use libartnet.Transmit.Accepted.{version}
use libartnet.Machine.Remote.Bytes.{
  length-name_bytes, address_tail, memcpy_all, net_programmed, subnet_programmed,
}

switches_apart :
    (x y : ℕ) (n : Node)
    → ((program_net x n).sub_switch ≡ n.sub_switch)
      × ((program_net x (program_subnet y n)).short_name ≡ n.short_name)
unfolding program_net program_subnet
switches_apart x y n = ground arith

-- What the rebuilding of the ports leaves
program_addresses_kept :
    (p : Packet) (n : Node)
    → let after = program_addresses p n in
      (after.net_switch ≡ (program_net (byte p 12) (program_subnet (byte p 104) n)).net_switch)
      × (after.sub_switch ≡ (program_subnet (byte p 104) n).sub_switch)
      × (after.short_name ≡ n.short_name)
unfolding program_addresses rebuild_addresses
program_addresses_kept p n =
    let programmed = program_net (byte p 12) (program_subnet (byte p 104) n) in
    let (subnet, _) = switches_apart (byte p 12) (byte p 104) (program_subnet (byte p 104) n) in
    let (_, name) = switches_apart (byte p 12) (byte p 104) n in
    if_keeps
      (λ (r : Node).
        (r.net_switch ≡ programmed.net_switch)
        × (r.sub_switch ≡ (program_subnet (byte p 104) n).sub_switch)
        × (r.short_name ≡ n.short_name))
      (not (n.net_switch == programmed.net_switch) || not (n.sub_switch == programmed.sub_switch))
      (refl, subnet, name) (refl, subnet, name)

-- ARTNET_PC_NONE
run_command_none : (n : Node) → run_command 0 n ≡ n
unfolding run_command run_port_command
run_command_none n = refl

-- The name that a packet carries is the node's then.
short_name_programmed :
    (p : Packet) (n : Node) (name rest : List ℕ)
    → drop 14 p.bytes ≡ name ++ rest
    → (not (byte p 14 == 0) && not (byte p 14 == 0x7f)) ≡ true
    → length name ≡ 18
    → length n.short_name ≡ 18
    → (program_long_name p (program_short_name p n)).short_name ≡ name
unfolding program_short_name program_long_name
short_name_programmed p n name rest bytes programs size field =
    if_keeps (λ (r : Node). r.short_name ≡ name) _ named named
  where
    named : (program_short_name p n).short_name ≡ name
    named = rw (programs, bytes) (memcpy_all n.short_name name rest 18 field size)

first_letter :
    (c : ℕ) (letters rest : List ℕ) → get_or (name_bytes 18 (some (c ∷ letters)) ++ rest) 0 0 ≡ c
unfolding name_bytes memcpy
first_letter c letters rest =
    let some_letters : min (length (c ∷ letters)) 18 ≡ suc (min (length letters) 17) =
      omega arith in
    rw some_letters refl

-- `handle_address` without a command
abbrev named_of : Packet → Node → Node
named_of p n = program_long_name p (program_short_name p (record n { reply_addr = p.from }))

handle_address_none :
    (p : Packet) (n : Node)
    → answers_address n.node_type ≡ true
    → bind_index_matches n (byte p 13) ≡ true
    → byte p 106 ≡ 0
    → let after = (handle_address false p n).0 in
      let programmed = program_addresses p (named_of p n) in
      (after.net_switch ≡ programmed.net_switch)
      × (after.sub_switch ≡ programmed.sub_switch)
      × (after.short_name ≡ programmed.short_name)
unfolding handle_address
handle_address_none p n answers matches none_given =
    let programmed = program_addresses p (named_of p n) in
    rw (answers, matches, none_given, run_command_none programmed)
      (if_keeps
        (λ (r : Node).
          (r.net_switch ≡ programmed.net_switch)
          × (r.sub_switch ≡ programmed.sub_switch)
          × (r.short_name ≡ programmed.short_name))
        (byte p 105 == 0xff) (refl, refl, refl) (refl, refl, refl))

-- An ArtAddress that a controller which is on, a server or a raw node, sends with a net below 127, a
-- subnet other than 127, the priority 0 to 200 or 255, no command, and a short name whose first byte
-- is neither 0 nor 127, is accepted by a node, and programs one that is neither server nor raw and
-- whose bind index is 1: it has that net, the low four bits of that subnet, and that name, up to 18
-- bytes and filled up with zeros, whatever the packet says of its long name and of its ports.
pub artnet_send_address_programs :
    (s : TxState) (from to c : ℕ) (letters : List ℕ) (g : Programming) (n : Node)
    → s.mode_on ≡ true
    → programs_others s.node_type ≡ true
    → g.short_name ≡ some (c ∷ letters)
    → (not (c == 0) && not (c == 0x7f)) ≡ true
    → g.net_addr < 127
    → g.sub_addr == 0x7f ≡ false
    → (not (g.acn_priority == 0xff) && ltb 200 g.acn_priority) ≡ false
    → g.command ≡ 0
    → answers_address n.node_type ≡ true
    → bind_index_matches n 1 ≡ true
    → length n.short_name ≡ 18
    → (p : Packet) × (arrives from (artnet_send_address s (some to) g) ≡ some p)
      × (packet_length_is_valid p ≡ true)
      × (packet_fields_are_valid p ≡ true)
      × (let after = (handle_address false p n).0 in
          (after.net_switch ≡ g.net_addr)
          × (after.sub_switch ≡ g.sub_addr % 16)
          × (after.short_name ≡ name_bytes 18 (some (c ∷ letters))))
unfolding artnet_send_address packet_length_is_valid min_len packet_fields_are_valid type_is_valid
    address_is_valid
artnet_send_address_programs s from to c letters g n on may named programs net subnet priority
      command answers matches field =
    let p : Packet = record {
      length = 107;
      from = from;
      type = address;
      bytes = address_bytes g;
    } in
    let letter : byte p 14 ≡ c =
      ap (λ name. get_or (name_bytes 18 name ++ behind_short_name g) 0 0) named
      ∙ first_letter c letters (behind_short_name g) in
    let none_given : byte p 106 ≡ 0 = address_tail g 2 ∙ command in
    let (net_is, subnet_is, name_is) = handle_address_none p n answers matches none_given in
    let (net_kept, subnet_kept, name_kept) = program_addresses_kept p (named_of p n) in
    (
      p,
      rw (on, may) refl,
      refl,
      rw (version, address_tail g 1, priority) refl,
      (
        net_is
            ∙ net_kept
            ∙ net_programmed g.net_addr (program_subnet (byte p 104) (named_of p n)) net,
        subnet_is
            ∙ subnet_kept
            ∙ ap (λ x. (program_subnet x (named_of p n)).sub_switch) (address_tail g 0)
            ∙ subnet_programmed g.sub_addr (named_of p n) subnet,
        name_is
            ∙ name_kept
            ∙ short_name_programmed p (record n { reply_addr = from })
                (name_bytes 18 (some (c ∷ letters))) (behind_short_name g)
                (ap (λ name. name_bytes 18 name ++ behind_short_name g) named) (rw letter programs)
                (length-name_bytes 18 (some (c ∷ letters))) field,
      ),
    )
