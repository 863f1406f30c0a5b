-- ===== src/Transmit/Program.antt =====
-- ArtPoll, ArtIpProg and ArtIpProgReply of artnet/transmit.c. An address is the number of its
-- `s_addr`; `ntohl` is the library function's, a parameter.
use libartnet.Base.{ℕ, ◌/◌, ◌%◌, ◌^◌, Bool, true, false, ◌||◌, not, List, [], ◌∷◌, ◌++◌}
use libartnet.Base.{if◌then◌else◌, ◌==◌, replicate, earg, eaction}
use libartnet.Node.{NodeType, srv, raw}
use libartnet.Packet.{poll, ip_prog, ip_reply}
use libartnet.Transmit.{header, Tx, TxState, refuse, send_to, Target, no_target, bad_target, target}
use libartnet.Port.{has_bit}
use libartnet.Wire.{short_get_high_byte, short_get_low_byte}

abbrev pub polls : NodeType → Bool
polls srv = true
polls raw = true
polls _ = false

abbrev pub poll_bytes : ℕ → ℕ → ℕ → ℕ → ℕ → ℕ → List ℕ
poll_bytes flags diag_priority target_top target_bottom esta_man oem =
    header 0x20
    ++ (flags
        ∷ diag_priority
        ∷ short_get_high_byte target_top
        ∷ short_get_low_byte target_top
        ∷ short_get_high_byte target_bottom
        ∷ short_get_low_byte target_bottom
        ∷ short_get_high_byte esta_man
        ∷ short_get_low_byte esta_man
        ∷ short_get_high_byte oem
        ∷ short_get_low_byte oem
        ∷ [])

-- Whom the poll is sent to; no target is the broadcast address.
abbrev pub poll_target : TxState → Target → List ℕ → Tx
poll_target s no_target bytes = send_to s.bcast_addr 22 poll bytes
poll_target s bad_target bytes = refuse earg
poll_target s (target address) bytes = send_to address 22 poll bytes

-- `artnet_tx_poll_ex`. It sets no `type`, which the receiver takes from the opcode.
unfoldable pub artnet_tx_poll_ex : TxState → Target → ℕ → ℕ → ℕ → ℕ → ℕ → ℕ → Tx
artnet_tx_poll_ex s ip flags diag_priority target_top target_bottom esta_man oem =
    if not s.mode_on
    then refuse eaction
    else if polls s.node_type
    then poll_target s ip (poll_bytes flags diag_priority target_top target_bottom esta_man oem)
    else refuse eaction

-- The four bytes of a word, the highest first
abbrev pub four_bytes : ℕ → List ℕ
four_bytes word =
    word / 2 ^ 24 % 2 ^ 8 ∷ word / 2 ^ 16 % 2 ^ 8 ∷ word / 2 ^ 8 % 2 ^ 8 ∷ word % 2 ^ 8 ∷ []

-- What is programmed of one of the three addresses of ArtIpProg: the zeros of `memset` where the
-- command's bit is not set or there is no text
abbrev pub prog_bytes : (ℕ → ℕ) → Bool → Target → List ℕ
prog_bytes ntohl true (target address) = four_bytes (ntohl address)
prog_bytes ntohl _ _ = 0 ∷ 0 ∷ 0 ∷ 0 ∷ []

abbrev pub prog_fails : Bool → Target → Bool
prog_fails true bad_target = true
prog_fails _ _ = false

abbrev pub ip_prog_bytes : (ℕ → ℕ) → ℕ → Target → Target → Target → List ℕ
ip_prog_bytes ntohl command prog_ip subnet_mask gateway =
    header 0xf8
    ++ (0 ∷ 0 ∷ command ∷ 0 ∷ prog_bytes ntohl (has_bit command 0x04) prog_ip
        ++ (prog_bytes ntohl (has_bit command 0x02) subnet_mask
            ++ (0 ∷ 0 ∷ prog_bytes ntohl (has_bit command 0x10) gateway ++ replicate 4 0)))

-- `artnet_tx_ipprog`
unfoldable pub artnet_tx_ipprog : (ℕ → ℕ) → TxState → ℕ → ℕ → Target → Target → Target → Tx
artnet_tx_ipprog ntohl s ip command prog_ip subnet_mask gateway =
    if not s.mode_on
    then refuse eaction
    else if prog_fails (has_bit command 0x04) prog_ip
        || prog_fails (has_bit command 0x02) subnet_mask
        || prog_fails (has_bit command 0x10) gateway
    then refuse earg
    else send_to ip 34 ip_prog (ip_prog_bytes ntohl command prog_ip subnet_mask gateway)

abbrev pub ip_reply_bytes : (ℕ → ℕ) → TxState → List ℕ
ip_reply_bytes ntohl s =
    header 0xf9
    ++ (0 ∷ 0 ∷ 0 ∷ 0 ∷ four_bytes (ntohl s.ip_addr)
        ++ (four_bytes (ntohl s.subnet_mask)
            ++ (0 ∷ 0 ∷ 0x00 ∷ 0 ∷ four_bytes (ntohl s.gateway) ++ (0 ∷ 0 ∷ []))))

-- `artnet_tx_ipprog_reply`
unfoldable pub artnet_tx_ipprog_reply : (ℕ → ℕ) → TxState → Tx
artnet_tx_ipprog_reply ntohl s =
    if not s.mode_on
    then refuse eaction
    else if s.reply_addr == 0
    then refuse eaction
    else send_to s.reply_addr 34 ip_reply (ip_reply_bytes ntohl s)
