-- ===== src/Transmit/Tod.antt =====
-- ArtTodData of artnet/transmit.c: a port's table of devices, sent in pages of 200 UIDs.
-- A UID is the number of its six bytes, the first byte the highest.
pub mod Accepted
pub mod Pages
use libartnet.Base.{
  ℕ, zero, suc, ◌+◌, ◌*◌, ◌-◌, ◌/◌, ◌%◌, ◌^◌, min, Bool, true, false, List, [], ◌∷◌, ◌++◌, Option,
  none, some,
}
use libartnet.Base.{if◌then◌else◌, ◌==◌, replicate, take, drop}
use libartnet.Packet.{Packet, tod_data, byte}
use libartnet.Port.{OutputPort}
use libartnet.Transmit.{
  header, Datagram, Sent, sent_ok, sent_failed, sent_nowhere, send_unless_failed, address_byte,
  worse,
}
use libartnet.Wire.{short_get_high_byte, short_get_low_byte, addr_net}

abbrev pub artnet_max_uid_count : ℕ
artnet_max_uid_count = 200

-- The cells of a table as the bytes that they are
abbrev pub uid_bytes : List ℕ → List ℕ
uid_bytes [] = []
uid_bytes (u ∷ us) =
    u / 2 ^ 40
    ∷ u / 2 ^ 32 % 256
    ∷ u / 2 ^ 24 % 256
    ∷ u / 2 ^ 16 % 256
    ∷ u / 2 ^ 8 % 256
    ∷ u % 256
    ∷ uid_bytes us

-- `tod` of a page: `memset`, and `memcpy` of `lim` UIDs where the table has a block
abbrev pub page_tod : Option (List ℕ) → ℕ → ℕ → List ℕ
page_tod none offset lim = replicate (200 * 6) 0
page_tod (some cells) offset lim =
    uid_bytes (take lim (drop offset cells)) ++ replicate ((200 - lim) * 6) 0

-- The page with the number `bloc` of the table of the port `id`
unfoldable pub tod_page : ℕ → ℕ → OutputPort → ℕ → ℕ → ℕ → Packet
tod_page bind_index id port bloc offset lim = record {
  length = 1228;
  from = 0;
  type = tod_data;
  bytes =
      header 0x81
      ++ (1
          ∷ (id + 1) % 256
          ∷ 0
          ∷ 0
          ∷ 0
          ∷ 0
          ∷ 0
          ∷ 0
          ∷ (if bind_index == 0 then 1 else bind_index)
          ∷ addr_net port.port_addr
          ∷ 0
          ∷ address_byte port.port_addr
          ∷ short_get_high_byte port.port_tod.length
          ∷ short_get_low_byte port.port_tod.length
          ∷ bloc % 256
          ∷ lim % 256
          ∷ page_tod port.port_tod.block offset lim);
}

-- The `do` loop with its fuel, the bound on its rounds
unfoldable pub tod_pages :
    (ℕ → Bool) → ℕ → ℕ → ℕ → OutputPort → ℕ → ℕ → Sent → ℕ → List Datagram × Sent
tod_pages works to bind_index id port zero bloc ret remaining = ([], ret)
tod_pages works to bind_index id port (suc fuel) bloc ret remaining =
    let lim = min artnet_max_uid_count remaining in
    let page = tod_page bind_index id port bloc (port.port_tod.length - remaining) lim in
    let (out, ret') = send_unless_failed (works bloc) ret (record { to = to; packet = page }) in
    let (later, ret'') =
      tod_pages works to bind_index id port fuel (suc bloc) ret' (remaining - lim) in
    if remaining - lim == 0 then (out, ret') else (out ++ later, ret'')

-- `artnet_tx_tod_data` for the port `id`. `works` tells of each page whether its send succeeds. The
-- loop makes at most as many rounds as there are UIDs, and one for none.
unfoldable pub artnet_tx_tod_data : (ℕ → Bool) → ℕ → ℕ → ℕ → OutputPort → List Datagram × Sent
artnet_tx_tod_data works tod_reply_addr bind_index id port =
    if tod_reply_addr == 0
    then ([], sent_nowhere)
    else tod_pages works tod_reply_addr bind_index id port (suc port.port_tod.length) 0 sent_ok
        port.port_tod.length

-- What a receiver of ArtTodData finds in it: `uidCount` groups of six bytes from offset 28 on.
unfoldable pub read_uids : ℕ → List ℕ → List ℕ
read_uids (suc n) (a ∷ b ∷ c ∷ d ∷ e ∷ f ∷ rest) =
    (a * 2 ^ 40 + b * 2 ^ 32 + c * 2 ^ 24 + d * 2 ^ 16 + e * 2 ^ 8 + f) ∷ read_uids n rest
read_uids _ _ = []

unfoldable pub page_uids : Packet → List ℕ
page_uids p = read_uids (byte p 27) (drop 28 p.bytes)

-- The UIDs of the pages that were sent, in their order
unfoldable pub received_uids : List Datagram → List ℕ
received_uids [] = []
received_uids (d ∷ ds) = page_uids d.packet ++ received_uids ds

-- The loop of `artnet_tx_tod_data_to_requesters`; `works` is asked with the requester's number,
-- too.
unfoldable pub tod_data_to :
    (ℕ → ℕ → Bool) → ℕ → ℕ → OutputPort → ℕ → Sent → List ℕ → List Datagram × Sent
tod_data_to works bind_index id port i ret [] = ([], ret)
tod_data_to works bind_index id port i ret (requester ∷ requesters) =
    let (out, tx_ret) = artnet_tx_tod_data (works i) requester bind_index id port in
    let (later, ret') =
      tod_data_to works bind_index id port (suc i) (worse ret tx_ret) requesters in
    (out ++ later, ret')

-- `artnet_tx_tod_data_to_requesters`: to all that have asked, or to the last sender. The address
-- that the loop overwrites is restored at its end, so that no state changes.
unfoldable pub artnet_tx_tod_data_to_requesters :
    (ℕ → ℕ → Bool) → ℕ → List ℕ → ℕ → ℕ → OutputPort → List Datagram × Sent
artnet_tx_tod_data_to_requesters works tod_reply_addr [] bind_index id port =
    artnet_tx_tod_data (works 0) tod_reply_addr bind_index id port
artnet_tx_tod_data_to_requesters works tod_reply_addr (r ∷ rs) bind_index id port =
    tod_data_to works bind_index id port 0 sent_ok (r ∷ rs)
