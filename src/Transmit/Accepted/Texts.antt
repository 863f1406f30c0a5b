-- ===== src/Transmit/Accepted/Texts.antt =====
-- The packets of Transmit/Data are accepted, under what the code leaves to its caller.
use libartnet.Base.{
  ℕ, zero, suc, ◌+◌, ◌-◌, ◌≤◌, ◌<◌, ◌^◌, ◌≡◌, ◌∙◌, ◌⊎◌, inl, inr, refl, arith, Bool-cases, min,
  length,
}
use libartnet.Base.{◌==◌, ◌||◌, ◌&&◌, not, ltb, Bool, true, List, [], ◌∷◌, ◌++◌, Option, none, some}
use libartnet.Base.{if◌then◌else◌, get_or, memcpy, replicate, get_or-memcpy}
use libartnet.Packet.{opcode_type, packet_length_is_valid, min_len}
use libartnet.Packet.{diag_data, data_request, data_reply, command}
use libartnet.Packet.Fields.{
  packet_fields_are_valid, type_is_valid, diag_data_is_valid, data_request_is_valid,
  data_reply_is_valid, command_is_valid,
}
use libartnet.Transmit.{
  send_to, TxState, ℤ, is_negative, is_missing, magnitude, content, Target, no_target, bad_target,
  target,
}
use libartnet.Transmit.Accepted.{Passes, refused, guard-Passes, sent-Passes, version}
use libartnet.Transmit.Data.{
  artnet_tx_diagdata, artnet_tx_data_request, artnet_tx_data_reply, artnet_tx_command, send_command,
  diag_bytes, request_bytes, data_reply_bytes, command_bytes,
}
use libartnet.Wire.Misc.{bytes_to_short-get_bytes}

get_or-zeros : (m i : ℕ) → get_or {A = ℕ} (replicate m 0) i 0 ≡ 0
get_or-zeros zero i = refl
get_or-zeros (suc m) zero = refl
get_or-zeros (suc m) (suc i) = get_or-zeros m i

-- Behind what was copied the buffer keeps its zeros.
pub get_or-memcpy_behind :
    (m n i : ℕ) (src : List ℕ) → n ≤ i → get_or (memcpy (replicate m 0) src n) i 0 ≡ 0
unfolding memcpy
get_or-memcpy_behind zero zero i src h = refl
get_or-memcpy_behind zero (suc n) i src h = refl
get_or-memcpy_behind (suc m) zero i src h = get_or-zeros (suc m) i
get_or-memcpy_behind (suc m) (suc n) zero src h = absurd (omega arith)
get_or-memcpy_behind (suc m) (suc n) (suc i) [] h = get_or-zeros m i
get_or-memcpy_behind (suc m) (suc n) (suc i) (s ∷ src) h =
    get_or-memcpy_behind m n i src (omega arith)

-- The five priorities of `artnet_diag_priority_code`
abbrev pub is_priority : ℕ → Bool
is_priority p = p == 0x10 || p == 0x40 || p == 0x80 || p == 0xe0 || p == 0xf0

unfoldable pub request_is_known : ℕ → Bool
request_is_known code = not (ltb 0x0005 code && ltb code 0x8000)

-- A text that the caller ends itself: `len` bytes, the last a zero, or none
abbrev pub Ends : Option (List ℕ) → ℕ → Type 0
Ends text len =
    (len ≡ 0)
    ⊎ ((0 < len) × (len ≤ length (content text)) × (get_or (content text) (len - 1) 0 ≡ 0))

pub data_request-Passes :
    (s : TxState) (ip : Target) (code : ℕ)
    → code < 2 ^ 16
    → request_is_known code ≡ true
    → Passes (artnet_tx_data_request s ip code)
unfolding artnet_tx_data_request opcode_type packet_length_is_valid min_len packet_fields_are_valid
    type_is_valid data_request_is_valid request_is_known
data_request-Passes s no_target code h known = guard-Passes (not s.mode_on) _ _ (λ on. refused _)
data_request-Passes s bad_target code h known = guard-Passes (not s.mode_on) _ _ (λ on. refused _)
data_request-Passes s (target ip) code h known = guard-Passes (not s.mode_on) _ _ (λ on.
    sent-Passes ip 40 data_request (request_bytes 0x27 s code ++ replicate 22 0) (omega arith) refl
      refl refl (rw (version, bytes_to_short-get_bytes code h) known))

diag-Passes :
    (to priority logical_port : ℕ) (text : List ℕ) (n : ℕ)
    → is_priority priority ≡ true
    → n ≤ 511
    → Passes (send_to to (530 - (512 - n - 1)) diag_data (diag_bytes priority logical_port text n))
unfolding opcode_type packet_length_is_valid min_len packet_fields_are_valid type_is_valid
    diag_data_is_valid
diag-Passes to priority logical_port text n known small =
    let back : n + 1 - 1 ≡ n = omega arith in
    sent-Passes to (530 - (512 - n - 1)) diag_data (diag_bytes priority logical_port text n)
      (omega arith) refl refl (ground arith)
      (rw (version, bytes_to_short-get_bytes (n + 1) (omega arith), known, back)
        (ground (arith, get_or-memcpy_behind 512 n n text (omega arith))))

pub diagdata-Passes :
    (s : TxState) (priority logical_port : ℕ) (text : Option (List ℕ))
    → is_priority priority ≡ true
    → Passes (artnet_tx_diagdata s priority logical_port text)
unfolding artnet_tx_diagdata
diagdata-Passes s priority logical_port none known =
    guard-Passes (not s.mode_on) _ _ (λ on. refused _)
diagdata-Passes s priority logical_port (some text) known =
    let n = min (length text) 511 in
    guard-Passes (not s.mode_on) _ _ (λ on. guard-Passes (not s.diag_enabled) _ _ (λ enabled.
      guard-Passes (ltb priority s.diag_priority) _ _ (λ high. elim (Bool-cases s.diag_unicast) [
        | inl unicast ↦ rw unicast (
            guard-Passes (s.reply_addr == 0) _ _ (λ someone.
              diag-Passes s.reply_addr priority logical_port text n known (omega arith)))
        | inr broadcast ↦
            rw broadcast (diag-Passes s.bcast_addr priority logical_port text n known (omega arith))
      ])))

command-Ends :
    (text : Option (List ℕ)) (n : ℕ)
    → n ≤ 512
    → Ends text n
    → (if n == 0
        then true
        else not (ltb n 1 || ltb 512 n)
          && get_or (memcpy (replicate 512 0) (content text) n) (n - 1) 0 == 0)
      ≡ true
command-Ends text n small (inl e) = rw e refl
command-Ends text n small (inr (some_text, held, last)) =
    let copied : get_or (memcpy (replicate 512 0) (content text) n) (n - 1) 0 ≡ 0 =
      get_or-memcpy (replicate 512 0) (content text) n (n - 1) 0 (omega arith) small held ∙ last in
    rw copied (ground arith)

send_command-Passes :
    (to esta_man : ℕ) (text : Option (List ℕ)) (n : ℕ)
    → n ≤ 512
    → Ends text n
    → Passes (send_command to esta_man text n)
unfolding opcode_type packet_length_is_valid min_len packet_fields_are_valid type_is_valid
    command_is_valid
send_command-Passes to esta_man text n small ends =
    sent-Passes to (528 - 512 + n) command (command_bytes esta_man (content text) n) (omega arith)
      refl refl (ground arith)
      (rw (version, bytes_to_short-get_bytes n (omega arith))
        (ground (arith, command-Ends text n small ends)))

pub command-Passes :
    (s : TxState) (esta_man : ℕ) (text : Option (List ℕ)) (len : ℤ) (ip : Target)
    → Ends text (magnitude len)
    → Passes (artnet_tx_command s esta_man text len ip)
unfolding artnet_tx_command
command-Passes s esta_man text len no_target ends = guard-Passes (not s.mode_on) _ _ (λ on.
    guard-Passes (is_negative len || ltb 512 (magnitude len) || is_missing len text) _ _
      (λ valid. send_command-Passes s.bcast_addr esta_man text (magnitude len) (ground arith) ends))
command-Passes s esta_man text len bad_target ends = guard-Passes (not s.mode_on) _ _ (λ on.
    guard-Passes (is_negative len || ltb 512 (magnitude len) || is_missing len text) _ _
      (λ valid. refused _))
command-Passes s esta_man text len (target to) ends = guard-Passes (not s.mode_on) _ _ (λ on.
    guard-Passes (is_negative len || ltb 512 (magnitude len) || is_missing len text) _ _
      (λ valid. send_command-Passes to esta_man text (magnitude len) (ground arith) ends))

data_reply_sent :
    (s : TxState) (ip code : ℕ) (payload : Option (List ℕ)) (n : ℕ)
    → code < 2 ^ 16
    → request_is_known code ≡ true
    → n ≤ 512
    → Ends payload n
    → Passes (send_to ip 532 data_reply (data_reply_bytes s code (content payload) n))
unfolding opcode_type packet_length_is_valid min_len packet_fields_are_valid type_is_valid
    data_reply_is_valid request_is_known
data_reply_sent s ip code payload n h known small ends =
    sent-Passes ip 532 data_reply (data_reply_bytes s code (content payload) n) (omega arith) refl
      refl refl
      (rw
        (version, bytes_to_short-get_bytes code h, known, bytes_to_short-get_bytes n (omega arith))
        (ground (arith, command-Ends payload n small ends)))

pub data_reply-Passes :
    (s : TxState) (ip : Target) (code : ℕ) (payload : Option (List ℕ)) (len : ℤ)
    → code < 2 ^ 16
    → request_is_known code ≡ true
    → Ends payload (min (magnitude len) 512)
    → Passes (artnet_tx_data_reply s ip code payload len)
unfolding artnet_tx_data_reply
data_reply-Passes s no_target code payload len h known ends =
    guard-Passes (not s.mode_on) _ _ (λ on. refused _)
data_reply-Passes s bad_target code payload len h known ends =
    guard-Passes (not s.mode_on) _ _ (λ on. refused _)
data_reply-Passes s (target ip) code payload len h known ends =
    guard-Passes (not s.mode_on) _ _ (λ on.
      guard-Passes (is_negative len || is_missing len payload) _ _ (λ valid.
        data_reply_sent s ip code payload (min (magnitude len) 512) h known (omega arith) ends))
