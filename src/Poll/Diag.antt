-- ===== src/Poll/Diag.antt =====
-- Which controllers get diagnostics, and which polls are answered.
use libartnet.Base.{
  ℕ, ◌≤◌, ◌≡◌, ◌+◌, refl, ◌∙◌, arith, Bool, true, false, ◌&&◌, ◌||◌, not, List, [], ◌∷◌, ◌++◌,
}
use libartnet.Base.{ltb, Bool-cases, inl, inr, if_keeps, length-append, if◌then◌else◌}
use libartnet.Base
use libartnet.Base.{zero, suc, ◌*◌, ◌/◌, ◌%◌, ◌⊎◌, ◌↔◌, Option, some, get_elem?, leb, ◌==◌}
use libartnet.Port.{has_bit}
use libartnet.Packet.{Packet, byte}
use libartnet.Poll.{
  PollState, PortPair, handle_poll, configure_diag, remember_controller, is_targeted, target_addr,
  any_between,
}
use libartnet.Poll.{note_poll}

-- At most four controllers are stored, and with more than one diagnostics are not unicast.
pub record IsShared (st : PollState) : Type 0 where
  pub few : Base.length st.diag_controller_ips ≤ 4
  pub broadcast : (ltb 1 (Base.length st.diag_controller_ips) && st.diag_unicast) ≡ false

length-remember_controller :
    (ip : ℕ) (ips : List ℕ) → Base.length ips ≤ 4 → Base.length (remember_controller ip ips) ≤ 4
unfolding remember_controller
length-remember_controller ip ips few = ground (arith, length-append ips (ip ∷ []))

configure_diag-IsShared :
    (p : Packet) (st : PollState) → IsShared st → IsShared (configure_diag p st)
unfolding configure_diag
configure_diag-IsShared p st shared =
    ground (arith, length-remember_controller p.from st.diag_controller_ips)

-- An ArtPoll, answered or not, keeps the diagnostics settings right: at most four controllers are
-- remembered, and where there is more than one the diagnostics are broadcast.
pub handle_poll-IsShared :
    (handled is_raw : Bool) (now delay : ℕ) (p : Packet) (pairs : List PortPair) (st : PollState)
    → IsShared st
    → IsShared (handle_poll handled is_raw now delay p pairs st)
unfolding handle_poll
handle_poll-IsShared handled is_raw now delay p pairs st shared =
    if_keeps IsShared (handled || is_raw) shared (
      if_keeps IsShared (is_targeted p pairs)
        (record { few = configured.few; broadcast = configured.broadcast }) noted)
  where
    noted : IsShared (note_poll p st)
    noted = record { few = shared.few; broadcast = shared.broadcast }

    configured : IsShared (configure_diag p (note_poll p st))
    configured = configure_diag-IsShared p (note_poll p st) noted

-- The Port-Addresses from `bottom` to `top` hold that of a port of the node: of an output that is
-- on, or else of the input with its number.
IsCovered : ℕ → ℕ → List PortPair → Type 0
IsCovered bottom top pairs =
    (i : ℕ) × (pair : PortPair) × (get_elem? pairs i ≡ some pair)
    × (bottom ≤ (if pair.output_enabled then pair.output_addr else pair.input_addr))
    × ((if pair.output_enabled then pair.output_addr else pair.input_addr) ≤ top)

-- Whom an ArtPoll is for: everyone, outside the Target Mode of bit 5 of its flags; else everyone, if
-- its range is 0 to 0, or the nodes with a port in its range.
pub IsFor : Packet → List PortPair → Type 0
unfolding IsCovered
IsFor p pairs =
    let top = byte p 14 * 256 + byte p 15 in
    let bottom = byte p 16 * 256 + byte p 17 in
    (has_bit (byte p 12) 0x20 ≡ false) ⊎ (((bottom ≡ 0) × (top ≡ 0)) ⊎ IsCovered bottom top pairs)

covered :
    (bottom top : ℕ) (pairs : List PortPair)
    → any_between bottom top pairs ≡ true
    → IsCovered bottom top pairs
unfolding IsCovered
covered bottom top [] e = absurd (cc e)
covered bottom top (pair ∷ pairs) e =
    elim (Bool-cases (leb bottom (target_addr pair) && leb (target_addr pair) top)) [
      | inl inside ↦ (0, pair, refl, ground arith, ground arith)
      | inr outside ↦
          let later : any_between bottom top pairs ≡ true = cc (e, outside) in
          let (i, found, at, low, high) = covered bottom top pairs later in
          (suc i, found, at, low, high)
    ]

covers :
    (bottom top : ℕ) (pairs : List PortPair)
    → IsCovered bottom top pairs
    → any_between bottom top pairs ≡ true
unfolding IsCovered
covers bottom top [] (i, pair, at, low, high) = absurd (cc at)
covers bottom top (x ∷ pairs) (zero, pair, at, low, high) =
    let same : x ≡ pair = cc at in rw same (ground arith)
covers bottom top (x ∷ pairs) (suc i, pair, at, low, high) =
    rw (covers bottom top pairs (i, pair, at, low, high)) (ground arith)

in_range :
    (bottom top : ℕ) (pairs : List PortPair)
    → (bottom == 0 && top == 0 || any_between bottom top pairs) ≡ true
    → ((bottom ≡ 0) × (top ≡ 0)) ⊎ IsCovered bottom top pairs
in_range bottom top pairs e = elim (Bool-cases (bottom == 0 && top == 0)) [
  | inl everyone ↦ inl (ground arith, ground arith)
  | inr some_range ↦ inr (covered bottom top pairs (cc (e, some_range)))
]

targeted-IsFor : (p : Packet) (pairs : List PortPair) → is_targeted p pairs ≡ true → IsFor p pairs
unfolding is_targeted IsFor
targeted-IsFor p pairs e = elim (Bool-cases (has_bit (byte p 12) 0x20)) [
  | inl target_mode ↦ inr (in_range _ _ pairs (cc (e, target_mode)))
  | inr anyone ↦ inl anyone
]

IsFor-targeted : (p : Packet) (pairs : List PortPair) → IsFor p pairs → is_targeted p pairs ≡ true
unfolding is_targeted IsFor
IsFor-targeted p pairs (inl anyone) = rw anyone refl
IsFor-targeted p pairs (inr (inl (low, high))) = ground arith
IsFor-targeted p pairs (inr (inr inside)) =
    let found = covers _ _ pairs inside in ground (arith, found)

-- A node that has no reply pending schedules one for an ArtPoll exactly where the node is not raw,
-- no callback takes the packet, and the poll is for the node: it is not in Target Mode, or its range
-- of Port-Addresses is 0 to 0, or it holds that of an output that is on or, where the output is off,
-- of the input with its number.
pub handle_poll_answers :
    (handled is_raw : Bool) (now delay : ℕ) (p : Packet) (pairs : List PortPair) (st : PollState)
    → st.apr_pending ≡ false
    → ((handle_poll handled is_raw now delay p pairs st).apr_pending ≡ true)
      ↔ ((handled ≡ false) × (is_raw ≡ false) × IsFor p pairs)
unfolding handle_poll
handle_poll_answers true is_raw now delay p pairs st idle =
    (λ pending. absurd (cc (pending, idle)), λ (refused, _, _). absurd (cc refused))
handle_poll_answers false true now delay p pairs st idle =
    (λ pending. absurd (cc (pending, idle)), λ (_, raw, _). absurd (cc raw))
handle_poll_answers false false now delay p pairs st idle =
    elim (Bool-cases (is_targeted p pairs)) [
      | inl for_it ↦ (λ pending. (refl, refl, targeted-IsFor p pairs for_it), λ _. rw for_it refl)
      | inr not_for_it ↦ (
        λ pending. absurd (cc (pending, idle, not_for_it)),
        λ (_, _, wanted). absurd (cc (IsFor-targeted p pairs wanted, not_for_it)),
      )
    ]
