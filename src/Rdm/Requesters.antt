-- ===== src/Rdm/Requesters.antt =====
-- The controllers that a node remembers: at most eight, each once.
use libartnet.Base.{ℕ, ◌≤◌, ◌<◌, ◌≡◌, refl, ◌∙◌, ◌⊎◌, arith, inl, inr, Bool-cases}
use libartnet.Base.{
  Bool, true, false, ◌||◌, List, [], ◌∷◌, ◌++◌, ◌==◌, ltb, ltb→lt, length, length-append,
}
use libartnet.Node.{Node}
use libartnet.Packet.{Packet, byte}
use libartnet.Rdm.{
  RdmState, is_in, remember_tod_requester, handle_tod_request, handle_tod_control, handle_rdm,
  answers_tod,
}

abbrev pub AreDistinct : List ℕ → Type 0
AreDistinct [] = Unit {0}
AreDistinct (r ∷ rs) = (is_in r rs ≡ false) × AreDistinct rs

pub record IsRoster (ips : List ℕ) : Type 0 where
  pub few : length ips ≤ 8
  pub distinct : AreDistinct ips
  pub no_zero : is_in 0 ips ≡ false

is_in-append : (r s : ℕ) (ips : List ℕ) → is_in r (ips ++ (s ∷ [])) ≡ is_in r ips || s == r
is_in-append r s [] = elim (Bool-cases (s == r)) [ inl e ↦ rw e refl | inr e ↦ rw e refl ]
is_in-append r s (x ∷ ips) = elim (Bool-cases (x == r)) [
  | inl e ↦ rw e refl
  | inr e ↦ rw e (is_in-append r s ips)
]

other_way : (r s : ℕ) → r == s ≡ false → s == r ≡ false
other_way r s e = ground arith

pub neither : (a b : Bool) → a || b ≡ false → (a ≡ false) × (b ≡ false)
neither true b e = absurd (cc e)
neither false b e = (refl, e)

append-AreDistinct :
    (r : ℕ) (ips : List ℕ) → is_in r ips ≡ false → AreDistinct ips → AreDistinct (ips ++ (r ∷ []))
append-AreDistinct r [] e d = (refl, tt)
append-AreDistinct r (x ∷ ips) e d =
    let new = neither (x == r) (is_in r ips) e in
    (is_in-append x r ips ∙ rw (d.0, other_way x r new.0) refl, append-AreDistinct r ips new.1 d.1)

-- What `remember_tod_requester` can do: nothing, or put a new address behind the others.
abbrev Remembered : ℕ → List ℕ → List ℕ → Type 0
Remembered r before after =
    (after ≡ before)
    ⊎ ((after ≡ before ++ (r ∷ []))
        × (length before < 8)
        × (is_in r before ≡ false)
        × (r == 0 ≡ false))

remember-Remembered : (r : ℕ) (ips : List ℕ) → Remembered r ips (remember_tod_requester r ips)
unfolding remember_tod_requester
remember-Remembered r ips = elim (Bool-cases (r == 0)) [
  | inl nobody ↦ rw nobody (inl refl)
  | inr someone ↦ elim (Bool-cases (is_in r ips)) [
    | inl known ↦ rw (someone, known) (inl refl)
    | inr new ↦ elim (Bool-cases (ltb (length ips) 8)) [
      | inl room ↦ rw (someone, new, room) (inr (refl, ltb→lt _ _ room, refl, refl))
      | inr full ↦ rw (someone, new, full) (inl refl)
    ]
  ]
]

remember-IsRoster : (r : ℕ) (ips : List ℕ) → IsRoster ips → IsRoster (remember_tod_requester r ips)
remember-IsRoster r ips v = elim (remember-Remembered r ips) [
  | inl same ↦ rw same v
  | inr (longer, room, new, someone) ↦ rw longer (record {
    few = omega (arith, length-append ips (r ∷ []));
    distinct = append-AreDistinct r ips new v.distinct;
    no_zero = is_in-append 0 r ips ∙ rw (v.no_zero, someone) refl;
  })
]

remember-keeps :
    (r s : ℕ) (ips : List ℕ) → is_in s ips ≡ true → is_in s (remember_tod_requester r ips) ≡ true
remember-keeps r s ips known = elim (remember-Remembered r ips) [
  | inl same ↦ rw same known
  | inr (longer, _, _, _) ↦ rw longer (is_in-append s r ips ∙ rw known refl)
]

requesters_after_request :
    (handled : Bool) (works : ℕ → ℕ → ℕ → Bool) (p : Packet) (n : Node) (s : RdmState)
    → (handle_tod_request handled works p n s).0.tod_requester_ips
      ≡ remember_tod_requester p.from s.tod_requester_ips
unfolding handle_tod_request
requesters_after_request true works p n s = refl
requesters_after_request false works p n s = elim (Bool-cases (answers_tod n.node_type)) [
  | inl node ↦ elim (Bool-cases (byte p 22 == 0)) [
    | inl known ↦ rw (node, known) refl
    | inr other ↦ rw (node, other) refl
  ]
  | inr other ↦ rw other refl
]

-- A packet that one of the RDM handlers gets, at a node of any state and with whatever the
-- application's callback and the network answer
pub data RdmStep : RdmState → RdmState → Type 0 where
  tod_request :
      (handled : Bool) (works : ℕ → ℕ → ℕ → Bool) (p : Packet) (n : Node) (s : RdmState)
      → RdmStep s (handle_tod_request handled works p n s).0
  tod_control :
      (handled : Bool) (works : ℕ → ℕ → Bool) (p : Packet) (n : Node) (s : RdmState)
      → RdmStep s (handle_tod_control handled works p n s).1
  rdm : (handled : Bool) (p : Packet) (s : RdmState) → RdmStep s (handle_rdm handled p s).0

pub data RdmRun : RdmState → RdmState → Type 0 where
  at_rest : (s : RdmState) → RdmRun s s
  and_then : {s t u : RdmState} → RdmRun s t → RdmStep t u → RdmRun s u

-- A packet leaves the requesters as they are, or makes the node remember its sender.
step_requesters :
    (s t : RdmState)
    → RdmStep s t
    → (t.tod_requester_ips ≡ s.tod_requester_ips)
      ⊎ ((r : ℕ) × (t.tod_requester_ips ≡ remember_tod_requester r s.tod_requester_ips))
unfolding handle_tod_control handle_rdm
step_requesters s _ (tod_request handled works p n _) =
    inr (p.from, requesters_after_request handled works p n s)
step_requesters s _ (tod_control true works p n _) = inl refl
step_requesters s _ (tod_control false works p n _) = inr (p.from, refl)
step_requesters s _ (rdm true p _) = inl refl
step_requesters s _ (rdm false p _) = elim (Bool-cases s.rdm_c) [
  | inl called ↦ rw called (inl refl)
  | inr ignored ↦ rw ignored (inl refl)
]

-- Over any run of RDM packets the controllers that a node remembers for its tables are at most
-- eight, each stored once and none with the address 0, and none of them is forgotten, if the list
-- was such a list at the start.
pub RdmRun-IsRoster :
    (s t : RdmState)
    → RdmRun s t
    → IsRoster s.tod_requester_ips
    → IsRoster t.tod_requester_ips
      × ((r : ℕ) → is_in r s.tod_requester_ips ≡ true → is_in r t.tod_requester_ips ≡ true)
RdmRun-IsRoster s _ (at_rest _) v = (v, λ r known. known)
RdmRun-IsRoster s u (and_then {t = t} run step) v =
    let (valid, kept) = RdmRun-IsRoster s t run v in
    elim (step_requesters t u step) [
      | inl same ↦ rw same (valid, kept)
      | inr (r, e) ↦ rw e (
        remember-IsRoster r t.tod_requester_ips valid,
        λ q known. remember-keeps r q t.tod_requester_ips (kept q known),
      )
    ]
