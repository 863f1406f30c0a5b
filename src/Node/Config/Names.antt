-- ===== src/Node/Config/Names.antt =====
-- Setting a name copies its bytes without a zero after them.
use libartnet.Base.{
  ltb, if◌then◌else◌, Bool-cases, inl, inr, ℕ, zero, suc, ◌<◌, ◌≤◌, ◌+◌, ◌-◌, ◌≡◌, refl, ◌∙◌, arith,
  List, [], ◌∷◌, get_or, set, memcpy, min, get_or-memcpy,
}
use libartnet.Base
use libartnet.Node.{Node}
use libartnet.Node.Config.{set_name, artnet_set_short_name}

get_or-set_other : (xs : List ℕ) (i k : ℕ) → i < k → get_or (set xs k 0) i 0 ≡ get_or xs i 0
get_or-set_other [] i k h = refl
get_or-set_other (x ∷ xs) i zero h = absurd (omega arith)
get_or-set_other (x ∷ xs) zero (suc k) h = refl
get_or-set_other (x ∷ xs) (suc i) (suc k) h = get_or-set_other xs i k (omega arith)

get_or-memcpy_past :
    (dst src : List ℕ) (n i : ℕ) → n ≤ i → get_or (memcpy dst src n) i 0 ≡ get_or dst i 0
unfolding memcpy
get_or-memcpy_past dst src zero i h = refl
get_or-memcpy_past [] src (suc n) i h = refl
get_or-memcpy_past (d ∷ dst) [] (suc n) i h = refl
get_or-memcpy_past (d ∷ dst) (s ∷ src) (suc n) zero h = absurd (omega arith)
get_or-memcpy_past (d ∷ dst) (s ∷ src) (suc n) (suc i) h =
    get_or-memcpy_past dst src n i (omega arith)

-- A short name of fewer than 17 bytes becomes the start of the field, and every byte after it but
-- the last keeps its old value: the tail of a longer old name stays behind it.
pub artnet_set_short_name_tail :
    (name : List ℕ) (n : Node) (i : ℕ)
    → Base.length n.short_name ≡ 18
    → i < 17
    → Base.length name < 17
    → get_or (artnet_set_short_name name n).short_name i 0
      ≡ (if ltb i (Base.length name) then get_or name i 0 else get_or n.short_name i 0)
unfolding artnet_set_short_name set_name
artnet_set_short_name_tail name n i size inside short =
    let count = min (Base.length name) (18 - 1) in
    let copied = memcpy n.short_name name count in
    get_or-set_other copied i (18 - 1) (omega arith)
    ∙ elim (Bool-cases (ltb i (Base.length name))) [
      | inl there ↦
          rw there
            (get_or-memcpy n.short_name name count i 0 (ground arith) (omega arith) (omega arith))
      | inr past ↦ rw past (get_or-memcpy_past n.short_name name count i (ground arith))
    ]
