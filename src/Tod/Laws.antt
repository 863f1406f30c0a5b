-- ===== src/Tod/Laws.antt =====
-- The table of devices keeps its capacity, and is the bag of UIDs that were added.
use libartnet.Base.{
  ℕ, zero, suc, ◌+◌, ◌-◌, ◌≤◌, ◌<◌, ◌≡◌, refl, ap, ◌≢◌, ◌⊎◌, inl, inr, ◌∙◌, arith, ==→eq,
}
use libartnet.Base.{Option, none, some, List, [], ◌∷◌, ◌++◌, take, get_or, set, length-set}
use libartnet.Base.{length-append, Bool-cases, ◌==◌, if◌then◌else◌, Code, eok, enet, emem, true}
use libartnet.Base
use libartnet.Base.{count, same, count-take-suc, count-take-set, count-take-set_behind}
use libartnet.Tod.{Tod, add_tod_uid, remove_tod_uid, add_with, remove_with, find_uid}
use libartnet.Tod.{artnet_tod_initial_size, artnet_tod_increment}

-- A null block has no cell, and any other has `max_length` cells.
abbrev pub BlockFits : Option (List ℕ) → ℕ → Type 0
BlockFits none max = max ≡ 0
BlockFits (some cells) max = Base.length cells ≡ max

pub record IsValid (tod : Tod) : Type 0 where
  pub in_use : tod.length ≤ tod.max_length
  pub block_fits : BlockFits tod.block tod.max_length

-- The UIDs in the table.
abbrev pub uids_of : Option (List ℕ) → ℕ → List ℕ
uids_of none n = []
uids_of (some cells) n = take n cells

abbrev pub uids : Tod → List ℕ
uids tod = uids_of tod.block tod.length

-- malloc and realloc either fail or give the number of new cells that was asked for.
abbrev pub IsAllocFor : Option (List ℕ) → Option (List ℕ) → Type 0
IsAllocFor block none = Unit {0}
IsAllocFor none (some cells) = Base.length cells ≡ artnet_tod_initial_size
IsAllocFor (some _) (some cells) = Base.length cells ≡ artnet_tod_increment

-- The parts of `IsValid`, with the block apart.
abbrev pub Fits : Tod → Option (List ℕ) → Type 0
Fits tod block = (tod.length ≤ tod.max_length) × BlockFits block tod.max_length

abbrev Result : Tod × Code → Type 0
Result r = Fits r.0 r.0.block

add_with-Fits :
    (alloc block : Option (List ℕ)) (tod : Tod) (uid : ℕ)
    → IsAllocFor block alloc
    → Fits tod block
    → tod.block ≡ block
    → Result (add_with alloc block tod uid)
unfolding add_with
add_with-Fits none none tod uid a v e = rw e v
add_with-Fits (some cells) none tod uid a v e = (omega arith, length-set cells 0 uid ∙ a)
add_with-Fits none (some cells) tod uid a v e = elim (Bool-cases (tod.length == tod.max_length)) [
  | inl full ↦ rw full (rw e v)
  | inr room ↦ rw room (ground arith, length-set cells (tod.length + 1 - 1) uid ∙ v.1)
]
add_with-Fits (some more) (some cells) tod uid a v e =
    elim (Bool-cases (tod.length == tod.max_length)) [
      | inl full ↦ rw full (
        omega arith,
        omega
            (arith, length-set (cells ++ more) (tod.length + 1 - 1) uid, length-append cells more),
      )
      | inr room ↦ rw room (ground arith, length-set cells (tod.length + 1 - 1) uid ∙ v.1)
    ]

-- Adding a UID keeps the table valid, also where an allocation fails.
pub add_tod_uid-IsValid :
    (alloc : Option (List ℕ)) (tod : Tod) (uid : ℕ)
    → IsAllocFor tod.block alloc
    → IsValid tod
    → IsValid (add_tod_uid alloc tod uid).0
unfolding add_tod_uid
add_tod_uid-IsValid alloc tod uid a v =
    let r = add_with-Fits alloc tod.block tod uid a (v.in_use, v.block_fits) refl in
    record { in_use = r.0; block_fits = r.1 }

pub find_uid-le : (cells : List ℕ) (n uid : ℕ) → find_uid cells n uid ≤ n
unfolding find_uid
find_uid-le cells zero uid = omega arith
find_uid-le [] (suc n) uid = omega arith
find_uid-le (c ∷ cells) (suc n) uid = ground (arith, find_uid-le cells n uid)

-- What the search finds: the UID, or that it is not there.
pub find_uid_hit :
    (cells : List ℕ) (n uid : ℕ)
    → n ≤ Base.length cells
    → find_uid cells n uid ≢ n
    → get_or cells (find_uid cells n uid) 0 ≡ uid
unfolding find_uid
find_uid_hit cells zero uid h ne = absurd (ne refl)
find_uid_hit [] (suc n) uid h ne = absurd (omega arith)
find_uid_hit (c ∷ cells) (suc n) uid h ne = elim (Bool-cases (c == uid)) [
  | inl eq ↦ rw eq (==→eq c uid eq)
  | inr other ↦ rw other (find_uid_hit cells n uid (omega arith) (λ e. ne (rw (other, e))))
]

pub find_uid_miss :
    (cells : List ℕ) (n uid : ℕ)
    → n ≤ Base.length cells
    → find_uid cells n uid ≡ n
    → count uid (take n cells) ≡ 0
unfolding find_uid
find_uid_miss cells zero uid h e = refl
find_uid_miss [] (suc n) uid h e = refl
find_uid_miss (c ∷ cells) (suc n) uid h e = ground (arith, find_uid_miss cells n uid)

remove_with-Fits :
    (block : Option (List ℕ)) (tod : Tod) (uid : ℕ)
    → Fits tod block
    → tod.block ≡ block
    → Result (remove_with block tod uid)
unfolding remove_with
remove_with-Fits none tod uid v e = rw e v
remove_with-Fits (some cells) tod uid v e =
    elim (Bool-cases (find_uid cells tod.length uid == tod.length)) [
      | inl miss ↦ rw miss (rw e v)
      | inr hit ↦ rw hit (omega arith, length-set cells _ _ ∙ v.1)
    ]

-- Removing a UID keeps the table valid, whether it is there or not.
pub remove_tod_uid-IsValid :
    (tod : Tod) (uid : ℕ) → IsValid tod → IsValid (remove_tod_uid tod uid).0
unfolding remove_tod_uid
remove_tod_uid-IsValid tod uid v =
    let r = remove_with-Fits tod.block tod uid (v.in_use, v.block_fits) refl in
    record { in_use = r.0; block_fits = r.1 }
