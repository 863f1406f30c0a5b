-- ===== src/Tod/Bag.antt =====
-- What the operations of the table do to the UIDs in it.
use libartnet.Base.{ℕ, zero, suc, ◌+◌, ◌-◌, ◌≤◌, ◌<◌, ◌≡◌, refl, sym, ap, ◌≢◌, ◌⊎◌, inl, inr, ◌∙◌}
use libartnet.Base.{arith, ==→eq, take-set_end, take-append_left}
use libartnet.Base.{Option, none, some, List, [], ◌∷◌, ◌++◌, take, get_or, set}
use libartnet.Base.{length-append, Bool-cases, ◌==◌, Code, eok, enet, emem, true, false}
use libartnet.Base
use native.Mathlib.Decide.{dec_lt}
use libartnet.Base.{count, same, count-take-suc, count-take-set, count-take-set_behind}
use libartnet.Tod.{Tod, add_tod_uid, remove_tod_uid, add_with, remove_with, find_uid}
use libartnet.Tod.Laws.{IsValid, IsAllocFor, uids, Fits, find_uid_hit, find_uid_miss, find_uid-le}

-- The new table against the old one, by the code that was returned.
abbrev pub Added : Tod → ℕ → Tod × Code → Type 0
Added tod uid (after, eok) = uids after ≡ uids tod ++ (uid ∷ [])
Added tod uid (after, emem) = after ≡ tod
Added tod uid (after, _) = ⊥

store_end :
    (cells : List ℕ) (n uid : ℕ)
    → n < Base.length cells
    → take (n + 1) (set cells (n + 1 - 1) uid) ≡ take n cells ++ (uid ∷ [])
store_end cells n uid h = rw (one_more, back) (take-set_end cells n uid h)
  where
    one_more : n + 1 ≡ suc n
    one_more = omega arith

    back : suc n - 1 ≡ n
    back = omega arith

add_with-Added :
    (alloc block : Option (List ℕ)) (tod : Tod) (uid : ℕ)
    → IsAllocFor block alloc
    → Fits tod block
    → tod.block ≡ block
    → Added tod uid (add_with alloc block tod uid)
unfolding add_with
add_with-Added none none tod uid a v e = refl
add_with-Added (some cells) none tod uid a v e = rw e (take-set_end cells 0 uid (omega arith))
add_with-Added none (some cells) tod uid a v e = elim (Bool-cases (tod.length == tod.max_length)) [
  | inl full ↦ rw full refl
  | inr room ↦ rw (room, e) (store_end cells tod.length uid (ground arith))
]
add_with-Added (some more) (some cells) tod uid a v e =
    elim (Bool-cases (tod.length == tod.max_length)) [
      | inl full ↦
          rw (full, e)
            (store_end (cells ++ more) tod.length uid (omega (arith, length-append cells more))
              ∙ ap (λ l. l ++ (uid ∷ [])) (take-append_left tod.length cells more (omega arith)))
      | inr room ↦ rw (room, e) (store_end cells tod.length uid (ground arith))
    ]

-- Adding a UID either puts it behind the others and returns ARTNET_EOK, or returns ARTNET_EMEM and
-- leaves the table as it was.
pub add_tod_uid-Added :
    (alloc : Option (List ℕ)) (tod : Tod) (uid : ℕ)
    → IsAllocFor tod.block alloc
    → IsValid tod
    → Added tod uid (add_tod_uid alloc tod uid)
unfolding add_tod_uid
add_tod_uid-Added alloc tod uid a v =
    add_with-Added alloc tod.block tod uid a (v.in_use, v.block_fits) refl

-- One copy of the UID leaves the table, or there was none and the table stays.
abbrev pub Removed : Tod → ℕ → Tod × Code → Type 0
Removed tod uid (after, eok) = (v : ℕ) → count v (uids after) + same v uid ≡ count v (uids tod)
Removed tod uid (after, enet) = (after ≡ tod) × (count uid (uids tod) ≡ 0)
Removed tod uid (after, _) = ⊥

-- The last of the first `n` cells takes the place of the one that was found.
take_out_at :
    (cells : List ℕ) (n i uid w : ℕ)
    → suc n ≤ Base.length cells
    → i < suc n
    → get_or cells i 0 ≡ uid
    → count w (take n (set cells i (get_or cells n 0))) + same w uid ≡ count w (take (suc n) cells)
take_out_at cells n i uid w fits h e = elim (dec_lt i n) [
  | yes before ↦ rw (← e) (
      omega (
        arith,
        count-take-set w cells n i (get_or cells n 0) before (omega arith),
        count-take-suc w cells n fits,
      ))
  | no last ↦
      let at : i ≡ n = omega arith in
      rw (← e, at)
        (omega (
          arith,
          count-take-set_behind w cells n n (get_or cells n 0) (omega arith),
          count-take-suc w cells n fits,
        ))
]

take_out :
    (cells : List ℕ) (n uid w : ℕ)
    → n ≤ Base.length cells
    → find_uid cells n uid ≢ n
    → count w (take (n - 1) (set cells (find_uid cells n uid) (get_or cells (n - 1) 0)))
        + same w uid
      ≡ count w (take n cells)
take_out cells zero uid w fits ne = absurd (ne (omega (arith, find_uid-le cells zero uid)))
take_out cells (suc n) uid w fits ne = rw back (
    take_out_at cells n (find_uid cells (suc n) uid) uid w fits
      (omega (arith, find_uid-le cells (suc n) uid)) (find_uid_hit cells (suc n) uid fits ne))
  where
    back : suc n - 1 ≡ n
    back = omega arith

remove_with-Removed :
    (block : Option (List ℕ)) (tod : Tod) (uid : ℕ)
    → Fits tod block
    → tod.block ≡ block
    → Removed tod uid (remove_with block tod uid)
unfolding remove_with
remove_with-Removed none tod uid v e = (refl, rw e refl)
remove_with-Removed (some cells) tod uid v e =
    elim (Bool-cases (find_uid cells tod.length uid == tod.length)) [
      | inl miss ↦
          rw miss (refl, rw e (find_uid_miss cells tod.length uid (omega arith) (==→eq _ _ miss)))
      | inr hit ↦ rw (hit, e) (λ w. take_out cells tod.length uid w (omega arith) (ground arith))
    ]

-- Removing a UID takes one copy of it from the table, whatever the order of the rest, and returns
-- ARTNET_EOK, or returns -1 and leaves the table as it was, which has none.
pub remove_tod_uid-Removed :
    (tod : Tod) (uid : ℕ) → IsValid tod → Removed tod uid (remove_tod_uid tod uid)
unfolding remove_tod_uid
remove_tod_uid-Removed tod uid v =
    remove_with-Removed tod.block tod uid (v.in_use, v.block_fits) refl
