-- ===== src/Tod.antt =====
-- artnet/tod.c: the table of devices of a port, a growing array of RDM UIDs.
-- A UID is the number that its six bytes are, so that `memcmp(...) == 0` is equality. The callers
-- pass the address of a port's table, so a null `tod` does not arise.
pub mod Laws
pub mod Bag
mod Tests
use libartnet.Base.{ℕ, zero, suc, ◌+◌, ◌-◌, Option, none, some, List, [], ◌∷◌, ◌++◌}
use libartnet.Base.{length, set, get_or, if◌then◌else◌, ◌==◌, Code, eok, enet, emem}

abbrev pub artnet_tod_initial_size : ℕ
artnet_tod_initial_size = 100

abbrev pub artnet_tod_increment : ℕ
artnet_tod_increment = 50

-- `tod_t`. `data` is null or a block of `max_length` cells, the first `length` of them in use.
pub record Tod : Type 0 where
  pub block : Option (List ℕ)
  pub length : ℕ
  pub max_length : ℕ

-- `memcpy` of `uid` to the last used cell
unfoldable pub store_last : List ℕ → ℕ → ℕ → List ℕ
store_last cells n uid = set cells (n - 1) uid

-- The branch of `add_tod_uid` for a null `data`: malloc.
add_first : Option (List ℕ) → Tod → ℕ → Tod × Code
add_first none tod uid = (tod, emem)
add_first (some cells) tod uid = (
  record {
    block = some (store_last cells 1 uid);
    length = 1;
    max_length = artnet_tod_initial_size;
  },
  eok,
)

-- The branch for a full table: realloc.
add_full : Option (List ℕ) → List ℕ → Tod → ℕ → Tod × Code
add_full none cells tod uid = (tod, emem)
add_full (some more) cells tod uid = (
  record {
    block = some (store_last (cells ++ more) (tod.length + 1) uid);
    length = tod.length + 1;
    max_length = tod.max_length + artnet_tod_increment;
  },
  eok,
)

-- The three branches over `data`.
unfoldable pub add_with : Option (List ℕ) → Option (List ℕ) → Tod → ℕ → Tod × Code
unfolding store_last add_first add_full
add_with alloc none tod uid = add_first alloc tod uid
add_with alloc (some cells) tod uid =
    if tod.length == tod.max_length then add_full alloc cells tod uid else (
      record tod { block = some (store_last cells (tod.length + 1) uid); length = tod.length + 1 },
      eok,
    )

-- `add_tod_uid`. `alloc` is what malloc or realloc gives: nothing, or the cells that are new (with
-- whatever they hold), which realloc puts behind the old ones.
unfoldable pub add_tod_uid : Option (List ℕ) → Tod → ℕ → Tod × Code
unfolding add_with
add_tod_uid alloc tod uid = add_with alloc tod.block tod uid

-- The search loop of `remove_tod_uid`: the first of the `n` used cells that holds `uid`, or `n`.
pub find_uid : List ℕ → ℕ → ℕ → ℕ
find_uid cells zero uid = 0
find_uid [] (suc n) uid = suc n
find_uid (c ∷ cells) (suc n) uid = if c == uid then 0 else suc (find_uid cells n uid)

pub remove_with : Option (List ℕ) → Tod → ℕ → Tod × Code
unfolding find_uid
remove_with none tod uid = (tod, enet)
remove_with (some cells) tod uid =
    let i = find_uid cells tod.length uid in
    if i == tod.length then (tod, enet) else (
      record tod {
        block = some (set cells i (get_or cells (tod.length - 1) 0));
        length = tod.length - 1;
      },
      eok,
    )

-- `remove_tod_uid`: the last entry takes the place of the removed one.
pub remove_tod_uid : Tod → ℕ → Tod × Code
unfolding remove_with
remove_tod_uid tod uid = remove_with tod.block tod uid

-- `flush_tod`, and `reset_tod`, which has the same body.
unfoldable pub flush_tod : Tod → Tod × Code
flush_tod tod = (record { block = none; length = 0; max_length = 0 }, eok)

unfoldable pub reset_tod : Tod → Tod × Code
reset_tod tod = (record { block = none; length = 0; max_length = 0 }, eok)
