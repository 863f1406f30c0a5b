-- ===== src/NodeList/Update.antt =====
-- The node list after an update and after a clean-up.
use libartnet.Base.{ℕ, zero, suc, ◌+◌, ◌-◌, ◌≡◌, refl, ◌∙◌, ap, arith, Bool, true, false, ◌&&◌, not}
use libartnet.Base.{
  Option, none, some, List, [], ◌∷◌, ◌++◌, ◌==◌, ==→eq, ==_refl, if◌then◌else◌, Bool-cases, inl,
  inr,
}
use libartnet.Base.{memcpy, length-append}
use libartnet.Base
use Prim.{Unit}
use libartnet.Base.{leb, ◌<◌, ◌^◌}
use libartnet.NodeList.{PrivateEntry, NodeList}
use libartnet.NodeList.{purge, purge_nodes}
use libartnet.Time.{is_older, nodelist_timeout_ms}

-- The entries that have been heard in the last 15 seconds, or that are dated after `now`
abbrev pub recent : ℕ → List PrivateEntry → List PrivateEntry
recent now [] = []
recent now (e ∷ es) = if leb now (e.last_seen + 15000) then e ∷ recent now es else recent now es

-- The times of the entries, as an int64_t of milliseconds can count them
abbrev pub AllDated : List PrivateEntry → Type 0
AllDated [] = Unit {0}
AllDated (e ∷ es) = (e.last_seen < 2 ^ 63) × AllDated es

is_older_lem :
    (now seen : ℕ)
    → now < 2 ^ 63
    → seen < 2 ^ 63
    → is_older now seen nodelist_timeout_ms ≡ not (leb now (seen + 15000))
unfolding is_older
is_older_lem now seen h k = ground arith

-- `gone` entries are elsewhere: the count goes down by one for each entry that is dropped.
purge-recent :
    (now : ℕ) (es : List PrivateEntry) (n gone : ℕ)
    → now < 2 ^ 63
    → AllDated es
    → n ≡ Base.length es + gone
    → ((purge now es n).0 ≡ recent now es)
      × ((purge now es n).1 ≡ Base.length (recent now es) + gone)
unfolding purge
purge-recent now [] n gone h dated e = (refl, e)
purge-recent now (x ∷ es) n gone h (early, dated) e =
    elim (Bool-cases (leb now (x.last_seen + 15000))) [
      | inr old ↦
          rw (is_older_lem now x.last_seen h early, old)
            (purge-recent now es (n - 1) gone h dated (omega arith))
      | inl new ↦
          let (same, count) = purge-recent now es n (suc gone) h dated (omega arith) in
          rw (is_older_lem now x.last_seen h early, new)
            (ap (λ kept. x ∷ kept) same, count ∙ omega arith)
    ]

-- Where all times are below 2^63 and the length is right, the clean-up at the time `now` keeps
-- exactly the entries that were heard within 15000 ms before it, or are dated after it, in their
-- order and unchanged, and the length stays right.
pub purge_nodes-recent :
    (now : ℕ) (nl : NodeList)
    → now < 2 ^ 63
    → AllDated nl.entries
    → nl.length ≡ Base.length nl.entries
    → ((purge_nodes now nl).entries ≡ recent now nl.entries)
      × ((purge_nodes now nl).length ≡ Base.length (recent now nl.entries))
unfolding purge_nodes
purge_nodes-recent now nl h dated e =
    let (kept, count) = purge-recent now nl.entries nl.length 0 h dated (omega arith) in
    (kept, count ∙ omega arith)
