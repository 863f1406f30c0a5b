-- ===== src/Transmit/Tod/Pages.antt =====
-- The pages of ArtTodData carry the table that they were made from.
use libartnet.Base.{
  ℕ, zero, suc, ◌+◌, ◌*◌, ◌-◌, ◌/◌, ◌%◌, ◌^◌, ◌≤◌, ◌<◌, ◌≡◌, refl, sym, ap, ◌∙◌, arith, min,
}
use libartnet.Base.{Bool, true, false, List, [], ◌∷◌, ◌++◌, Option, none, some}
use libartnet.Base.{
  ◌≢◌, ==→eq, ◌==◌, if◌then◌else◌, take, drop, length, length-take, length-drop, inl, inr,
  Bool-cases, take-append-take-drop, suc-add,
}
use libartnet.Port.{OutputPort}
use libartnet.Tod.Laws.{IsValid, uids, uids_of, BlockFits}
use libartnet.Transmit.{Datagram, Sent, sent_ok, sent_failed, send_unless_failed}
use libartnet.Transmit.Tod.{
  uid_bytes, tod_page, tod_pages, artnet_tx_tod_data, read_uids, page_uids, received_uids,
}

-- Each number has six bytes.
abbrev pub AreUids : List ℕ → Type 0
AreUids [] = Unit {0}
AreUids (u ∷ us) = (u < 2 ^ 48) × AreUids us

slice-AreUids :
    (off lim n : ℕ) (us : List ℕ)
    → off + lim ≤ n
    → AreUids (take n us)
    → AreUids (take lim (drop off us))
slice-AreUids zero zero n us h a = tt
slice-AreUids zero (suc lim) zero us h a = absurd (omega arith)
slice-AreUids zero (suc lim) (suc n) [] h a = tt
slice-AreUids zero (suc lim) (suc n) (u ∷ us) h a =
    (a.0, slice-AreUids zero lim n us (omega arith) a.1)
slice-AreUids (suc off) lim zero us h a = absurd (omega arith)
slice-AreUids (suc off) zero (suc n) [] h a = tt
slice-AreUids (suc off) (suc lim) (suc n) [] h a = tt
slice-AreUids (suc off) lim (suc n) (u ∷ us) h a = slice-AreUids off lim n us (omega arith) a.1

six_bytes :
    (u : ℕ)
    → u < 2 ^ 48
    → u / 2 ^ 40 * 2 ^ 40
        + u / 2 ^ 32 % 256 * 2 ^ 32
        + u / 2 ^ 24 % 256 * 2 ^ 24
        + u / 2 ^ 16 % 256 * 2 ^ 16
        + u / 2 ^ 8 % 256 * 2 ^ 8
        + u % 256
      ≡ u
six_bytes u h = omega arith

read_uids-uid_bytes :
    (us rest : List ℕ) → AreUids us → read_uids (length us) (uid_bytes us ++ rest) ≡ us
unfolding read_uids
read_uids-uid_bytes [] rest a = refl
read_uids-uid_bytes (u ∷ us) rest a = rw (six_bytes u a.0, read_uids-uid_bytes us rest a.1) refl

drop-drop : (i n : ℕ) (xs : List ℕ) → drop n (drop i xs) ≡ drop (i + n) xs
drop-drop zero n xs = ap (λ m. drop m xs) (omega arith)
drop-drop (suc i) zero [] = rw (suc-add i 0) refl
drop-drop (suc i) (suc n) [] = rw (suc-add i (suc n)) refl
drop-drop (suc i) n (x ∷ xs) = rw (suc-add i n) (drop-drop i n xs)

page_uids-tod_page :
    (bind_index id : ℕ) (port : OutputPort) (cells : List ℕ) (bloc offset lim : ℕ)
    → port.port_tod.block ≡ some cells
    → AreUids (take lim (drop offset cells))
    → lim ≤ 200
    → offset + lim ≤ length cells
    → page_uids (tod_page bind_index id port bloc offset lim) ≡ take lim (drop offset cells)
unfolding page_uids tod_page
page_uids-tod_page bind_index id port cells bloc offset lim e a small fits =
    let slice = take lim (drop offset cells) in
    let size : lim % 256 ≡ length slice =
      omega (arith, length-take lim (drop offset cells), length-drop offset cells) in
    rw (e, size) (read_uids-uid_bytes slice _ a)

-- What was sent is a first part of the UIDs, and all of them where the result is ARTNET_EOK.
pub record Delivers (wanted : List ℕ) (r : List Datagram × Sent) : Type 0 where
  pub rest : List ℕ
  pub first_part : received_uids r.0 ++ rest ≡ wanted
  pub whole : r.1 ≡ sent_ok → received_uids r.0 ≡ wanted

append_nil : (xs : List ℕ) → xs ++ [] ≡ xs
append_nil [] = refl
append_nil (x ∷ xs) = ap (λ l. x ∷ l) (append_nil xs)

pub append_assoc : (xs ys zs : List ℕ) → (xs ++ ys) ++ zs ≡ xs ++ (ys ++ zs)
append_assoc [] ys zs = refl
append_assoc (x ∷ xs) ys zs = ap (λ l. x ∷ l) (append_assoc xs ys zs)

not_ok : sent_failed ≡ sent_ok → ⊥
not_ok e = cc

module _ (works : ℕ → Bool) (to bind_index id : ℕ) (port : OutputPort) where
  pages_failed :
      (fuel bloc remaining : ℕ)
      → tod_pages works to bind_index id port fuel bloc sent_failed remaining ≡ ([], sent_failed)
  unfolding tod_pages send_unless_failed
  pages_failed zero bloc remaining = refl
  pages_failed (suc fuel) bloc remaining =
      rw (pages_failed fuel (suc bloc) (remaining - min 200 remaining)) (ground arith)

  failed-Delivers : (wanted : List ℕ) → Delivers wanted ([], sent_failed)
  unfolding received_uids
  failed-Delivers wanted = record {
    rest = wanted;
    first_part = refl;
    whole = λ e. absurd (not_ok e);
  }

  last-Delivers :
      (d : Datagram) (wanted : List ℕ)
      → page_uids d.packet ≡ wanted
      → Delivers wanted (d ∷ [], sent_ok)
  unfolding received_uids
  last-Delivers d wanted e =
      let all = append_nil (page_uids d.packet) ∙ e in
      record { rest = []; first_part = append_nil _ ∙ all; whole = λ _. all }

  more-Delivers :
      (d : Datagram) (wanted : List ℕ) (r : List Datagram × Sent)
      → Delivers wanted r
      → Delivers (page_uids d.packet ++ wanted) ((d ∷ []) ++ r.0, r.1)
  unfolding received_uids
  more-Delivers d wanted r v = record {
    rest = v.rest;
    first_part =
        append_assoc (page_uids d.packet) (received_uids r.0) v.rest
        ∙ ap (λ l. page_uids d.packet ++ l) v.first_part;
    whole = λ e. ap (λ l. page_uids d.packet ++ l) (v.whole e);
  }

  either :
      (c : Bool)
      → {wanted : List ℕ} → {r : List Datagram × Sent} → Delivers wanted r
      → Delivers wanted (if c then r else r)
  either true v = v
  either false v = v

  module _ (cells : List ℕ) (e : port.port_tod.block ≡ some cells)
      (a : AreUids (take port.port_tod.length cells))
      (enough : port.port_tod.length ≤ length cells) where
    slice_step :
        (remaining lim : ℕ)
        → lim ≤ remaining
        → remaining ≤ port.port_tod.length
        → take lim (drop (port.port_tod.length - remaining) cells)
            ++ take (remaining - lim) (drop (port.port_tod.length - (remaining - lim)) cells)
          ≡ take remaining (drop (port.port_tod.length - remaining) cells)
    slice_step remaining lim le fits =
        let off = port.port_tod.length - remaining in
        let start : port.port_tod.length - (remaining - lim) ≡ off + lim = omega arith in
        let size : lim + (remaining - lim) ≡ remaining = omega arith in
        rw
          (
            start,
            ← drop-drop off lim cells,
            take-append-take-drop lim (remaining - lim) (drop off cells),
            size,
          )
          refl

    tod_pages-Delivers :
        (fuel bloc remaining : ℕ)
        → remaining < fuel
        → remaining ≤ port.port_tod.length
        → Delivers
            (take remaining (drop (port.port_tod.length - remaining) cells))
            (tod_pages works to bind_index id port fuel bloc sent_ok remaining)
    unfolding tod_pages send_unless_failed
    tod_pages-Delivers zero bloc remaining h fits = absurd (omega arith)
    tod_pages-Delivers (suc fuel) bloc remaining h fits =
        let lim = min 200 remaining in
        let off = port.port_tod.length - remaining in
        let here =
          page_uids-tod_page bind_index id port cells bloc off lim e
            (slice-AreUids off lim port.port_tod.length cells (omega arith) a) (omega arith)
            (omega arith) in
        elim (Bool-cases (works bloc)) [
          | inl good ↦ elim (Bool-cases (remaining - lim == 0)) [
            | inl end ↦
                rw (good, end)
                  (last-Delivers _ _ (here ∙ ap (λ m. take m (drop off cells)) (ground arith)))
            | inr more ↦
                rw (good, more, ← slice_step remaining lim (omega arith) fits, ← here)
                  (more-Delivers _ _ _ (
                    tod_pages-Delivers fuel (suc bloc) (remaining - lim) (ground arith)
                      (omega arith)))
          ]
          | inr bad ↦
              rw (bad, pages_failed fuel (suc bloc) (remaining - lim))
                (either (remaining - lim == 0) (failed-Delivers _))
        ]

  empty-Delivers : Delivers [] (tod_pages works to bind_index id port 1 0 sent_ok 0)
  unfolding tod_pages send_unless_failed tod_page page_uids read_uids
  empty-Delivers = elim (Bool-cases (works 0)) [
    | inl good ↦ rw good (last-Delivers _ _ refl)
    | inr bad ↦ rw bad (failed-Delivers [])
  ]

  no_uids-Delivers :
      (n : ℕ) → n ≡ 0 → Delivers [] (tod_pages works to bind_index id port (suc n) 0 sent_ok n)
  no_uids-Delivers n e = rw e empty-Delivers

  table-Delivers :
      (block : Option (List ℕ))
      → port.port_tod.block ≡ block
      → port.port_tod.length ≤ port.port_tod.max_length
      → BlockFits block port.port_tod.max_length
      → AreUids (uids_of block port.port_tod.length)
      → Delivers (uids_of block port.port_tod.length) (
          tod_pages works to bind_index id port
            (suc port.port_tod.length)
            0
            sent_ok
            port.port_tod.length)
  table-Delivers none e used fits a = no_uids-Delivers port.port_tod.length (omega arith)
  table-Delivers (some cells) e used fits a =
      let start : port.port_tod.length - port.port_tod.length ≡ 0 = omega arith in
      rw (← ap (λ m. take port.port_tod.length (drop m cells)) start) (
        tod_pages-Delivers cells e a (omega arith) (suc port.port_tod.length) 0 port.port_tod.length
          (omega arith) (omega arith))

-- From a valid table, every page that is sent carries the next of its UIDs, and where
-- `artnet_tx_tod_data` returns ARTNET_EOK the pages carry all of them, in their order.
pub artnet_tx_tod_data-Delivers :
    (works : ℕ → Bool) (to bind_index id : ℕ) (port : OutputPort)
    → IsValid port.port_tod
    → AreUids (uids port.port_tod)
    → to ≢ 0
    → Delivers (uids port.port_tod) (artnet_tx_tod_data works to bind_index id port)
unfolding artnet_tx_tod_data
artnet_tx_tod_data-Delivers works to bind_index id port v a some_one = elim (Bool-cases (to == 0)) [
  | inl nobody ↦ absurd (some_one (==→eq to 0 nobody))
  | inr other ↦
      rw other (
        table-Delivers works to bind_index id port port.port_tod.block refl v.in_use v.block_fits a)
]

pages_ok :
    (works : ℕ → Bool) (to bind_index id : ℕ) (port : OutputPort)
    → ((k : ℕ) → works k ≡ true)
    → (fuel bloc remaining : ℕ)
    → (tod_pages works to bind_index id port fuel bloc sent_ok remaining).1 ≡ sent_ok
unfolding tod_pages send_unless_failed
pages_ok works to bind_index id port good zero bloc remaining = refl
pages_ok works to bind_index id port good (suc fuel) bloc remaining =
    elim (Bool-cases (remaining - min 200 remaining == 0)) [
      | inl end ↦ rw (good bloc, end) refl
      | inr more ↦
          rw (good bloc, more)
            (pages_ok works to bind_index id port good fuel (suc bloc)
              (remaining - min 200 remaining))
    ]

pub artnet_tx_tod_data_ok :
    (works : ℕ → Bool) (to bind_index id : ℕ) (port : OutputPort)
    → ((k : ℕ) → works k ≡ true)
    → to ≢ 0
    → (artnet_tx_tod_data works to bind_index id port).1 ≡ sent_ok
unfolding artnet_tx_tod_data
artnet_tx_tod_data_ok works to bind_index id port good some_one = elim (Bool-cases (to == 0)) [
  | inl nobody ↦ absurd (some_one (==→eq to 0 nobody))
  | inr other ↦
      rw other (
        pages_ok works to bind_index id port good (suc port.port_tod.length) 0 port.port_tod.length)
]

pub received_uids-append :
    (ds es : List Datagram) → received_uids (ds ++ es) ≡ received_uids ds ++ received_uids es
unfolding received_uids
received_uids-append [] es = refl
received_uids-append (d ∷ ds) es =
    ap (λ l. page_uids d.packet ++ l) (received_uids-append ds es)
    ∙ sym (append_assoc (page_uids d.packet) (received_uids ds) (received_uids es))
