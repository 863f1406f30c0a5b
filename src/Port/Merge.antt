-- ===== src/Port/Merge.antt =====
-- What merging two sources puts on the output.
use libartnet.Base.{ℕ, zero, suc, ◌≤◌, ◌<◌, max, min, ◌≡◌, refl, ap, ◌∙◌, arith, Bool, true, false}
use libartnet.Base.{List, [], ◌∷◌, get_or, get_or-memcpy, length-memcpy}
use libartnet.Base
use libartnet.Port.{OutputPort, Env, MergeMode, htp, ltp, artnet_dmx_length, htp_merge, merged_data}
use libartnet.Port.{commit_output_data, flush_sync_output, stage_merged, merge}
use libartnet.Port.Dmx.{DmxPacket, merge_a, merge_b, receive_a, receive_b}
use libartnet.Port.Bounds.{IsValid, IsPacket, length-merged_data}

-- One slot of the output from the packet's value and the other source's: the higher one (HTP), or
-- the packet's (LTP).
abbrev pub combine : MergeMode → ℕ → ℕ → ℕ
combine htp new other = max new other
combine ltp new other = new

get_or-htp_merge :
    (n : ℕ) (out a b : List ℕ) (i : ℕ)
    → i < n
    → n ≤ Base.length out
    → n ≤ Base.length a
    → n ≤ Base.length b
    → get_or (htp_merge n out a b) i 0 ≡ max (get_or a i 0) (get_or b i 0)
unfolding htp_merge
get_or-htp_merge zero out a b i h ho ha hb = absurd (omega arith)
get_or-htp_merge (suc n) [] a b i h ho ha hb = absurd (omega arith)
get_or-htp_merge (suc n) (o ∷ out) [] b i h ho ha hb = absurd (omega arith)
get_or-htp_merge (suc n) (o ∷ out) (x ∷ a) [] i h ho ha hb = absurd (omega arith)
get_or-htp_merge (suc n) (o ∷ out) (x ∷ a) (y ∷ b) zero h ho ha hb = refl
get_or-htp_merge (suc n) (o ∷ out) (x ∷ a) (y ∷ b) (suc i) h ho ha hb =
    get_or-htp_merge n out a b i (omega arith) (omega arith) (omega arith) (omega arith)

-- Slot `i` of the merged values where the packet came from source A, or from source B.
pub merged_slot_a :
    (mode : MergeMode) (port : OutputPort) (len i : ℕ)
    → i < len
    → len ≤ artnet_dmx_length
    → IsValid port
    → get_or (merged_data mode port len port.data_a) i 0
      ≡ combine mode (get_or port.data_a i 0) (get_or port.data_b i 0)
unfolding merged_data
merged_slot_a htp port len i h k v =
    get_or-htp_merge len port.sync_data port.data_a port.data_b i h (omega arith) (omega arith)
      (omega arith)
merged_slot_a ltp port len i h k v =
    get_or-memcpy port.sync_data port.data_a len i 0 h (omega arith) (omega arith)

pub merged_slot_b :
    (mode : MergeMode) (port : OutputPort) (len i : ℕ)
    → i < len
    → len ≤ artnet_dmx_length
    → IsValid port
    → get_or (merged_data mode port len port.data_b) i 0
      ≡ combine mode (get_or port.data_b i 0) (get_or port.data_a i 0)
unfolding merged_data
merged_slot_b htp port len i h k v =
    get_or-htp_merge len port.sync_data port.data_a port.data_b i h (omega arith) (omega arith)
      (omega arith)
    ∙ max_comm (get_or port.data_a i 0) (get_or port.data_b i 0)
  where
    max_comm : (x y : ℕ) → max x y ≡ max y x
    max_comm x y = omega arith
merged_slot_b ltp port len i h k v =
    get_or-memcpy port.sync_data port.data_b len i 0 h (omega arith) (omega arith)

-- Outside sync mode `merge` puts the merged values on the output.
pub merge_slot :
    (env : Env) (id : ℕ) (port : OutputPort) (len i : ℕ) (latest : List ℕ)
    → env.sync_mode ≡ false
    → i < len
    → len ≤ artnet_dmx_length
    → IsValid port
    → (get_or (merge env id port len latest).0.buffer i 0
        ≡ get_or (merged_data port.merge_mode port len latest) i 0)
      × ((merge env id port len latest).0.length ≡ len)
unfolding merge stage_merged flush_sync_output commit_output_data
merge_slot env id port len i latest off h k v = rw off (
  omega (
    arith,
    get_or-memcpy port.buffer (merged_data port.merge_mode port len latest)
        (min len artnet_dmx_length) i 0 (omega arith) (omega arith)
        (omega (arith, length-merged_data port.merge_mode port len latest)),
  ),
  omega arith,
)

module _ (env : Env) (id i : ℕ) (p : DmxPacket) (port : OutputPort) where
  pub receive_a-IsValid : IsValid port → IsValid (receive_a env p port)
  receive_a-IsValid v = ground (arith, length-memcpy port.data_a p.slots p.data_length)

  pub receive_b-IsValid : IsValid port → IsValid (receive_b env p port)
  receive_b-IsValid v = ground (arith, length-memcpy port.data_b p.slots p.data_length)

  -- Outside sync mode each slot of a packet from A is combined with B's.
  pub merge_a_slot :
      IsPacket p
      → IsValid port
      → env.sync_mode ≡ false
      → i < p.data_length
      → (get_or (merge_a env id p port).0.buffer i 0
          ≡ combine port.merge_mode (get_or p.slots i 0) (get_or port.data_b i 0))
        × ((merge_a env id p port).0.length ≡ p.data_length)
  unfolding merge_a
  merge_a_slot q v off h =
      let port' = receive_a env p port in
      let v' = receive_a-IsValid v in
      let m = merge_slot env id port' p.data_length i port'.data_a off h q.length_fits v' in
      (
        m.0
            ∙ merged_slot_a port.merge_mode port' p.data_length i h q.length_fits v'
            ∙ ap (λ t. combine port.merge_mode t (get_or port.data_b i 0))
                (get_or-memcpy port.data_a p.slots p.data_length i 0 h (omega arith) (omega arith)),
        m.1,
      )

  pub merge_b_slot :
      IsPacket p
      → IsValid port
      → env.sync_mode ≡ false
      → i < p.data_length
      → (get_or (merge_b env id p port).0.buffer i 0
          ≡ combine port.merge_mode (get_or p.slots i 0) (get_or port.data_a i 0))
        × ((merge_b env id p port).0.length ≡ p.data_length)
  unfolding merge_b
  merge_b_slot q v off h =
      let port' = receive_b env p port in
      let v' = receive_b-IsValid v in
      let m = merge_slot env id port' p.data_length i port'.data_b off h q.length_fits v' in
      (
        m.0
            ∙ merged_slot_b port.merge_mode port' p.data_length i h q.length_fits v'
            ∙ ap (λ t. combine port.merge_mode t (get_or port.data_a i 0))
                (get_or-memcpy port.data_b p.slots p.data_length i 0 h (omega arith) (omega arith)),
        m.1,
      )
