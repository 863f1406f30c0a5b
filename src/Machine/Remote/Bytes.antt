-- ===== src/Machine/Remote/Bytes.antt =====
-- What the bytes of an ArtAddress say.
use libartnet.Base.{
  ℕ, zero, suc, ◌+◌, ◌≤◌, ◌<◌, ◌≡◌, ◌≢◌, ◌%◌, ◌∙◌, refl, arith, Bool, true, false, ◌&&◌, ◌||◌, not,
  List, [], ◌∷◌, ◌++◌, Option, none, some, length, get_or, drop, memcpy, replicate, min,
  if◌then◌else◌, ◌==◌, ltb, leb, bit_and, bit_or, ap, if_keeps, passes, passes_at, length-memcpy,
  length-replicate, and_mask,
}
use libartnet.Base
use libartnet.Machine.Remote.{
  Programming, address_bytes, name_bytes, port_bytes, net_byte, subnet_byte,
}
use libartnet.Node.{Node}
use libartnet.Node.Address.{program_net, program_subnet}
use libartnet.Port.{has_bit, clear_bit}

skip : (xs ys : List ℕ) (k i : ℕ) → length xs ≡ k → get_or (xs ++ ys) (k + i) 0 ≡ get_or ys i 0
skip [] ys k i e = let at : k + i ≡ i = omega (arith, e) in rw at refl
skip (x ∷ xs) ys k i e =
    let at : k + i ≡ suc (length xs + i) = omega (arith, e) in rw at (skip xs ys (length xs) i refl)

pub length-name_bytes : (size : ℕ) (name : Option (List ℕ)) → length (name_bytes size name) ≡ size
unfolding name_bytes
length-name_bytes size none = length-replicate size 0x7f
length-name_bytes size (some name) =
    length-memcpy (replicate size 0) name (min (length name) size) ∙ length-replicate {A = ℕ} size 0

length-port_bytes : (addrs : Option (List ℕ)) → length (port_bytes addrs) ≡ 4
length-port_bytes none = refl
length-port_bytes (some addrs) = length-memcpy (replicate 4 0) addrs 4

-- The last bytes of the packet stand behind its names and its ports.
pub address_tail :
    (g : Programming) (i : ℕ)
    → get_or (address_bytes g) (14 + (18 + (64 + (4 + (4 + i))))) 0
      ≡ get_or (subnet_byte g.sub_addr ∷ g.acn_priority ∷ g.command ∷ []) i 0
address_tail g i =
    skip (Base.take 14 (address_bytes g)) _ 14 (18 + (64 + (4 + (4 + i)))) refl
    ∙ skip (name_bytes 18 g.short_name) _ 18 (64 + (4 + (4 + i)))
        (length-name_bytes 18 g.short_name)
    ∙ skip (name_bytes 64 g.long_name) _ 64 (4 + (4 + i)) (length-name_bytes 64 g.long_name)
    ∙ skip (port_bytes g.in_addr) _ 4 (4 + i) (length-port_bytes g.in_addr)
    ∙ skip (port_bytes g.out_addr) _ 4 i (length-port_bytes g.out_addr)

pub memcpy_all :
    (dst src rest : List ℕ) (n : ℕ)
    → length dst ≡ n
    → length src ≡ n
    → memcpy dst (src ++ rest) n ≡ src
unfolding memcpy
memcpy_all [] [] rest zero d e = refl
memcpy_all (x ∷ dst) [] rest zero d e = absurd (omega (arith, d))
memcpy_all dst (s ∷ src) rest zero d e = absurd (omega (arith, e))
memcpy_all dst [] rest (suc n) d e = absurd (omega (arith, e))
memcpy_all [] (s ∷ src) rest (suc n) d e = absurd (omega (arith, d))
memcpy_all (x ∷ dst) (s ∷ src) rest (suc n) d e =
    ap (λ l. s ∷ l) (memcpy_all dst src rest n (omega (arith, d)) (omega (arith, e)))

-- The bytes for a net and a subnet: bit 7 is set, and the rest is the number.
abbrev carries : ℕ → ℕ → Bool
carries x value = not (x == 0) && has_bit x 0x80 && (clear_bit x 0x80 == value)

net_byte-carries : (net : ℕ) → net < 127 → carries (net_byte net) net ≡ true
unfolding has_bit clear_bit passes
net_byte-carries net h = passes_at (λ net. carries (net_byte net) net) 127 net h refl

bit_or-carries :
    (x : ℕ) → x < 16 → carries (bit_or x 0x80) x && (bit_and (bit_or x 0x80) 0x0f == x) ≡ true
unfolding has_bit clear_bit passes
bit_or-carries x h =
    passes_at (λ x. carries (bit_or x 0x80) x && (bit_and (bit_or x 0x80) 0x0f == x)) 16 x h refl

carried :
    (x value : ℕ)
    → carries x value ≡ true
    → (x == 0 ≡ false) × (has_bit x 0x80 ≡ true) × (clear_bit x 0x80 ≡ value)
carried x value h = ground (arith, h)

pub net_programmed :
    (net : ℕ) (n : Node) → net < 127 → (program_net (net_byte net) n).net_switch ≡ net
unfolding program_net
net_programmed net n h =
    let (set, marked, rest) = carried (net_byte net) net (net_byte-carries net h) in
    rw (set, marked) rest

pub subnet_programmed :
    (subnet : ℕ) (n : Node)
    → subnet == 0x7f ≡ false
    → (program_subnet (subnet_byte subnet) n).sub_switch ≡ subnet % 16
unfolding program_subnet
subnet_programmed subnet n h =
    let nibble : bit_and subnet 0x0f ≡ subnet % 16 = omega (arith, and_mask 4 subnet) in
    let table = bit_or-carries (subnet % 16) (omega arith) in
    let (set, marked, rest) =
      carried (bit_or (subnet % 16) 0x80) (subnet % 16) (ground (arith, table)) in
    rw (h, nibble, set, marked) (ground (arith, table))
