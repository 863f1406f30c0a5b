-- ===== src/Wire/Address.antt =====
-- The port address: packing and unpacking.
use libartnet.Base.{ℕ, ◌+◌, ◌*◌, ◌/◌, ◌%◌, ◌^◌, ◌<◌, ◌≡◌, arith, or_fields, and_mask}
use libartnet.Wire.{make_addr, addr_port, addr_subnet, addr_net}

pub make_addr_lem :
    (net subnet addr : ℕ)
    → make_addr net subnet addr ≡ net % 128 * 256 + subnet % 16 * 16 + addr % 16
unfolding make_addr
make_addr_lem net subnet addr = ground (
  arith,
  and_mask 7 net,
  and_mask 4 subnet,
  and_mask 4 addr,
  or_fields 8 (net % 128) (subnet % 16 * 16),
  or_fields 4 (net % 128 * 16 + subnet % 16) (addr % 16),
)

pub addr_port_lem : (a : ℕ) → addr_port a ≡ a % 16
unfolding addr_port
addr_port_lem a = and_mask 4 a

pub addr_subnet_lem : (a : ℕ) → addr_subnet a ≡ a / 16 % 16
unfolding addr_subnet
addr_subnet_lem a = and_mask 4 (a / 16)

pub addr_net_lem : (a : ℕ) → addr_net a ≡ a / 256 % 128
unfolding addr_net
addr_net_lem a = and_mask 7 (a / 256)

-- The parts of a packed address are the low bits of what was packed, and the packed address has 15
-- bits.
pub make_addr_parts :
    (net subnet port : ℕ)
    → (addr_net (make_addr net subnet port) ≡ net % 128)
      × (addr_subnet (make_addr net subnet port) ≡ subnet % 16)
      × (addr_port (make_addr net subnet port) ≡ port % 16)
      × (make_addr net subnet port < 2 ^ 15)
make_addr_parts net subnet port =
    let a = make_addr net subnet port in
    (
      omega (arith, addr_net_lem a, make_addr_lem net subnet port),
      omega (arith, addr_subnet_lem a, make_addr_lem net subnet port),
      omega (arith, addr_port_lem a, make_addr_lem net subnet port),
      omega (arith, make_addr_lem net subnet port),
    )

-- Packing the parts of a 15-bit address gives that address back.
pub make_addr_of_parts :
    (a : ℕ) → a < 2 ^ 15 → make_addr (addr_net a) (addr_subnet a) (addr_port a) ≡ a
make_addr_of_parts a h = omega (
  arith,
  make_addr_lem (addr_net a) (addr_subnet a) (addr_port a),
  addr_net_lem a,
  addr_subnet_lem a,
  addr_port_lem a,
)
