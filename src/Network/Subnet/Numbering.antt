-- ===== src/Network/Subnet/Numbering.antt =====
-- The subnets of a plan and their numbers (crates/network/src/subnet.rs).
use native.Mathlib.Nat.{
  pow-suc, one-le-pow, add-zero, add-suc, mul_assoc, mul-add-div_right, div-eq_of_lt, div-add-mod',
  mod-lt, div-mul-le_self, mul-mod_left,
}
use bento.Shared.{
  ℕ, zero, suc, ◌+◌, ◌-◌, ◌*◌, ◌/◌, ◌%◌, ◌^◌, ◌≤◌, ◌<◌, ◌≡◌, sym, ap, ◌∙◌, true, arith, ◌↔◌,
}
use bento.Shared.Int.{pos}
use bento.Network.Error.{ok}
use bento.Network.Prefix.{Ipv4Prefix, u32_mod, IsPrefixValue, and_mask, masked, covers}
use bento.Network.Subnet.{Plan, from_prefix, subnets, subnet, subnet_at, index}

-- What `from_prefix` guarantees: the range is /24 or wider, and its address has no host bits.
pub record IsPlan (plan : Plan) : Type 0 where
  pub wide : plan.prefix.bits ≤ 24
  pub addr_fits : plan.prefix.addr < u32_mod
  pub no_host_bits : plan.prefix.addr % 2 ^ (32 - plan.prefix.bits) ≡ 0

pow-add : (a b : ℕ) → 2 ^ (a + b) ≡ 2 ^ a * 2 ^ b
pow-add a zero = rw add-zero (omega arith)
pow-add a (suc b) = simp (add-suc, pow-suc, pow-add a b, mul_assoc)

round_down : (q p r : ℕ) → r < p → (q * p + r) / p ≡ q
round_down q p r h = mul-add-div_right (omega arith) q r ∙ omega (arith, div-eq_of_lt h)

quotient_below : (q p m : ℕ) → q * p < p * m → q < m
quotient_below q p m h = grind arith

-- The size of the range in addresses, by its number of subnets.
pow_split : (b : ℕ) → b ≤ 24 → 2 ^ (32 - b) ≡ 2 ^ (24 - b) * 256
pow_split b h = let e : 32 - b ≡ 24 - b + 8 = omega arith in ap (λ k. 2 ^ k) e ∙ pow-add (24 - b) 8

pow_total : (b : ℕ) → b ≤ 24 → 2 ^ (32 - b) * 2 ^ b ≡ u32_mod
pow_total b h =
    let e : 32 - b + b ≡ 32 = omega arith in sym (pow-add (32 - b) b) ∙ ap (λ k. 2 ^ k) e

-- A mask of at most 24 bits rounds down to a multiple of the range's size.
and_mask-wide : (b x : ℕ) → b ≤ 24 → x < u32_mod → and_mask b x ≡ x / 2 ^ (32 - b) * 2 ^ (32 - b)
unfolding and_mask
and_mask-wide zero x h fits = omega arith
and_mask-wide (suc b) x h fits = ground arith

-- The arithmetic of a range that holds `n` subnets, is `p` addresses wide and starts at `addr`.
module _ (p n m addr : ℕ) (size : p ≡ n * 256) (whole : p * m ≡ u32_mod) (fits : addr < u32_mod)
    (aligned : addr % p ≡ 0) where
  start : addr ≡ addr / p * p
  start = omega (arith, div-add-mod' addr p)

  sum_fits : (i : ℕ) → i < n → addr + i * 256 < u32_mod
  sum_fits i h =
      let room : addr / p < m = quotient_below (addr / p) p m (omega (arith, start)) in
      let top : (addr / p + 1) * p ≤ m * p = grind arith in omega (arith, start)

  same_range : (i : ℕ) → i < n → (addr + i * 256) / p ≡ addr / p
  same_range i h =
      ap (λ k. (k + i * 256) / p) start ∙ round_down (addr / p) p (i * 256) (omega arith)

  positive : 0 < p
  positive = grind arith

  below_next : (x : ℕ) → x / p ≡ addr / p → (addr ≤ x) × (x < addr + n * 256)
  below_next x e =
      omega (arith, start, div-add-mod' x p, mod-lt x positive, ap (λ k. k * p) e, size)

  whole_blocks : addr % 256 ≡ 0
  whole_blocks =
      let blocks : addr ≡ addr / p * n * 256 = omega (arith, start, ap (λ k. addr / p * k) size) in
      omega (arith, blocks)

cancel : (a b k : ℕ) → 0 < k → a * k ≡ b * k → a ≡ b
cancel a b k h e = grind arith

-- A range covers the addresses that share its quotient.
covers-wide :
    (r : Ipv4Prefix) (x : ℕ)
    → r.bits ≤ 24
    → r.addr < u32_mod
    → x < u32_mod
    → (covers r x ≡ true) ↔ (x / 2 ^ (32 - r.bits) ≡ r.addr / 2 ^ (32 - r.bits))
unfolding covers
covers-wide r x h fits fits' =
    let p : ℕ = 2 ^ (32 - r.bits) in
    let positive : 0 < p = one-le-pow (32 - r.bits) 2 (omega arith) in
    let mx = and_mask-wide r.bits x h fits' in
    let mr = and_mask-wide r.bits r.addr h fits in
    (
      λ c. cancel (x / p) (r.addr / p) p positive (ground (arith, mx, mr)),
      λ e. let e' : x / p * p ≡ r.addr / p * p = ap (λ k. k * p) e in ground (arith, mx, mr, e'),
    )

module _ (plan : Plan) (v : IsPlan plan) where
  abbrev size : ℕ
  size = 2 ^ (32 - plan.prefix.bits)

  abbrev split : size ≡ subnets plan * 256
  unfolding subnets
  split = pow_split plan.prefix.bits v.wide

  abbrev total : size * 2 ^ plan.prefix.bits ≡ u32_mod
  total = pow_total plan.prefix.bits v.wide

  abbrev base : ℕ
  base = plan.prefix.addr

  abbrev fits_at : (i : ℕ) → i < subnets plan → base + i * 256 < u32_mod
  fits_at =
      sum_fits size (subnets plan) (2 ^ plan.prefix.bits) base split total v.addr_fits
        v.no_host_bits

  abbrev blocks : base % 256 ≡ 0
  blocks =
      whole_blocks size (subnets plan) (2 ^ plan.prefix.bits) base split total v.addr_fits
        v.no_host_bits

  covered_at : (i : ℕ) → i < subnets plan → covers plan.prefix (base + i * 256) ≡ true
  covered_at i h = (covers-wide plan.prefix (base + i * 256) v.wide v.addr_fits (fits_at i h)).1 (
      same_range size (subnets plan) (2 ^ plan.prefix.bits) base split total v.addr_fits
        v.no_host_bits i h)

  subnet_at-addr : (i : ℕ) → i < subnets plan → (subnet_at plan i).addr ≡ base + i * 256
  unfolding subnet_at
  subnet_at-addr i h = omega (arith, fits_at i h)

  index-subnet_at : (i : ℕ) → i < subnets plan → index plan (subnet_at plan i) ≡ ok i
  unfolding index subnet_at masked and_mask
  index-subnet_at i h =
      let same : (subnet_at plan i).addr / 256 * 256 ≡ base + i * 256 =
        omega (arith, fits_at i h, blocks) in
      ground (arith, covered_at i h, same, fits_at i h)

  index_range :
      (q : Ipv4Prefix) {i : ℕ}
      → IsPrefixValue q
      → index plan q ≡ ok i
      → (i < subnets plan) × (masked q ≡ subnet_at plan i)
  unfolding index subnet_at masked and_mask
  index_range q {i} fits e =
      let m : ℕ = q.addr / 256 * 256 in
      let parts : (q.bits ≡ 24)
          × (covers plan.prefix m ≡ true)
          × (i ≡ (m + u32_mod - base) % u32_mod / 256) =
        (ground arith, ground arith, ground arith) in
      let same =
        (covers-wide plan.prefix m v.wide v.addr_fits (omega (arith, fits.addr_fits))).0 parts.1 in
      let between =
        below_next size (subnets plan) (2 ^ plan.prefix.bits) base split total v.addr_fits
          v.no_host_bits m same in
      (omega (arith, parts.2, between, blocks), ground (arith, parts, between, blocks))

-- A plan made from a prefix in range is well formed: at most 24 bits, an address below 2 ^ 32, and no
-- host bits.
pub from_prefix-IsPlan :
    (p : Ipv4Prefix) {plan : Plan} → IsPrefixValue p → from_prefix p ≡ ok plan → IsPlan plan
unfolding from_prefix masked
from_prefix-IsPlan p {plan} v e =
    let wide : p.bits ≤ 24 = ground arith in
    let kept : plan ≡ record { prefix = record { addr = and_mask p.bits p.addr; bits = p.bits } } =
      ground arith in
    let rounded = and_mask-wide p.bits p.addr wide v.addr_fits in
    let positive : 0 < 2 ^ (32 - p.bits) = one-le-pow (32 - p.bits) 2 (omega arith) in
    let multiple = mul-mod_left (p.addr / 2 ^ (32 - p.bits)) (2 ^ (32 - p.bits)) in
    rw kept (record {
      wide = wide;
      addr_fits = omega (arith, rounded, v.addr_fits, div-mul-le_self p.addr (2 ^ (32 - p.bits)));
      no_host_bits = rw rounded multiple;
    })

-- In a well-formed plan, the index of the subnet that has a number is that number.
pub index-subnet :
    (plan : Plan) (i : ℕ) {p : Ipv4Prefix}
    → IsPlan plan
    → subnet plan (pos i) ≡ ok p
    → index plan p ≡ ok i
unfolding subnet
index-subnet plan i v e = ground (arith, index-subnet_at plan v i)

-- In a well-formed plan, a prefix in range that has an index is the subnet of that index, but for its
-- host bits.
pub subnet-index :
    (plan : Plan) (p : Ipv4Prefix) {i : ℕ}
    → IsPlan plan
    → IsPrefixValue p
    → index plan p ≡ ok i
    → subnet plan (pos i) ≡ ok (masked p)
unfolding subnet
subnet-index plan p v fits e = ground (arith, index_range plan v p fits e)
