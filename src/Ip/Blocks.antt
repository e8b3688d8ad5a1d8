-- ===== src/Ip/Blocks.antt =====
-- What a block holds, against the mathematical block: the addresses that agree above the host bits.
use Prim.Native.Nat.{bit_and, bit_or}
use mathlib.Core.Path.{ap}
use native.Mathlib.Nat.{
  one-le-pow, div-add-mod', pow-le-pow_right, lt_of_lt_of_le, mod-lt, div-eq_of_lt-le,
  div-lt_iff_lt-mul, mul-add-div_right, div-mul-le_self, lt-div-mul-add,
}
use filehost.Base.{
  ℕ, zero, suc, ◌+◌, ◌-◌, ◌*◌, ◌/◌, ◌%◌, ◌^◌, ◌≤◌, ◌<◌, ◌≡◌, refl, sym, ◌∙◌, ◌↔◌, true, ◌&&◌,
  Option, some, arith, leb, ◌==◌, ==_iff, Bool-cases, lt→ltb, inl, inr, if◌then◌else◌,
}
use filehost.Bits.{bit_or_ones, bit_and_high, two-pow-add}
use filehost.Ip.Addr.{IpAddr, v4, v6, IsAddr, mapped, between}
use filehost.Ip.Octets.{rank, between-to_db_bytes, mul_step}
use filehost.Ip.Cidr.{Cidr, cidr_bounds, u128_max, block_of, unwrap_or, contains}

-- The first address of the block of size `2 ^ h` that an address stands in.
abbrev pub block_start : ℕ → ℕ → ℕ
block_start h a = a / 2 ^ h * 2 ^ h

two-pow-split : (h w : ℕ) → h ≤ w → 2 ^ w ≡ 2 ^ (w - h) * 2 ^ h
two-pow-split h w k = ap (λ (n : ℕ). 2 ^ n) (omega arith) ∙ two-pow-add (w - h) h

pred_mul : (m k n : ℕ) → n ≡ m * k → 1 ≤ m → 1 ≤ k → n - 1 - (k - 1) ≡ (m - 1) * k
pred_mul zero k n e hm hk = absurd (omega arith)
pred_mul (suc m) k n e hm hk =
    let p : suc m - 1 ≡ m = omega arith in omega (arith, ap (λ (t : ℕ). t * k) p)

high_mask : (h : ℕ) → h ≤ 128 → u128_max - (2 ^ h - 1) ≡ (2 ^ (128 - h) - 1) * 2 ^ h
high_mask h k =
    pred_mul (2 ^ (128 - h)) (2 ^ h) (2 ^ 128) (two-pow-split h 128 k)
      (one-le-pow (128 - h) 2 (omega arith)) (one-le-pow h 2 (omega arith))

host_mask_value : (h : ℕ) → (if h == 128 then u128_max else 2 ^ h - 1) ≡ 2 ^ h - 1
host_mask_value h = elim (Bool-cases (h == 128)) [
  | inl e ↦ rw (e, (==_iff h 128).0 e)
  | inr e ↦ rw e
]

parts : (h a : ℕ) → a / 2 ^ h * 2 ^ h + a % 2 ^ h ≡ a
parts h a = div-add-mod' a (2 ^ h)

-- `addr & !host_mask`.
and_mask : (h a : ℕ) → h ≤ 128 → a < 2 ^ 128 → bit_and a (u128_max - (2 ^ h - 1)) ≡ block_start h a
and_mask h a k lt = rw (high_mask h k) (
    ap (λ (t : ℕ). bit_and t ((2 ^ (128 - h) - 1) * 2 ^ h)) (sym (parts h a))
    ∙ bit_and_high h (128 - h) (a / 2 ^ h) (a % 2 ^ h) (mod-lt a (one-le-pow h 2 (omega arith))) (
        (div-lt_iff_lt-mul (one-le-pow h 2 (omega arith))).1
          (omega (arith, two-pow-split h 128 k))))

-- `addr | host_mask`.
or_mask : (h a : ℕ) → bit_or a (2 ^ h - 1) ≡ block_start h a + (2 ^ h - 1)
or_mask h a =
    ap (λ (t : ℕ). bit_or t (2 ^ h - 1)) (sym (parts h a))
    ∙ bit_or_ones h (a / 2 ^ h) (a % 2 ^ h) (mod-lt a (one-le-pow h 2 (omega arith)))

-- For a prefix that the family allows, the bounds are the first and the last address of the block.
pub cidr_bounds_block :
    (a prefix width : ℕ)
    → prefix ≤ width
    → width ≤ 128
    → a < 2 ^ width
    → let h = width - prefix in
      cidr_bounds a prefix width ≡ some (block_start h a, block_start h a + (2 ^ h - 1))
unfolding cidr_bounds
cidr_bounds_block a prefix width hp hw ha =
    let wide : a < 2 ^ 128 = lt_of_lt_of_le ha (pow-le-pow_right {n = 2} (omega arith) hw) in
    rw (host_mask_value (width - prefix), and_mask (width - prefix) a (omega arith) wide, or_mask)
      (ground arith)

-- Membership in an aligned block is agreement above the host bits.
aligned_iff :
    (p x y : ℕ)
    → 1 ≤ p
    → ((leb (x / p * p) y && leb y (x / p * p + (p - 1))) ≡ true) ↔ (y / p ≡ x / p)
aligned_iff p x y hp = (
  λ h. div-eq_of_lt-le p (ground arith) (ground arith),
  λ e.
      ground
        (arith, div-mul-le_self y p, lt-div-mul-add {a = y} {b = p} hp, ap (λ (t : ℕ). t * p) e),
)

-- The bits of an address of the family, and those that a prefix length leaves to the host.
abbrev pub family_width : IpAddr → ℕ
family_width (v4 a) = 32
family_width (v6 a) = 128

abbrev pub host_bits : IpAddr → Option ℕ → ℕ
host_bits addr prefix = family_width addr - unwrap_or prefix (family_width addr)

mapped_block : (h a : ℕ) → h ≤ 32 → mapped (block_start h a) ≡ block_start h (mapped a)
mapped_block h a k =
    let m = 0xffff * 2 ^ (32 - h) in
    let e : mapped a ≡ m * 2 ^ h + a = omega (arith, two-pow-split h 32 k) in
    let q : mapped a / 2 ^ h ≡ m + a / 2 ^ h =
      ap (λ (t : ℕ). t / 2 ^ h) e ∙ mul-add-div_right (one-le-pow h 2 (omega arith)) m a in
    omega (arith, e, ap (λ (t : ℕ). t * 2 ^ h) q)

block_end : (h w a : ℕ) → h ≤ w → a < 2 ^ w → block_start h a + (2 ^ h - 1) < 2 ^ w
block_end h w a k lt =
    let q : a / 2 ^ h < 2 ^ (w - h) =
      (div-lt_iff_lt-mul (one-le-pow h 2 (omega arith))).1 (omega (arith, two-pow-split h w k)) in
    omega (
      arith,
      two-pow-split h w k,
      one-le-pow h 2 (omega arith),
      mul_step (a / 2 ^ h) (2 ^ (w - h)) (2 ^ h) q,
    )

member_iff :
    (h x : ℕ) (lo hi ip : IpAddr)
    → IsAddr lo
    → IsAddr hi
    → IsAddr ip
    → rank lo ≡ block_start h x
    → rank hi ≡ block_start h x + (2 ^ h - 1)
    → (contains (record { start = lo; end = hi }) ip ≡ true) ↔ (rank ip / 2 ^ h ≡ x / 2 ^ h)
unfolding contains between
member_iff h x lo hi ip hl hh hi' el eh =
    rw (between-to_db_bytes ip lo hi hi' hl hh, el, eh)
      (aligned_iff (2 ^ h) x (rank ip) (one-le-pow h 2 (omega arith)))

-- A block of an address and a prefix length that its family allows exists, and holds exactly the
-- addresses that agree with it above the host bits, both read in the mapped 128-bit form.
pub contains-block_of_iff :
    (addr ip : IpAddr) (prefix : Option ℕ)
    → IsAddr addr
    → IsAddr ip
    → unwrap_or prefix (family_width addr) ≤ family_width addr
    → let h = host_bits addr prefix in
      (c : Cidr) × (block_of addr prefix ≡ some c)
      × ((contains c ip ≡ true) ↔ (rank ip / 2 ^ h ≡ rank addr / 2 ^ h))
unfolding block_of
contains-block_of_iff (v4 a) ip prefix ha hi fits =
    let n = unwrap_or prefix 32 in
    let h = 32 - n in
    let first = block_start h a in
    let last = first + (2 ^ h - 1) in
    let below : last < 2 ^ 32 = block_end h 32 a (omega arith) ha in
    let below' : first < 2 ^ 32 = omega arith in
    (
      record { start = v4 first; end = v4 last },
      rw (cidr_bounds_block a n 32 fits (omega arith) ha, lt→ltb _ _ below, lt→ltb _ _ below'),
      member_iff h (mapped a) (v4 first) (v4 last) ip below' below hi
          (mapped_block h a (omega arith)) (omega (arith, mapped_block h a (omega arith))),
    )
contains-block_of_iff (v6 a) ip prefix ha hi fits =
    let n = unwrap_or prefix 128 in
    let h = 128 - n in
    let first = block_start h a in
    let last = first + (2 ^ h - 1) in
    let below : last < 2 ^ 128 = block_end h 128 a (omega arith) ha in
    (
      record { start = v6 first; end = v6 last },
      rw (cidr_bounds_block a n 128 fits (omega arith) ha),
      member_iff h a (v6 first) (v6 last) ip (omega arith) below hi refl refl,
    )
