-- ===== src/Entity/IntDecimals.antt =====
-- Whole numbers as decimals, for the tests.
use kairos_agent.Base.{◌≡◌, ◌+◌, ◌*◌, ap, ◌/◌, ◌%◌, arith}
use kairos_agent.Base.Int.{
  ℤ, pos, pos_part, neg_part, sub_ℕ, ◌+ℤ◌, ◌-ℤ◌, ◌*ℤ◌, ltb_ℤ, eqb_ℤ, +ℤ_parts, -ℤ_parts,
  eq_of_parts,
}
use kairos_agent.Entity.Decimal.{DecimalOps, DecimalLaws, DecimalSums}

abbrev pub int_decimals : DecimalOps ℤ
int_decimals = record {
  zero = pos 0;
  of_int = λ n. n;
  shift = λ n k. n;
  add = λ a b. a +ℤ b;
  sub = λ a b. a -ℤ b;
  mul = λ a b. a *ℤ b;
  div = λ a b. sub_ℕ (pos_part a / pos_part b) (neg_part a / pos_part b);
  mod_by = λ a b. pos (pos_part a % pos_part b);
  neg = λ a. pos 0 -ℤ a;
  abs = λ a. pos (pos_part a + neg_part a);
  less = ltb_ℤ;
  is_zero = λ a. eqb_ℤ a (pos 0);
}

pub int_decimals-DecimalLaws : DecimalLaws int_decimals
int_decimals-DecimalLaws = record {
  zero_add = λ x y h. eq_of_parts (x +ℤ y) y (ground (arith, +ℤ_parts x y));
  less_irrefl = λ x. ground arith;
  less_trans = λ x y z h k. ground arith;
  less_asym = λ x y h. ground arith;
  add_nonneg = λ x y h k. ground (arith, +ℤ_parts x y);
  add_nonpos = λ x y h. ground (arith, +ℤ_parts x y);
  sub_nonneg = λ x y h. ground (arith, -ℤ_parts x y);
  sub_le = λ x y h. ground (arith, -ℤ_parts x y);
}

*ℤ_parts :
    (a b : ℤ)
    → pos_part (a *ℤ b) + (pos_part a * neg_part b + neg_part a * pos_part b)
      ≡ neg_part (a *ℤ b) + (pos_part a * pos_part b + neg_part a * neg_part b)
unfolding ◌*ℤ◌
*ℤ_parts a b = ground arith

*ℤ_comm : (a b : ℤ) → a *ℤ b ≡ b *ℤ a
*ℤ_comm a b = eq_of_parts (a *ℤ b) (b *ℤ a) (omega (arith, *ℤ_parts a b, *ℤ_parts b a))

*ℤ_sub : (a b c : ℤ) → (a -ℤ b) *ℤ c ≡ a *ℤ c -ℤ b *ℤ c
*ℤ_sub a b c = eq_of_parts ((a -ℤ b) *ℤ c) (a *ℤ c -ℤ b *ℤ c) (
    omega (
      arith,
      *ℤ_parts (a -ℤ b) c,
      *ℤ_parts a c,
      *ℤ_parts b c,
      -ℤ_parts (a *ℤ c) (b *ℤ c),
      ap (λ t. t * pos_part c) (-ℤ_parts a b),
      ap (λ t. t * neg_part c) (-ℤ_parts a b),
    ))

pub int_decimals-DecimalSums : DecimalSums int_decimals
int_decimals-DecimalSums = record {
  add_comm = λ x y. eq_of_parts (x +ℤ y) (y +ℤ x) (ground (arith, +ℤ_parts x y, +ℤ_parts y x));
  add_assoc = λ x y z.
      eq_of_parts ((x +ℤ y) +ℤ z) (x +ℤ (y +ℤ z))
        (omega (arith, +ℤ_parts x y, +ℤ_parts (x +ℤ y) z, +ℤ_parts y z, +ℤ_parts x (y +ℤ z)));
  add_zero = λ x. eq_of_parts (x +ℤ pos 0) x (ground (arith, +ℤ_parts x (pos 0)));
  add_cancel = λ x y z h.
      eq_of_parts x y (omega (arith, +ℤ_parts x z, +ℤ_parts y z, ap pos_part h, ap neg_part h));
  sub_add = λ x y. eq_of_parts ((x -ℤ y) +ℤ y) x (omega (arith, -ℤ_parts x y, +ℤ_parts (x -ℤ y) y));
  mul_comm = *ℤ_comm;
  mul_sub = *ℤ_sub;
  abs_loss = λ x h.
      eq_of_parts (pos (pos_part x + neg_part x) +ℤ x) (pos 0)
        (ground (arith, +ℤ_parts (pos (pos_part x + neg_part x)) x));
}
