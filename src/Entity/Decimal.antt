-- ===== src/Entity/Decimal.antt =====
-- The calls of github.com/shopspring/decimal, a module of another repository: its numbers and its
-- operations are parameters. All comparisons are taken from `less`, as that library takes them from
-- `Cmp`.
use kairos_agent.Base.{◌≡◌, Bool, true, false, not, ◌&&◌}
use kairos_agent.Base.Int.{ℤ}

pub record DecimalOps (D : Type 0) : Type 0 where
  pub zero : D
  pub of_int : ℤ → D
  pub shift : D → ℤ → D
  pub add : D → D → D
  pub sub : D → D → D
  pub mul : D → D → D
  pub div : D → D → D
  pub mod_by : D → D → D
  pub neg : D → D
  pub abs : D → D
  pub less : D → D → Bool
  pub is_zero : D → Bool

module _ {D : Type 0} (d : DecimalOps D) where
  -- `GreaterThan`, `GreaterThanOrEqual`, `LessThanOrEqual`
  abbrev pub greater : D → D → Bool
  greater x y = d.less y x

  abbrev pub greater_eq : D → D → Bool
  greater_eq x y = not (d.less x y)

  abbrev pub less_eq : D → D → Bool
  less_eq x y = not (d.less y x)

  -- `Equal`
  abbrev pub equal : D → D → Bool
  equal x y = not (d.less x y) && not (d.less y x)

  -- What the code relies on: the order is linear, and addition and subtraction respect it.
  pub record DecimalLaws : Type 0 where
    pub zero_add : (x y : D) → d.is_zero x ≡ true → d.add x y ≡ y
    pub less_irrefl : (x : D) → d.less x x ≡ false
    pub less_trans : (x y z : D) → less_eq x y ≡ true → less_eq y z ≡ true → less_eq x z ≡ true
    pub less_asym : (x y : D) → d.less x y ≡ true → d.less y x ≡ false
    pub add_nonneg :
        (x y : D)
        → less_eq (d.zero) x ≡ true
        → less_eq (d.zero) y ≡ true
        → less_eq (d.zero) (d.add x y) ≡ true
    pub add_nonpos : (x y : D) → less_eq y (d.zero) ≡ true → less_eq (d.add x y) x ≡ true
    pub sub_nonneg : (x y : D) → less_eq y x ≡ true → less_eq (d.zero) (d.sub x y) ≡ true
    pub sub_le : (x y : D) → less_eq (d.zero) y ≡ true → less_eq (d.sub x y) x ≡ true

  -- Sums and products are exact, so that they obey the laws of a ring. Decimals are taken up to
  -- `Equal`: a number with two representations is one number.
  pub record DecimalSums : Type 0 where
    pub add_comm : (x y : D) → d.add x y ≡ d.add y x
    pub add_assoc : (x y z : D) → d.add (d.add x y) z ≡ d.add x (d.add y z)
    pub add_zero : (x : D) → d.add x d.zero ≡ x
    pub add_cancel : (x y z : D) → d.add x z ≡ d.add y z → x ≡ y
    pub sub_add : (x y : D) → d.add (d.sub x y) y ≡ x
    pub mul_comm : (x y : D) → d.mul x y ≡ d.mul y x
    pub mul_sub : (x y z : D) → d.mul (d.sub x y) z ≡ d.sub (d.mul x z) (d.mul y z)
    pub abs_loss : (x : D) → d.less d.zero x ≡ false → d.add (d.abs x) x ≡ d.zero
