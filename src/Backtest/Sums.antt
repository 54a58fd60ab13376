-- ===== src/Backtest/Sums.antt =====
-- Sums of decimals over lists and maps, and the two rearrangements that the accounts of
-- internal/service/backtest/engine.go need.
use kairos_agent.Base.{String, ◌≡◌, none, some, List, [], ◌∷◌, arith}
use kairos_agent.Base.Dict.{Dict, lookup, insert, erase}
use kairos_agent.Entity.Decimal.{DecimalOps, DecimalSums}
use kairos_agent.Backtest.{push}

module _ {D : Type 0} (d : DecimalOps D) {A : Type 0} (f : A → D) where
  unfoldable pub sum_by : List A → D
  sum_by [] = d.zero
  sum_by (x ∷ l) = d.add (f x) (sum_by l)

  unfoldable pub sum_values : Dict A → D
  sum_values [] = d.zero
  sum_values (entry ∷ rest) = d.add (f entry.1) (sum_values rest)

module _ {D : Type 0} (d : DecimalOps D) (laws : DecimalSums d) where
  left_comm : (x y z : D) → d.add x (d.add y z) ≡ d.add y (d.add x z)
  left_comm x y z = cc (laws.add_assoc x y z, laws.add_assoc y x z, laws.add_comm x y)

  pub add_zero_left : (x : D) → d.add d.zero x ≡ x
  add_zero_left x = cc (laws.add_zero x, laws.add_comm d.zero x)

  module _ {A : Type 0} (f : A → D) where
    pub sum_by-push : (x : A) (l : List A) → sum_by d f (push x l) ≡ d.add (sum_by d f l) (f x)
    unfolding sum_by push
    sum_by-push x [] = laws.add_comm (f x) d.zero
    sum_by-push x (y ∷ l) = cc (sum_by-push x l, laws.add_assoc (f y) (sum_by d f l) (f x))

    pub sum_values-insert :
        (k : String) (v : A) (m : Dict A)
        → lookup k m ≡ none
        → sum_values d f (insert k v m) ≡ d.add (sum_values d f m) (f v)
    unfolding sum_values insert lookup
    sum_values-insert k v [] absent = laws.add_comm (f v) d.zero
    sum_values-insert k v ((i, w) ∷ m) absent =
        ground (arith, sum_values-insert k v m, laws.add_assoc (f w) (sum_values d f m) (f v))

    pub sum_values-erase :
        (k : String) (v : A) (m : Dict A)
        → lookup k m ≡ some v
        → sum_values d f m ≡ d.add (sum_values d f (erase k m)) (f v)
    unfolding sum_values erase lookup
    sum_values-erase k v [] found = ground arith
    sum_values-erase k v ((i, w) ∷ m) found = ground (
      arith,
      sum_values-erase k v m,
      laws.add_comm (f v) (sum_values d f m),
      laws.add_assoc (f w) (sum_values d f (erase k m)) (f v),
    )

  -- An amount `c` moves from the balance `b` into the costs `o`.
  pub buy_balances :
      (b o f c total : D)
      → d.add (d.add b o) f ≡ total
      → d.add (d.add (d.sub b c) (d.add o c)) f ≡ total
  buy_balances b o f c total before =
      let regroup : d.add (d.add (d.sub b c) (d.add o c)) f
          ≡ d.add (d.add (d.add (d.sub b c) c) o) f =
        simp (laws.add_assoc, laws.add_comm, left_comm) in
      cc (regroup, before, laws.sub_add b c)

  -- The cost `m + g` leaves the costs, the proceeds `n - k` enter the balance, and the profit
  -- `n - m - k` and the fee `g` are booked.
  pub sell_balances :
      (b o f i p n k m g : D)
      → d.add (d.add b (d.add o (d.add m g))) f ≡ d.add i p
      → d.add (d.add (d.add b (d.sub n k)) o) (d.add f g) ≡ d.add i (d.add p (d.sub (d.sub n m) k))
  sell_balances b o f i p n k m g before =
      let u = d.sub n k in
      let w = d.sub n m in
      let v = d.sub w k in
      let left : d.add (d.add (d.add (d.add b u) o) (d.add f g)) (d.add m k)
          ≡ d.add (d.add (d.add b (d.add o (d.add m g))) f) (d.add u k) =
        simp (laws.add_assoc, laws.add_comm, left_comm) in
      let right : d.add (d.add i (d.add p v)) (d.add m k)
          ≡ d.add (d.add i p) (d.add (d.add v k) m) =
        simp (laws.add_assoc, laws.add_comm) in
      laws.add_cancel (d.add (d.add (d.add b u) o) (d.add f g)) (d.add i (d.add p v)) (d.add m k)
        (cc (left, right, before, laws.sub_add n k, laws.sub_add n m, laws.sub_add w k))

  -- A profit `x` is added to the profits `p`, or the loss `a = - x` to the losses `l`, before the
  -- rest of the trades, which end with the profits `q` and the losses `m`.
  pub gain_balances :
      (q m p l x s : D)
      → d.add q l ≡ d.add (d.add (d.add p x) m) s
      → d.add q l ≡ d.add (d.add p m) (d.add x s)
  gain_balances q m p l x s later =
      let regroup : d.add (d.add (d.add p x) m) s ≡ d.add (d.add p m) (d.add x s) =
        simp (laws.add_assoc, laws.add_comm, left_comm) in
      cc (regroup, later)

  pub loss_balances :
      (q m p l x s a : D)
      → d.add a x ≡ d.zero
      → d.add q (d.add l a) ≡ d.add (d.add p m) s
      → d.add q l ≡ d.add (d.add p m) (d.add x s)
  loss_balances q m p l x s a opposite later =
      let right : d.add (d.add (d.add p m) (d.add x s)) a
          ≡ d.add (d.add (d.add p m) s) (d.add a x) =
        simp (laws.add_assoc, laws.add_comm, left_comm) in
      laws.add_cancel (d.add q l) (d.add (d.add p m) (d.add x s)) a
        (cc (laws.add_assoc q l a, right, opposite, later, laws.add_zero (d.add (d.add p m) s)))
