-- ===== src/Matching/Depth/Order.antt =====
-- The two comparators of matching/order_book.go are strict orders, for exact decimals.
use cheetah_exchange.Prelude.{arith}
use cheetah_exchange.Extern.Decimal.{Decimal, IsExact}
use cheetah_exchange.Extern.TreeMap.Sorted.{IsOrder}
use cheetah_exchange.Matching.Depth.{Key, compare_asc, compare_desc}

module _ {D : Type 0} ⦃d : Decimal D⦄ (x : IsExact D) where
  pub compare_asc-IsOrder : IsOrder {K = Key D} compare_asc
  unfolding compare_asc
  compare_asc-IsOrder = record {
    same = λ a b h. ground (arith, x.cmp_eq a.price b.price);
    itself = λ a. ground (arith, x.cmp_self a.price);
    turned = λ a b. ground (arith, x.cmp_flip a.price b.price);
    chained = λ a b c h k. ground (
      arith,
      x.cmp_eq a.price b.price,
      x.cmp_eq b.price c.price,
      x.cmp_trans a.price b.price c.price,
    );
  }

  pub compare_desc-IsOrder : IsOrder {K = Key D} compare_desc
  unfolding compare_desc
  compare_desc-IsOrder = record {
    same = λ a b h. ground (arith, x.cmp_eq a.price b.price);
    itself = λ a. ground (arith, x.cmp_self a.price);
    turned = λ a b. ground (arith, x.cmp_flip a.price b.price);
    chained = λ a b c h k. ground (
      arith,
      x.cmp_eq a.price b.price,
      x.cmp_eq b.price c.price,
      x.cmp_flip a.price b.price,
      x.cmp_flip b.price c.price,
      x.cmp_flip a.price c.price,
      x.cmp_trans c.price b.price a.price,
    );
  }
