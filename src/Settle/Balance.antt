-- ===== src/Settle/Balance.antt =====
-- `HoldBalance` of service/account_service.go.
use cheetah_exchange.Prelude.{◌≡◌, true}
use cheetah_exchange.Extern.Decimal.{Decimal, IsExact, less_than_or_equal}
use cheetah_exchange.Models.{Account, Bill}

module _ {D : Type 0} ⦃d : Decimal D⦄ (x : IsExact D) where
  -- What a hold does to an account, and the bill that records it.
  pub record Holds (a : Account D) (size : D) (a' : Account D) (bill : Bill D) : Type 0 where
    pub same_total : d.add a'.available a'.hold ≡ d.add a.available a.hold
    pub not_overdrawn : less_than_or_equal d.nought a'.available ≡ true
    pub by_bill :
        (a'.available ≡ d.add a.available bill.available) × (a'.hold ≡ d.add a.hold bill.hold)
    pub is_settled : bill.settled ≡ true
