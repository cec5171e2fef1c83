-- ===== src/Settle/Bills.antt =====
-- `ExecuteBill` of service/account_service.go on the whole table of bills, with the statements of
-- models/mysql/bill_store.go that it sends: which bills it finds, and that it writes them back.
use cheetah_exchange.Prelude.{
  ℕ, zero, suc, ◌+◌, ◌-◌, ◌≡◌, ◌≢◌, refl, sym, ap, ◌∙◌, true, Bool, not, ◌&&◌, Option, none, some,
  List, [], ◌∷◌, map, if◌then◌else◌, ◌==◌, ==_refl, arith, All, Bool-cases, inl, inr,
}
use cheetah_exchange.Extern.Decimal.{Decimal, IsExact, nought_add}
use cheetah_exchange.Models.{Account, Bill}
use cheetah_exchange.Settle.{execute_bill, available_sum, hold_sum}

-- The statements on the table of bills: `GetUnsettledBillsByUserId` and `UpdateBill`.
pub record BillTable (D T : Type 0) : Type 0 where
  pub unsettled_bills : ℕ → ℕ → T → List (Bill D)
  pub update_bill : Bill D → T → T

module _ {D : Type 0} where
  -- `Where("settled =?", 0)`, of one user and currency.
  abbrev pub is_pending : ℕ → ℕ → Bill D → Bool
  is_pending user currency b = not b.settled && (b.user_id == user) && (b.currency == currency)

  abbrev pub as_settled : Bill D → Bill D
  as_settled b = record b { settled = true }

  -- The first rows that are pending, up to a limit.
  unfoldable pub first_pending : ℕ → ℕ → ℕ → List (Bill D) → List (Bill D)
  first_pending user currency zero bs = []
  first_pending user currency (suc n) [] = []
  first_pending user currency (suc n) (b ∷ bs) =
      let taken = first_pending user currency n bs in
      let passed = first_pending user currency (suc n) bs in
      if is_pending user currency b then b ∷ taken else passed

  -- The rows with the first pending ones settled, up to a limit, and nothing else changed.
  unfoldable pub settle_first : ℕ → ℕ → ℕ → List (Bill D) → List (Bill D)
  settle_first user currency zero bs = bs
  settle_first user currency (suc n) [] = []
  settle_first user currency (suc n) (b ∷ bs) =
      let taken = settle_first user currency n bs in
      let passed = settle_first user currency (suc n) bs in
      if is_pending user currency b then as_settled b ∷ taken else b ∷ passed

  unfoldable pub count_pending : ℕ → ℕ → List (Bill D) → ℕ
  count_pending user currency [] = 0
  count_pending user currency (b ∷ bs) =
      let rest = count_pending user currency bs in
      if is_pending user currency b then rest + 1 else rest

  -- The row with the id of the bill is written over.
  unfoldable pub write_row : Bill D → List (Bill D) → List (Bill D)
  write_row b [] = []
  write_row b (c ∷ cs) = let rest = write_row b cs in (if c.id == b.id then b else c) ∷ rest

  -- No two rows have one id.
  abbrev pub HaveIds : List (Bill D) → Type 0
  HaveIds [] = Unit
  HaveIds (b ∷ bs) = All (λ c. c.id ≢ b.id) bs × HaveIds bs

-- `Limit(100)`
abbrev pub bill_limit : ℕ
bill_limit = 100

-- What the database documents: the query gives the rows that are pending by their ids, up to its
-- limit, and a save writes the row of its primary key.
pub record IsBillTable {D T : Type 0} (t : BillTable D T) : Type 0 where
  pub rows : T → List (Bill D)
  pub finds :
      (user currency : ℕ) (r : T)
      → t.unsettled_bills user currency r ≡ first_pending user currency bill_limit (rows r)
  pub writes : (b : Bill D) (r : T) → rows (t.update_bill b r) ≡ write_row b (rows r)

module _ {D T : Type 0} ⦃d : Decimal D⦄ ⦃t : BillTable D T⦄ where
  -- The loop over the bills, as far as it writes.
  unfoldable pub update_bills : List (Bill D) → T → T
  update_bills [] r = r
  update_bills (b ∷ bs) r = update_bills bs (t.update_bill b r)

  -- `ExecuteBill`, from the account and the table that it finds.
  unfoldable pub execute_bill_rows : Option (Account D) → ℕ → ℕ → T → Option (Account D) × T
  execute_bill_rows account user currency r =
      let (account', settled) =
        execute_bill account user currency (t.unsettled_bills user currency r) in
      (account', update_bills settled r)

module _ {D : Type 0} (user currency : ℕ) where
  first_pending-All :
      (id n : ℕ) (bs : List (Bill D))
      → All (λ b. b.id ≢ id) bs
      → All (λ b. b.id ≢ id) (map as_settled (first_pending user currency n bs))
  unfolding first_pending
  first_pending-All id zero bs h = tt
  first_pending-All id (suc n) [] h = tt
  first_pending-All id (suc n) (b ∷ bs) h = elim (Bool-cases (is_pending user currency b)) [
    | inl p ↦ rw (first_pending, p) (h.0, first_pending-All id n bs h.1)
    | inr q ↦ rw (first_pending, q) (first_pending-All id (suc n) bs h.1)
  ]

  write_rows : List (Bill D) → List (Bill D) → List (Bill D)
  write_rows [] cs = cs
  write_rows (b ∷ bs) cs = write_rows bs (write_row b cs)

  write_row-absent :
      (b : Bill D) (cs : List (Bill D)) → All (λ c. c.id ≢ b.id) cs → write_row b cs ≡ cs
  unfolding write_row
  write_row-absent b [] h = refl
  write_row-absent b (c ∷ cs) h = ground (arith, h.0, write_row-absent b cs h.1)

  write_rows-other :
      (c : Bill D) (bs cs : List (Bill D))
      → All (λ b. b.id ≢ c.id) bs
      → write_rows bs (c ∷ cs) ≡ c ∷ write_rows bs cs
  unfolding write_rows write_row
  write_rows-other c [] cs h = refl
  write_rows-other c (b ∷ bs) cs h =
      let here : write_row b (c ∷ cs) ≡ c ∷ write_row b cs = ground (arith, h.0) in
      rw here (write_rows-other c bs (write_row b cs) h.1)

  write_rows-settled :
      (n : ℕ) (bs : List (Bill D))
      → HaveIds bs
      → write_rows (map as_settled (first_pending user currency n bs)) bs
        ≡ settle_first user currency n bs
  unfolding first_pending settle_first write_rows write_row
  write_rows-settled zero bs h = refl
  write_rows-settled (suc n) [] h = refl
  write_rows-settled (suc n) (b ∷ bs) h = elim (Bool-cases (is_pending user currency b)) [
    | inl p ↦
        let first : write_row (as_settled b) (b ∷ bs) ≡ as_settled b ∷ bs =
          rw (write_row, ==_refl)
            (ap (λ (z : List (Bill D)). as_settled b ∷ z)
              (write_row-absent (as_settled b) bs h.0)) in
        rw (first_pending, settle_first, p, map, write_rows, first)
          (write_rows-other (as_settled b) _ bs (first_pending-All b.id n bs h.0)
            ∙ ap (λ (z : List (Bill D)). as_settled b ∷ z) (write_rows-settled n bs h.1))
    | inr q ↦
        rw (first_pending, settle_first, q)
          (write_rows-other b _ bs (first_pending-All b.id (suc n) bs h.0)
            ∙ ap (λ (z : List (Bill D)). b ∷ z) (write_rows-settled (suc n) bs h.1))
  ]

  count-settle_first :
      (n : ℕ) (bs : List (Bill D))
      → count_pending user currency (settle_first user currency n bs)
        ≡ count_pending user currency bs - n
  unfolding count_pending settle_first
  count-settle_first zero bs = omega arith
  count-settle_first (suc n) [] = omega arith
  count-settle_first (suc n) (b ∷ bs) =
      ground (arith, count-settle_first n bs, count-settle_first (suc n) bs)

module _ {D : Type 0} ⦃d : Decimal D⦄ where
  abbrev pub available_of : Option (Account D) → D
  available_of none = d.nought
  available_of (some a) = a.available

  abbrev pub hold_of : Option (Account D) → D
  hold_of none = d.nought
  hold_of (some a) = a.hold

  -- What the pending rows still have to move, for one column of theirs.
  unfoldable pub pending_sum : (Bill D → D) → ℕ → ℕ → List (Bill D) → D
  pending_sum column user currency [] = d.nought
  pending_sum column user currency (b ∷ bs) =
      let rest = pending_sum column user currency bs in
      if is_pending user currency b then d.add (column b) rest else rest

  column_sum : (Bill D → D) → List (Bill D) → D
  column_sum column [] = d.nought
  column_sum column (b ∷ bs) = d.add (column b) (column_sum column bs)

  available_column : (bs : List (Bill D)) → available_sum bs ≡ column_sum (λ b. b.available) bs
  unfolding column_sum
  available_column [] = refl
  available_column (b ∷ bs) = ap (d.add b.available) (available_column bs)

  hold_column : (bs : List (Bill D)) → hold_sum bs ≡ column_sum (λ b. b.hold) bs
  unfolding column_sum
  hold_column [] = refl
  hold_column (b ∷ bs) = ap (d.add b.hold) (hold_column bs)

  module _ (x : IsExact D) (user currency : ℕ) where
    split_sum :
        (column : Bill D → D) (n : ℕ) (bs : List (Bill D))
        → d.add
            (column_sum column (first_pending user currency n bs))
            (pending_sum column user currency (settle_first user currency n bs))
          ≡ pending_sum column user currency bs
    unfolding column_sum pending_sum first_pending settle_first
    split_sum column zero bs = nought_add x _
    split_sum column (suc n) [] = nought_add x _
    split_sum column (suc n) (b ∷ bs) = elim (Bool-cases (is_pending user currency b)) [
      | inl p ↦
          rw (first_pending, settle_first, pending_sum, p, column_sum)
            (x.add_assoc (column b) _ _ ∙ ap (d.add (column b)) (split_sum column n bs))
      | inr q ↦ rw (first_pending, settle_first, q, pending_sum, q) (split_sum column (suc n) bs)
    ]

    execute-available :
        (account : Option (Account D)) (bs : List (Bill D))
        → available_of (execute_bill account user currency bs).0
          ≡ d.add (available_of account) (available_sum bs)
    unfolding execute_bill
    execute-available account [] = sym (x.add_nought _)
    execute-available none (b ∷ bs) = refl
    execute-available (some a) (b ∷ bs) = refl

    execute-hold :
        (account : Option (Account D)) (bs : List (Bill D))
        → hold_of (execute_bill account user currency bs).0 ≡ d.add (hold_of account) (hold_sum bs)
    unfolding execute_bill
    execute-hold account [] = sym (x.add_nought _)
    execute-hold none (b ∷ bs) = refl
    execute-hold (some a) (b ∷ bs) = refl

    execute-settled :
        (account : Option (Account D)) (bs : List (Bill D))
        → (execute_bill account user currency bs).1 ≡ map as_settled bs
    unfolding execute_bill
    execute-settled account [] = refl
    execute-settled account (b ∷ bs) = refl

    module _ {T : Type 0} ⦃t : BillTable D T⦄ (laws : IsBillTable t) where
      -- A run over the bills of one user and currency, from an account and a table to others.
      pub record Executes (account : Option (Account D)) (r : T) (z : Option (Account D) × T)
          : Type 0 where
        pub available :
            d.add (available_of z.0) (pending_sum (λ b. b.available) user currency (laws.rows z.1))
            ≡ d.add
                (available_of account)
                (pending_sum (λ b. b.available) user currency (laws.rows r))
        pub hold :
            d.add (hold_of z.0) (pending_sum (λ b. b.hold) user currency (laws.rows z.1))
            ≡ d.add (hold_of account) (pending_sum (λ b. b.hold) user currency (laws.rows r))
        pub settled : laws.rows z.1 ≡ settle_first user currency 100 (laws.rows r)
        pub left :
            count_pending user currency (laws.rows z.1)
            ≡ count_pending user currency (laws.rows r) - 100

      updates :
          (bs : List (Bill D)) (r : T)
          → laws.rows (update_bills bs r) ≡ write_rows user currency bs (laws.rows r)
      unfolding update_bills write_rows
      updates [] r = refl
      updates (b ∷ bs) r =
          updates bs (t.update_bill b r) ∙ ap (write_rows user currency bs) (laws.writes b r)

      rows_after :
          (account : Option (Account D)) (r : T)
          → HaveIds (laws.rows r)
          → laws.rows (execute_bill_rows account user currency r).1
            ≡ settle_first user currency bill_limit (laws.rows r)
      unfolding execute_bill_rows
      rows_after account r h =
          updates _ r
          ∙ (ap (λ (z : List (Bill D)). write_rows user currency z (laws.rows r))
                (execute-settled account _ ∙ ap (map as_settled) (laws.finds user currency r))
              ∙ write_rows-settled user currency bill_limit (laws.rows r) h)

      -- The sum that was found, and what is still pending, are what was pending.
      moved_sum :
          (column : Bill D → D) (account : Option (Account D)) (r : T) (start end : D)
          → HaveIds (laws.rows r)
          → end ≡ d.add start (column_sum column (t.unsettled_bills user currency r))
          → d.add end (
              pending_sum column user currency
                (laws.rows (execute_bill_rows account user currency r).1))
            ≡ d.add start (pending_sum column user currency (laws.rows r))
      moved_sum column account r start end h e =
          rw (e, rows_after account r h, laws.finds user currency r)
            (x.add_assoc start _ _ ∙ ap (d.add start) (split_sum column bill_limit (laws.rows r)))

      -- A run of `ExecuteBill` settles the first hundred unsettled bills of the user and currency
      -- and changes no other row. What they say is moved into the account once: what is available,
      -- together with what the unsettled bills have still to add to it, stays the same, and so does
      -- what is on hold; an account that is not there counts as empty. No two rows have one id.
      pub execute_bill_rows-Executes :
          (account : Option (Account D)) (r : T)
          → HaveIds (laws.rows r)
          → Executes account r (execute_bill_rows account user currency r)
      unfolding execute_bill_rows
      execute_bill_rows-Executes account r h = record {
        available =
            moved_sum (λ b. b.available) account r _ _ h
              (execute-available account _
                ∙ ap (d.add (available_of account)) (available_column _));
        hold =
            moved_sum (λ b. b.hold) account r _ _ h
              (execute-hold account _ ∙ ap (d.add (hold_of account)) (hold_column _));
        settled = rows_after account r h;
        left =
            ap (count_pending user currency) (rows_after account r h)
            ∙ count-settle_first user currency bill_limit (laws.rows r);
      }
