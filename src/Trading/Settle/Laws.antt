-- ===== src/Trading/Settle/Laws.antt =====
-- The four balance updates of executeTrade together, in
-- marketBackend/src/infra/queue/matchingWorkerHandler.ts: the rows after a trade, what happens to
-- the totals, and what stays written where the third update fails.
use omen_backend.Base.{
  ℕ, ◌+◌, ◌-◌, ◌≤◌, ◌<◌, ◌≡◌, ◌≢◌, ◌⊎◌, refl, Option, some, pos, Action, Done, pure, ◌>>◌, ok, err,
  arith, positive_balance, ap, Result, subst, ◌∙◌, then_returned, then_threw, throws_first,
  returned, true, false, Bool-cases, inl, inr, any, ◌==◌,
}
use native.Mathlib.Decide.{dec_le}
use omen_backend.Token.Store.{Ledger, Token, UserBalance, insert₂, can_write}
use omen_backend.Token.Balances.{available, locked}
use omen_backend.Token.Coherence.{IsValid}
use omen_backend.Trading.Settle.{take_locked, add_available, Settlement, settle_balances}
use omen_backend.Trading.Settle.Steps.{
  row, Writes, take_locked-Writes, take_locked-Violates, add_available-Writes,
  add_available-Violates, take_locked-unknown, add_available-unknown,
}

abbrev pub available_at : ℕ → ℕ → Ledger → ℕ
available_at u t w = available (w.balances u t)

abbrev pub locked_at : ℕ → ℕ → Ledger → ℕ
locked_at u t w = locked (w.balances u t)

abbrev pub total_at : ℕ → ℕ → Ledger → ℕ
total_at u t w = available_at u t w + locked_at u t w

can_write-known :
    (u t : ℕ) (w w' : Ledger)
    → w'.tokens ≡ w.tokens
    → any (λ (x : Token). x.id == t) w.tokens ≡ true
    → can_write u t w' ≡ true
can_write-known u t w w' same known = rw same (ground (arith, known))

-- A settlement of non-negative amounts between two users in two tokens.
module _ (seller buyer base quote q qa bfee sfee : ℕ) where
  abbrev pub deal : Settlement
  deal = record {
    seller = seller;
    buyer = buyer;
    base = base;
    quote = quote;
    quantity = pos q;
    quote_amount = pos qa;
    buyer_fee = pos bfee;
    seller_fee = pos sfee;
  }

  -- What the buyer and the seller hold after it.
  pub record IsSettled (w w' : Ledger) : Type 0 where
    pub valid : IsValid w'
    pub seller_base :
        w'.balances seller base
        ≡ some (row seller base (available_at seller base w) (locked_at seller base w - q))
    pub seller_quote :
        w'.balances seller quote
        ≡ some
            (row seller quote (available_at seller quote w + qa - sfee) (locked_at seller quote w))
    pub buyer_quote :
        w'.balances buyer quote
        ≡ some (row buyer quote (available_at buyer quote w) (locked_at buyer quote w - qa))
    pub buyer_base :
        w'.balances buyer base
        ≡ some (row buyer base (available_at buyer base w + q - bfee) (locked_at buyer base w))
    pub others :
        (u t : ℕ)
        → (u ≢ seller) × (u ≢ buyer) ⊎ (t ≢ base) × (t ≢ quote)
        → w'.balances u t ≡ w.balances u t

  -- The ledgers between the four updates.
  module _ (w : Ledger) where
    abbrev w1 : Ledger
    w1 = (take_locked seller base (pos q) w).1

    abbrev w2 : Ledger
    w2 = (add_available seller quote (pos qa) (pos sfee) w1).1

    abbrev w3 : Ledger
    w3 = (take_locked buyer quote (pos qa) w2).1

    abbrev w4 : Ledger
    w4 = (add_available buyer base (pos q) (pos bfee) w3).1

  module _ (w : Ledger) (v : IsValid w) (sold : q ≤ locked_at seller base w)
      (c1 : can_write seller base w ≡ true) where
    first :
        Writes seller base
          (available_at seller base w)
          (locked_at seller base w - q)
          w
          (take_locked seller base (pos q) w)
    first = take_locked-Writes seller base w v q sold c1

  module _ (w : Ledger) (v : IsValid w) (users : seller ≢ buyer) (tokens : base ≢ quote)
      (fee : sfee ≤ qa) (sold : q ≤ locked_at seller base w) (c1 : can_write seller base w ≡ true)
      (c2 : can_write seller quote (w1 w) ≡ true) where
    second :
        Writes seller quote
          (available_at seller quote (w1 w) + qa - sfee)
          (locked_at seller quote (w1 w))
          (w1 w)
          (add_available seller quote (pos qa) (pos sfee) (w1 w))
    second = add_available-Writes seller quote (w1 w) (first w v sold c1).1 qa sfee (omega arith) c2

    abbrev sold_rows : ℕ → ℕ → Option UserBalance
    sold_rows =
        insert₂ seller base
          (row seller base (available_at seller base w) (locked_at seller base w - q)) w.balances

    abbrev paid_rows : ℕ → ℕ → Option UserBalance
    paid_rows =
        insert₂ seller quote
          (row seller quote (available_at seller quote w + qa - sfee) (locked_at seller quote w))
          sold_rows

    quote_untouched : (w1 w).balances seller quote ≡ w.balances seller quote
    quote_untouched = rw (first w v sold c1).2 (ground arith)

    rows_2 : (w2 w).balances ≡ paid_rows
    rows_2 = rw (second.2, quote_untouched, (first w v sold c1).2)

    buyer_locked : locked_at buyer quote (w2 w) ≡ locked_at buyer quote w
    buyer_locked = rw rows_2 (ground arith)

    abbrev last : Action Ledger Done
    last = do add_available buyer base (pos q) (pos bfee); pure tt

    through_second : settle_balances deal w ≡ (take_locked buyer quote (pos qa) >> last) (w2 w)
    unfolding settle_balances
    through_second =
        then_returned (take_locked seller base (pos q))
          (do
            add_available seller quote (pos qa) (pos sfee)
            take_locked buyer quote (pos qa)
            last)
          w (first w v sold c1).0
        ∙ then_returned (add_available seller quote (pos qa) (pos sfee))
            (do take_locked buyer quote (pos qa); last) (w1 w) second.0

    -- Where the buyer has too little locked, the seller has been paid and the buyer pays nothing.
    stops_half_way :
        locked_at buyer quote w < qa
        → let (r, w') = settle_balances deal w in
          (r ≡ err positive_balance)
          × IsValid w'
          × (total_at seller quote w' ≡ total_at seller quote w + (qa - sfee))
          × (total_at buyer quote w' ≡ total_at buyer quote w)
          × (total_at seller base w' + q ≡ total_at seller base w)
          × (total_at buyer base w' ≡ total_at buyer base w)
    stops_half_way short =
        let third = take_locked-Violates buyer quote (w2 w) second.1 qa (rw buyer_locked short) in
        rw (through_second, then_threw (take_locked buyer quote (pos qa)) last (w2 w) third.0)
          (
            refl,
            third.1,
            rw (third.2, rows_2) (ground arith),
            rw (third.2, rows_2) (ground arith),
            rw (third.2, rows_2) (ground arith),
            rw (third.2, rows_2) (ground arith),
          )

    unknown_third :
        qa ≤ locked_at buyer quote w
        → can_write buyer quote (w2 w) ≡ false
        → returned (settle_balances deal w).0 ≡ false
    unknown_third funded unknown = rw through_second (
        throws_first (take_locked buyer quote (pos qa)) (λ _. last) (w2 w)
          (take_locked-unknown buyer quote (w2 w) second.1 qa (rw buyer_locked funded) unknown))

    module _ (funded : qa ≤ locked_at buyer quote w)
        (c3 : can_write buyer quote (w2 w) ≡ true) where
      third :
          Writes buyer quote
            (available_at buyer quote (w2 w))
            (locked_at buyer quote (w2 w) - qa)
            (w2 w)
            (take_locked buyer quote (pos qa) (w2 w))
      third = take_locked-Writes buyer quote (w2 w) second.1 qa (rw buyer_locked funded) c3

      abbrev buyer_rows : ℕ → ℕ → Option UserBalance
      buyer_rows =
          insert₂ buyer quote
            (row buyer quote (available_at buyer quote w) (locked_at buyer quote w - qa)) paid_rows

      buyer_quote_untouched : (w2 w).balances buyer quote ≡ w.balances buyer quote
      buyer_quote_untouched = rw rows_2 (ground arith)

      rows_3 : (w3 w).balances ≡ buyer_rows
      rows_3 = rw (third.2, buyer_quote_untouched, rows_2)

      buyer_base_untouched : (w3 w).balances buyer base ≡ w.balances buyer base
      buyer_base_untouched = rw rows_3 (ground arith)

      uncovered :
          available_at buyer base w + q < bfee → (settle_balances deal w).0 ≡ err positive_balance
      uncovered short =
          let e =
            add_available-Violates buyer base (w3 w) third.1 q bfee
              (rw buyer_base_untouched short) in
          rw (
            through_second,
            then_returned (take_locked buyer quote (pos qa)) last (w2 w) third.0,
            then_threw (add_available buyer base (pos q) (pos bfee)) (pure tt) (w3 w) e,
          )

      unknown_fourth :
          bfee ≤ available_at buyer base w + q
          → can_write buyer base (w3 w) ≡ false
          → returned (settle_balances deal w).0 ≡ false
      unknown_fourth covered unknown =
          rw (through_second, then_returned (take_locked buyer quote (pos qa)) last (w2 w) third.0)
            (throws_first (add_available buyer base (pos q) (pos bfee)) (λ _. pure tt) (w3 w)
              (add_available-unknown buyer base (w3 w) third.1 q bfee
                (rw buyer_base_untouched covered) unknown))

      module _ (covered : bfee ≤ available_at buyer base w + q)
          (c4 : can_write buyer base (w3 w) ≡ true) where
        fourth :
            Writes buyer base
              (available_at buyer base (w3 w) + q - bfee)
              (locked_at buyer base (w3 w))
              (w3 w)
              (add_available buyer base (pos q) (pos bfee) (w3 w))
        fourth =
            add_available-Writes buyer base (w3 w) third.1 q bfee (rw buyer_base_untouched covered)
              c4

        rows_4 :
            (w4 w).balances
            ≡ insert₂ buyer base
                (row buyer base (available_at buyer base w + q - bfee) (locked_at buyer base w))
                buyer_rows
        rows_4 = rw (fourth.2, buyer_base_untouched, rows_3)

        through_last : settle_balances deal w ≡ (ok tt, (w4 w))
        through_last =
            through_second
            ∙ then_returned (take_locked buyer quote (pos qa)) last (w2 w) third.0
            ∙ then_returned (add_available buyer base (pos q) (pos bfee)) (pure tt) (w3 w) fourth.0

        settles : let (r, w') = settle_balances deal w in (r ≡ ok tt) × IsSettled w w'
        settles = rw through_last (
          refl,
          record {
            valid = fourth.1;
            seller_base = rw rows_4 (ground arith);
            seller_quote = rw rows_4 (ground arith);
            buyer_quote = rw rows_4 (ground arith);
            buyer_base = rw rows_4 (ground arith);
            others = λ u t h. rw rows_4 (ground arith);
          },
        )

  -- The three amounts that the users must have for a trade.
  abbrev pub CanSettle : Ledger → Type 0
  CanSettle w =
      (q ≤ locked_at seller base w)
      × (qa ≤ locked_at buyer quote w)
      × (bfee ≤ available_at buyer base w + q)

  module _ (w : Ledger) (v : IsValid w) (users : seller ≢ buyer) (tokens : base ≢ quote)
      (fee : sfee ≤ qa) where
    unsold : locked_at seller base w < q → (settle_balances deal w).0 ≡ err positive_balance
    unfolding settle_balances
    unsold short =
        ap (λ (x : Result Done × Ledger). x.0)
          (then_threw (take_locked seller base (pos q))
            (do
              add_available seller quote (pos qa) (pos sfee)
              take_locked buyer quote (pos qa)
              add_available buyer base (pos q) (pos bfee)
              pure tt)
            w (take_locked-Violates seller base w v q short).0)

    not_refused :
        {w' : Ledger}
        → settle_balances deal w ≡ (ok tt, w')
        → ¬ ((settle_balances deal w).0 ≡ err positive_balance)
    not_refused h e = cc (ap (λ (x : Result Done × Ledger). x.0) h)

    not_thrown :
        {w' : Ledger}
        → settle_balances deal w ≡ (ok tt, w')
        → ¬ (returned (settle_balances deal w).0 ≡ false)
    not_thrown h e = cc (ap (λ (x : Result Done × Ledger). returned x.0) h)

    unknown_first :
        q ≤ locked_at seller base w
        → can_write seller base w ≡ false
        → returned (settle_balances deal w).0 ≡ false
    unfolding settle_balances
    unknown_first sold unknown =
        throws_first (take_locked seller base (pos q))
          (λ _. do
            add_available seller quote (pos qa) (pos sfee)
            take_locked buyer quote (pos qa)
            add_available buyer base (pos q) (pos bfee)
            pure tt)
          w (take_locked-unknown seller base w v q sold unknown)

    unknown_second :
        (sold : q ≤ locked_at seller base w)
        → can_write seller base w ≡ true
        → can_write seller quote (w1 w) ≡ false
        → returned (settle_balances deal w).0 ≡ false
    unfolding settle_balances
    unknown_second sold c1 unknown =
        let rest : Action Ledger Done = (do
          take_locked buyer quote (pos qa)
          add_available buyer base (pos q) (pos bfee)
          pure tt) in
        let done = first w v sold c1 in
        rw
          (then_returned (take_locked seller base (pos q))
            (add_available seller quote (pos qa) (pos sfee) >> rest) w done.0)
          (throws_first (add_available seller quote (pos qa) (pos sfee)) (λ _. rest) (w1 w)
            (add_available-unknown seller quote (w1 w) done.1 qa sfee (omega arith) unknown))

    -- A settlement that returned was within what the users had, and wrote the four rows.
    pub settle_balances-eq-ok :
        {w' : Ledger} → settle_balances deal w ≡ (ok tt, w') → CanSettle w × IsSettled w w'
    settle_balances-eq-ok h = elim (dec_le q (locked_at seller base w)) [
      | no n ↦ absurd (not_refused h (unsold (omega arith)))
      | yes sold ↦ elim (Bool-cases (can_write seller base w)) [
        | inr unknown ↦ absurd (not_thrown h (unknown_first sold unknown))
        | inl c1 ↦ elim (Bool-cases (can_write seller quote (w1 w))) [
          | inr unknown ↦ absurd (not_thrown h (unknown_second sold c1 unknown))
          | inl c2 ↦ paid_seller h sold c1 c2
        ]
      ]
    ]
      where
        paid_seller :
            {w' : Ledger}
            → settle_balances deal w ≡ (ok tt, w')
            → (sold : q ≤ locked_at seller base w) → can_write seller base w ≡ true
            → can_write seller quote (w1 w) ≡ true
            → CanSettle w × IsSettled w w'
        paid_seller h sold c1 c2 = elim (dec_le qa (locked_at buyer quote w)) [
          | no n ↦
              absurd
                (not_refused h (stops_half_way w v users tokens fee sold c1 c2 (omega arith)).0)
          | yes funded ↦ elim (Bool-cases (can_write buyer quote (w2 w))) [
            | inr unknown ↦
                absurd (not_thrown h (unknown_third w v users tokens fee sold c1 c2 funded unknown))
            | inl c3 ↦ elim (dec_le bfee (available_at buyer base w + q)) [
              | no n ↦ absurd (
                  not_refused h (uncovered w v users tokens fee sold c1 c2 funded c3 (omega arith)))
              | yes covered ↦ elim (Bool-cases (can_write buyer base (w3 w))) [
                | inr unknown ↦ absurd (
                    not_thrown h
                      (unknown_fourth w v users tokens fee sold c1 c2 funded c3 covered unknown))
                | inl c4 ↦ (
                  (sold, funded, covered),
                  subst (IsSettled w) (ap (λ (x : Result Done × Ledger). x.1) h)
                      (settles w v users tokens fee sold c1 c2 funded c3 covered c4).1,
                )
              ]
            ]
          ]
        ]

  -- The tokens of the trade are there.
  abbrev pub HasTokens : Ledger → Type 0
  HasTokens w =
      (any (λ (x : Token). x.id == base) w.tokens ≡ true)
      × (any (λ (x : Token). x.id == quote) w.tokens ≡ true)

  module _ (w : Ledger) (v : IsValid w) (users : seller ≢ buyer) (tokens : base ≢ quote)
      (fee : sfee ≤ qa) (known : HasTokens w) (sold : q ≤ locked_at seller base w) where
    writes_1 : can_write seller base w ≡ true
    writes_1 = can_write-known seller base w w refl known.0

    writes_2 : can_write seller quote (w1 w) ≡ true
    writes_2 = can_write-known seller quote w (w1 w) (first w v sold writes_1).3 known.1

    -- Where the buyer has too little locked, the seller has been paid and the buyer pays nothing.
    pub settle_balances-partial :
        locked_at buyer quote w < qa
        → let (r, w') = settle_balances deal w in
          (r ≡ err positive_balance)
          × IsValid w'
          × (total_at seller quote w' ≡ total_at seller quote w + (qa - sfee))
          × (total_at buyer quote w' ≡ total_at buyer quote w)
          × (total_at seller base w' + q ≡ total_at seller base w)
          × (total_at buyer base w' ≡ total_at buyer base w)
    settle_balances-partial short = stops_half_way w v users tokens fee sold writes_1 writes_2 short

    -- Where the ledger is valid, the two users and the two tokens differ, the seller has the
    -- quantity locked, the buyer the quote amount, the fees are covered, and the tokens table has
    -- both tokens, the four balance updates of a trade return and leave each of the four balances
    -- at what it should be, every other balance alone, and the ledger valid.
    pub settle_balances-IsSettled :
        qa ≤ locked_at buyer quote w
        → bfee ≤ available_at buyer base w + q
        → let (r, w') = settle_balances deal w in (r ≡ ok tt) × IsSettled w w'
    settle_balances-IsSettled funded covered =
        let same1 = (first w v sold writes_1).3 in
        let same2 = (second w v users tokens fee sold writes_1 writes_2).3 ∙ same1 in
        let c3 = can_write-known buyer quote w (w2 w) same2 known.1 in
        let same3 = (third w v users tokens fee sold writes_1 writes_2 funded c3).3 ∙ same2 in
        let c4 = can_write-known buyer base w (w3 w) same3 known.0 in
        settles w v users tokens fee sold writes_1 writes_2 funded c3 covered c4

-- The fees leave the two users and go to nobody; nothing else is lost or made.
pub IsSettled-total :
    (seller buyer base quote q qa bfee sfee : ℕ) (w w' : Ledger)
    → IsSettled seller buyer base quote q qa bfee sfee w w'
    → q ≤ locked_at seller base w
    → qa ≤ locked_at buyer quote w
    → sfee ≤ qa
    → bfee ≤ available_at buyer base w + q
    → (total_at seller base w' + total_at buyer base w' + bfee
        ≡ total_at seller base w + total_at buyer base w)
      × (total_at seller quote w' + total_at buyer quote w' + sfee
          ≡ total_at seller quote w + total_at buyer quote w)
IsSettled-total seller buyer base quote q qa bfee sfee w w' s sold funded fee covered =
    rw (s.seller_base, s.buyer_base, s.seller_quote, s.buyer_quote) (omega arith, omega arith)
