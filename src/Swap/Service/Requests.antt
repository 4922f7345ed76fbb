-- ===== src/Swap/Service/Requests.antt =====
-- `SwapService.requestSwap` of marketBackend/src/services/swapService.ts, up to the lock.
use omen_backend.Base.{
  ℕ, suc, ◌+◌, ◌-◌, ◌≤◌, ◌≡◌, ◌≢◌, ◌⊎◌, ◌∙◌, ap, refl, sym, subst, true, false, Option, none, some,
  pos, ◌==◌, is_some, or_throw, Action, Done, Result, ok, err, app, catch, pure, bind-ok, ◌>>=◌,
  ◌>>◌, arith, token_contract_missing,
}
use omen_backend.Token.Store.{Ledger, Token, UserBalance, find_token_by_id}
use omen_backend.Token.Service.{verify_compliance, get_user_balance, lock_balance_for_order}
use omen_backend.Token.Compliance.{verify_compliance-state}
use omen_backend.Token.Coherence.{IsValid, coherent_read, get_user_balance-balances}
use omen_backend.Swap.Types.{CreateSwapInput, SwapRecord}
use omen_backend.Swap.Store.{SwapState, on_ledger}
use omen_backend.Swap.Quote.{both_tokens}
use omen_backend.Swap.Service.{
  is_bad_minimum, validate_swap_input, ensure_compliance_if_required, ensure_sufficient_balance,
  quote_for, record_request, lock_and_record, request_swap,
}
use omen_backend.Swap.Worker.Runs.{token_at}

-- A request for `suc n` of a token with a contract that its user has, against another such token.
pub record CanRequest (input : CreateSwapInput) (n : ℕ) (source target : Token) (b : UserBalance)
    (s : SwapState) : Type 0 where
  pub distinct : (input.source_token_id == input.target_token_id) ≡ false
  pub positive : input.source_amount ≡ pos (suc n)
  pub minimum : is_bad_minimum input.min_target_amount ≡ false
  pub source_found : token_at input.source_token_id s.ledger ≡ some source
  pub target_found : token_at input.target_token_id s.ledger ≡ some target
  pub source_address : is_some source.contract_address ≡ true
  pub target_address : is_some target.contract_address ≡ true
  pub valid : IsValid s.ledger
  pub held : s.ledger.balances input.user_id source.id ≡ some b
  pub enough : suc n ≤ b.available_balance

-- The compliance check changes nothing and never throws.
compliance_lem : (u t : ℕ) (s : SwapState) → ensure_compliance_if_required u t s ≡ (ok tt, s)
unfolding ensure_compliance_if_required
compliance_lem u t s = split (verify_compliance u t s.ledger).0 refl
  where
    split :
        (r : Result Done)
        → (verify_compliance u t s.ledger).0 ≡ r
        → on_ledger (catch (verify_compliance u t) λ _. pure tt) s ≡ (ok tt, s)
    split (ok tt) e = ground (arith, e, verify_compliance-state u t s.ledger)
    split (err x) e = ground (arith, e, verify_compliance-state u t s.ledger)

get_user_balance-tokens : (u t : ℕ) (w : Ledger) → (get_user_balance u t w).1.tokens ≡ w.tokens
unfolding get_user_balance
get_user_balance-tokens u t w = ground arith

get_user_balance-now : (u t : ℕ) (w : Ledger) → (get_user_balance u t w).1.now ≡ w.now
unfolding get_user_balance
get_user_balance-now u t w = ground arith

-- The row that a lock of `n` leaves of `b`.
abbrev pub locked_row : ℕ → ℕ → ℕ → UserBalance → UserBalance
locked_row u t n b = record {
  user_id = u;
  token_id = t;
  available_balance = b.available_balance - n;
  locked_balance = b.locked_balance + n;
}

lock-goes :
    (u t n : ℕ) (w : Ledger) {b : UserBalance}
    → w.balances u t ≡ some b
    → n ≤ b.available_balance
    → let (r, w') = lock_balance_for_order u t (pos n) w in
      (r ≡ ok (locked_row u t n b))
      × (w'.balances u t ≡ some (locked_row u t n b))
      × (w'.tokens ≡ w.tokens)
      × (w'.now ≡ w.now)
      × ((u' t' : ℕ) → (u' ≢ u) ⊎ (t' ≢ t) → w'.balances u' t' ≡ w.balances u' t')
unfolding lock_balance_for_order
lock-goes u t n w e h = ground (arith, e, h)

module _ (input : CreateSwapInput) (n : ℕ) (source : Token) (s : SwapState) where
  -- The ledger after the balance was read, and after it was locked.
  abbrev read_ledger : Ledger
  read_ledger = (get_user_balance input.user_id source.id s.ledger).1

  abbrev pub locked_ledger : Ledger
  locked_ledger = (lock_balance_for_order input.user_id source.id (pos (suc n)) read_ledger).1

  abbrev read_state : SwapState
  read_state = record s { ledger = read_ledger }

  abbrev pub locked_state : SwapState
  locked_state = record s { ledger = locked_ledger }

module _ (input : CreateSwapInput) (n : ℕ) (source target : Token) (b : UserBalance) (s : SwapState)
    (can : CanRequest input n source target b s) where
  validates : validate_swap_input input s ≡ (ok tt, s)
  unfolding validate_swap_input
  validates = ground (arith, can.distinct, can.positive, can.minimum)

  finds : both_tokens input.source_token_id input.target_token_id s ≡ (ok (source, target), s)
  unfolding both_tokens find_token_by_id
  finds = ground (arith, can.source_found, can.target_found)

  still_held : (read_ledger input n source s).balances input.user_id source.id ≡ some b
  still_held = rw (get_user_balance-balances input.user_id source.id s.ledger) can.held

  suffices :
      ensure_sufficient_balance input.user_id source.id input.source_amount s
      ≡ (ok tt, (read_state input n source s))
  unfolding ensure_sufficient_balance
  suffices = ground (
    arith,
    coherent_read input.user_id source.id s.ledger (can.valid.coherent input.user_id source.id),
    can.held,
    can.positive,
    can.enough,
  )

  pub locked_lem :
      let row = locked_row input.user_id source.id (suc n) b in
      let w' = locked_ledger input n source s in
      (lock_balance_for_order input.user_id source.id (pos (suc n)) (read_ledger input n source s)
        ≡ (ok row, w'))
      × (w'.balances input.user_id source.id ≡ some row)
      × (w'.tokens ≡ s.ledger.tokens)
      × (w'.now ≡ s.ledger.now)
      × ((u' t' : ℕ)
          → (u' ≢ input.user_id) ⊎ (t' ≢ source.id)
          → w'.balances u' t' ≡ s.ledger.balances u' t')
  locked_lem =
      let (r, here, tokens, now, others) =
        lock-goes input.user_id source.id (suc n) (read_ledger input n source s) still_held
          can.enough in
      let same = get_user_balance-balances input.user_id source.id s.ledger in
      (
        λ i. (r i, locked_ledger input n source s),
        here,
        tokens ∙ get_user_balance-tokens input.user_id source.id s.ledger,
        now ∙ get_user_balance-now input.user_id source.id s.ledger,
        λ u' t' other. others u' t' other ∙ ap (λ f. f u' t') same,
      )

  locks :
      on_ledger
        (lock_balance_for_order input.user_id source.id input.source_amount)
        (read_state input n source s)
      ≡ (ok (locked_row input.user_id source.id (suc n) b), locked_state input n source s)
  locks =
      subst
        (λ x.
          on_ledger (lock_balance_for_order input.user_id source.id x) (read_state input n source s)
          ≡ (ok (locked_row input.user_id source.id (suc n) b), locked_state input n source s))
        (sym can.positive) (λ i. let (r, w) = locked_lem.0 i in (r, record s { ledger = w }))

  checks : request_swap input s ≡ lock_and_record input source target s
  unfolding request_swap
  checks =
      let place : Token → Token → Action SwapState SwapRecord = lock_and_record input in
      let comply : Token × Token → Action SwapState SwapRecord = λ x.
        ensure_compliance_if_required input.user_id x.0.id
        >> (ensure_compliance_if_required input.user_id x.1.id >> place x.0 x.1) in
      let second : Token × Token → Action SwapState SwapRecord =
        λ x. or_throw x.1.contract_address (app 400 token_contract_missing) >> comply x in
      let first : Token × Token → Action SwapState SwapRecord =
        λ x. or_throw x.0.contract_address (app 400 token_contract_missing) >> second x in
      let both : Token × Token = (source, target) in
      bind-ok (validate_swap_input input)
        (λ _. both_tokens input.source_token_id input.target_token_id >>= first) s validates
      ∙ bind-ok (both_tokens input.source_token_id input.target_token_id) first s finds
      ∙ passes source.contract_address can.source_address (second both)
      ∙ passes target.contract_address can.target_address (comply both)
      ∙ bind-ok (ensure_compliance_if_required input.user_id source.id)
          (λ _. ensure_compliance_if_required input.user_id target.id >> place source target) s
          (compliance_lem input.user_id source.id s)
      ∙ bind-ok (ensure_compliance_if_required input.user_id target.id) (λ _. place source target) s
          (compliance_lem input.user_id target.id s)
    where
      passes :
          (o : Option ℕ)
          → is_some o ≡ true
          → (k : Action SwapState SwapRecord)
          → (or_throw o (app 400 token_contract_missing) >> k) s ≡ k s
      passes none h k = absurd (cc h)
      passes (some a) h k = refl

  -- The request gets to its quote with the source amount locked, whatever the compliance says.
  pub reaches_quote :
      request_swap input s
      ≡ (quote_for input source target >>= record_request input source target)
          (locked_state input n source s)
  unfolding lock_and_record
  reaches_quote =
      let quoted : Action SwapState SwapRecord =
        quote_for input source target >>= record_request input source target in
      let lock : Action SwapState UserBalance =
        on_ledger (lock_balance_for_order input.user_id source.id input.source_amount) in
      checks
      ∙ bind-ok (ensure_sufficient_balance input.user_id source.id input.source_amount)
          (λ _. lock >> quoted) s suffices
      ∙ bind-ok lock (λ _. quoted) (read_state input n source s) locks
