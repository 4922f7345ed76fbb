-- ===== src/Wrapper/Outcome.antt =====
-- What wrapping does to the balances, and what it leaves of the cache that the token service reads:
-- wrapAsset of marketBackend/src/services/wrapperService.ts.
use omen_backend.Base.{
  ℕ, suc, ◌+◌, ◌-◌, ◌≤◌, ◌≡◌, ◌∙◌, refl, sym, ap, subst, Option, none, some, ◌∷◌, pos, find, ◌==◌,
  Action, Done, ok, app, bind-ok, ◌>>=◌, ◌>>◌, arith, throw_if, pure, insufficient_balance,
}
use omen_backend.Token.Store.{
  Ledger, Token, UserBalance, rwa, find_token_by_id, find_user_balance, lock_balance,
}
use omen_backend.Token.Service.{is_short, get_user_balance}
use omen_backend.Wrapper.Store.{
  WrapRequest, WrapJob, WrapState, on_ledger, generate_transaction_id, add_wrap_job,
}
use omen_backend.Wrapper.Service.{
  exchange_rate, calculate_usdc_amount, calculate_token_amount, find_wrappable, wrap_asset,
}

-- The amount that a wrap is quoted buys back exactly what was wrapped.
pub token_amount-usdc_amount :
    (n : ℕ)
    → calculate_token_amount (calculate_usdc_amount (pos n) exchange_rate) exchange_rate ≡ pos n
unfolding calculate_usdc_amount calculate_token_amount
token_amount-usdc_amount n = ap pos (omega arith)

-- The row that a lock of `n` past the token service leaves of `b`.
abbrev pub wrapped_row : ℕ → ℕ → ℕ → UserBalance → UserBalance
wrapped_row u t n b = record {
  user_id = u;
  token_id = t;
  available_balance = b.available_balance - n;
  locked_balance = b.locked_balance + n;
}

-- What the cache has, or else the row.
abbrev pub or_else : Option UserBalance → Option UserBalance → Option UserBalance
or_else none row = row
or_else (some cached) row = some cached

abbrev pub wrap_job : WrapRequest → ℕ → WrapJob
wrap_job request id = record {
  transaction_id = id;
  user_id = request.user_id;
  token_id = request.token_id;
  amount = request.amount;
  destination_address = request.destination_address;
}

module _ (request : WrapRequest) (n : ℕ) (token : Token) (b : UserBalance) (s : WrapState)
    (found : find (λ (t : Token). t.id == request.token_id) s.ledger.tokens ≡ some token)
    (wrappable : token.token_type ≡ rwa) (amount : request.amount ≡ pos (suc n))
    (held : s.ledger.balances request.user_id request.token_id ≡ some b)
    (enough : suc n ≤ b.available_balance) where
  finds : find_wrappable request.token_id s ≡ (ok token, s)
  unfolding find_wrappable find_token_by_id
  finds = ground (arith, found, wrappable)

  reads : on_ledger (find_user_balance request.user_id request.token_id) s ≡ (ok (some b), s)
  unfolding find_user_balance
  reads i = (ok (held i), s)

  abbrev locked_ledger : Ledger
  locked_ledger = (lock_balance request.user_id request.token_id (pos (suc n)) s.ledger).1

  locks :
      lock_balance request.user_id request.token_id (pos (suc n)) s.ledger
      ≡ (ok (wrapped_row request.user_id request.token_id (suc n) b), locked_ledger)
  unfolding lock_balance
  locks = ground (arith, held, enough)

  locked_row_there :
      locked_ledger.balances request.user_id request.token_id
      ≡ some (wrapped_row request.user_id request.token_id (suc n) b)
  unfolding lock_balance
  locked_row_there = ground (arith, held, enough)

  locks_amount : on_ledger (lock_balance request.user_id request.token_id request.amount) s ≡ (
    ok (wrapped_row request.user_id request.token_id (suc n) b),
    record s { ledger = locked_ledger },
  )
  locks_amount =
      subst
        (λ x. on_ledger (lock_balance request.user_id request.token_id x) s ≡ (
          ok (wrapped_row request.user_id request.token_id (suc n) b),
          record s { ledger = locked_ledger },
        ))
        (sym amount) (λ i. ((locks i).0, record s { ledger = (locks i).1 }))

  suffices :
      throw_if {S = WrapState} (is_short (some b) request.amount) (app 400 insufficient_balance) s
      ≡ (ok tt, s)
  suffices = ground (arith, amount, enough)

  wraps : wrap_asset request s ≡ (
    ok s.next_id,
    record s {
      ledger = locked_ledger;
      wrap_jobs = wrap_job request s.next_id ∷ s.wrap_jobs;
      next_id = s.next_id + 1;
    },
  )
  unfolding wrap_asset generate_transaction_id add_wrap_job
  wraps =
      let queue : Action WrapState ℕ =
        generate_transaction_id >>= λ id. add_wrap_job (wrap_job request id) >> pure id in
      let lock : Action WrapState UserBalance =
        on_ledger (lock_balance request.user_id request.token_id request.amount) in
      let check : Option UserBalance → Action WrapState Done =
        λ balance. throw_if (is_short balance request.amount) (app 400 insufficient_balance) in
      let read : Action WrapState (Option UserBalance) =
        on_ledger (find_user_balance request.user_id request.token_id) in
      bind-ok (find_wrappable request.token_id)
        (λ _. read >>= λ balance. check balance >> (lock >> queue)) s finds
      ∙ bind-ok read (λ balance. check balance >> (lock >> queue)) s reads
      ∙ bind-ok (check (some b)) (λ _. lock >> queue) s suffices
      ∙ bind-ok lock (λ _. queue) s locks_amount

  -- Past the token service, the cache keeps what it had; a read of it is the row where it had
  -- nothing.
  read_after_lock :
      (get_user_balance request.user_id request.token_id locked_ledger).0
      ≡ ok (
          or_else
            (s.ledger.balance_cache request.user_id request.token_id)
            (some (wrapped_row request.user_id request.token_id (suc n) b)))
  unfolding get_user_balance lock_balance find_user_balance
  read_after_lock = ground (arith, held, enough)

  -- A wrap of a positive amount of a token of a real-world asset that its user has available is
  -- accepted: the job is in the queue, and the amount is moved from the available to the locked
  -- part of the row. The token service then reads what the cache had before the wrap, whatever
  -- that is, and reads the row only where the cache had nothing.
  pub wrap_asset-stale :
      let (r, s') = wrap_asset request s in
      (r ≡ ok s.next_id)
      × (s'.wrap_jobs ≡ wrap_job request s.next_id ∷ s.wrap_jobs)
      × (s'.ledger.balances request.user_id request.token_id
          ≡ some (wrapped_row request.user_id request.token_id (suc n) b))
      × ((get_user_balance request.user_id request.token_id s'.ledger).0
          ≡ ok (
              or_else
                (s.ledger.balance_cache request.user_id request.token_id)
                (some (wrapped_row request.user_id request.token_id (suc n) b))))
  wrap_asset-stale =
      subst
        (λ x.
          (x.0 ≡ ok s.next_id)
          × (x.1.wrap_jobs ≡ wrap_job request s.next_id ∷ s.wrap_jobs)
          × (x.1.ledger.balances request.user_id request.token_id
              ≡ some (wrapped_row request.user_id request.token_id (suc n) b))
          × ((get_user_balance request.user_id request.token_id x.1.ledger).0
              ≡ ok (
                  or_else (s.ledger.balance_cache request.user_id request.token_id)
                    (some (wrapped_row request.user_id request.token_id (suc n) b)))))
        (sym wraps) (refl, refl, locked_row_there, read_after_lock)
