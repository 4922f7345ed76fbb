-- ===== src/Swap/Worker/Retries.antt =====
-- The attempts of one swap job, in marketBackend/src/services/swapService.ts: BullMQ calls
-- processSwapJob with attemptsMade = 0, 1, 2, … up to the configured number of attempts.
use omen_backend.Base.{
  ℕ, zero, suc, ◌+◌, ◌≤◌, ◌≡◌, ◌∙◌, ap, refl, sym, subst, true, false, Option, some, leb, err, app,
  Error, sapphire_swap_failed, List, pos, catch-err, arith,
}
use omen_backend.Token.Store.{Ledger, UserBalance}
use omen_backend.Token.Balances.{available, locked}
use omen_backend.Token.Service.{unlock_balance_from_order}
use omen_backend.Swap.Types.{
  SwapStatus, processing, queued, error_thrown, SwapRecord, SwapJobPayload,
}
use omen_backend.Swap.Store.{SwapState, SwapTokensParams}
use omen_backend.Swap.Worker.{
  Bridge, carried, is_confirmed, Prepared, params_of, swap_tokens, execute_swap, handle_failure,
  process_swap_job,
}
use omen_backend.Swap.Worker.Runs.{
  IsReady, with_status, started, requeued, gave_up, failed_for, reaches_bridge, handle-requeues,
  handle-gives_up,
}

-- The first `n` attempts of a job, whatever they throw.
abbrev pub attempts_of :
    Bridge → Option ℕ → (attempts : ℕ) → SwapJobPayload → (n : ℕ) → SwapState → SwapState
attempts_of bridge key attempts job zero s = s
attempts_of bridge key attempts job (suc n) s =
    (process_swap_job bridge key n attempts job (attempts_of bridge key attempts job n s)).1

-- The swaps that the bridge has carried out after `n` calls for the same swap.
abbrev pub carried_by :
    Bridge → SwapTokensParams → ℕ → List SwapTokensParams → List SwapTokensParams
carried_by bridge params zero sent = sent
carried_by bridge params (suc n) sent =
    let before = carried_by bridge params n sent in carried (bridge before params) params before

-- A call of the bridge has added to the swaps that it has carried out.
abbrev called : Bridge → SwapTokensParams → SwapState → SwapState
called bridge params s = record s { bridged = carried (bridge s.bridged params) params s.bridged }

abbrev swap_failed : Error
swap_failed = app 500 sapphire_swap_failed

module _ (bridge : Bridge) (key : Option ℕ) (job : SwapJobPayload) (swap : SwapRecord)
    (p : Prepared) (s : SwapState) (ready : IsReady key job swap p s)
    (down : (sent : List SwapTokensParams)
      → is_confirmed (bridge sent (params_of job swap p)) ≡ false) where
  abbrev before_failure : SwapState
  before_failure = called bridge (params_of job swap p) (started swap s)

  bridge_throws :
      execute_swap bridge swap (params_of job swap p) (started swap s)
      ≡ (err swap_failed, before_failure)
  unfolding execute_swap swap_tokens
  bridge_throws = ground (arith, down s.bridged)

  -- A run while the bridge throws, where another attempt is left and where none is.
  pub run-requeues :
      (made attempts : ℕ)
      → leb attempts (made + 1) ≡ false
      → process_swap_job bridge key made attempts job s
        ≡ (err swap_failed, requeued (with_status processing swap) before_failure)
  run-requeues made attempts more =
      reaches_bridge bridge key made attempts job swap p s ready
      ∙ catch-err (execute_swap bridge swap (params_of job swap p))
          (handle_failure made attempts swap.id) (started swap s) bridge_throws
      ∙ handle-requeues made attempts (with_status processing swap) swap_failed before_failure
          (ground arith) more

  pub run-gives_up :
      (made attempts : ℕ)
      → leb attempts (made + 1) ≡ true
      → process_swap_job bridge key made attempts job s
        ≡ (err swap_failed, gave_up error_thrown (with_status processing swap) before_failure)
  run-gives_up made attempts last =
      reaches_bridge bridge key made attempts job swap p s ready
      ∙ catch-err (execute_swap bridge swap (params_of job swap p))
          (handle_failure made attempts swap.id) (started swap s) bridge_throws
      ∙ handle-gives_up made attempts (with_status processing swap) swap_failed before_failure
          (ground arith) last

  -- A swap that waits for the next attempt has what it had, but for its status.
  pub requeued-IsReady :
      IsReady key job
        (with_status queued swap)
        p
        (requeued (with_status processing swap) before_failure)
  requeued-IsReady = record {
    row = ground (arith, ready.keyed);
    keyed = ready.keyed;
    opened = refl;
    prepared = ready.prepared;
  }

-- What a number of attempts leaves while the bridge throws.
abbrev Waits :
    Bridge → Option ℕ → SwapJobPayload → SwapRecord → Prepared → SwapState → ℕ → SwapState → Type 0
Waits bridge key job swap p s n s' =
    (status : SwapStatus) × IsReady key job (with_status status swap) p s'
    × (s'.ledger ≡ s.ledger)
    × (s'.bridged ≡ carried_by bridge (params_of job swap p) n s.bridged)

-- An unlock of what is locked.
unlock-row :
    (u t n : ℕ) (w : Ledger) (b : UserBalance)
    → w.balances u t ≡ some b
    → n ≤ b.locked_balance
    → let w' = (unlock_balance_from_order u t (pos n) w).1 in
      (available (w'.balances u t) ≡ b.available_balance + n)
      × (locked (w'.balances u t) + n ≡ b.locked_balance)
unfolding unlock_balance_from_order
unlock-row u t n w b held enough = ground (arith, held, enough)

module _ (bridge : Bridge) (key : Option ℕ) (last : ℕ) (job : SwapJobPayload) (swap : SwapRecord)
    (p : Prepared) (s : SwapState) (ready : IsReady key job swap p s)
    (down : (sent : List SwapTokensParams)
      → is_confirmed (bridge sent (params_of job swap p)) ≡ false) where
  call-carries :
      (n : ℕ) (sent : List SwapTokensParams)
      → sent ≡ carried_by bridge (params_of job swap p) n s.bridged
      → carried (bridge sent (params_of job swap p)) (params_of job swap p) sent
        ≡ carried_by bridge (params_of job swap p) (suc n) s.bridged
  call-carries n sent e =
      ap (λ x. carried (bridge x (params_of job swap p)) (params_of job swap p) x) e

  Waits-through :
      (n : ℕ)
      → n ≤ last
      → Waits bridge key job swap p s n (attempts_of bridge key (suc last) job n s)
  Waits-through zero h = (swap.status, ready, refl, refl)
  Waits-through (suc n) h =
      let (status, ready', ledger', bridged') = Waits-through n (omega (arith, h)) in
      let before = attempts_of bridge key (suc last) job n s in
      let now = with_status status swap in
      let run =
        run-requeues bridge key job now p before ready' down n (suc last) (ground (arith, h)) in
      subst (λ r. Waits bridge key job swap p s (suc n) r.1) (sym run)
        (
          queued,
          requeued-IsReady bridge key job now p before ready' down,
          ledger',
          call-carries n before.bridged bridged',
        )

  -- While the client of the bridge throws at each call, the configured number of attempts is
  -- enough to end, for a swap that has what its job needs and whose source amount of 0 or more is
  -- locked: the swap is then FAILED, its row is otherwise as it was, and the source amount is back
  -- in the available part of its balance, once. The bridge has carried out the swap as often as it
  -- did so in a call whose answer was lost, and no more.
  pub attempts-end :
      (n : ℕ) (b : UserBalance)
      → swap.source_amount ≡ pos n
      → s.ledger.balances swap.user_id swap.source_token_id ≡ some b
      → n ≤ b.locked_balance
      → let s' = attempts_of bridge key (suc last) job (suc last) s in
        let row = s'.ledger.balances swap.user_id swap.source_token_id in
        (s'.swaps swap.id ≡ some (failed_for error_thrown swap))
        × (available row ≡ b.available_balance + n)
        × (locked row + n ≡ b.locked_balance)
        × (s'.bridged ≡ carried_by bridge (params_of job swap p) (suc last) s.bridged)
  attempts-end n b amount held enough =
      let (status, ready', ledger', bridged') = Waits-through last (omega arith) in
      let before = attempts_of bridge key (suc last) job last s in
      let now = with_status status swap in
      let run =
        run-gives_up bridge key job now p before ready' down last (suc last) (ground arith) in
      let (more, less) =
        unlock-row swap.user_id swap.source_token_id n before.ledger b
          (ap (λ (w : Ledger). w.balances swap.user_id swap.source_token_id) ledger' ∙ held)
          enough in
      subst
        (λ r.
          let row = r.1.ledger.balances swap.user_id swap.source_token_id in
          (r.1.swaps swap.id ≡ some (failed_for error_thrown swap))
          × (available row ≡ b.available_balance + n)
          × (locked row + n ≡ b.locked_balance)
          × (r.1.bridged ≡ carried_by bridge (params_of job swap p) (suc last) s.bridged))
        (sym run)
        (ground arith, rw amount more, rw amount less, call-carries last before.bridged bridged')
