-- ===== src/Swap/Worker/Completed.antt =====
-- A run of a job in which the bridge answers, in marketBackend/src/services/swapService.ts: the
-- swap is settled, or the settlement throws after the bridge has carried the swap out.
use omen_backend.Base.{
  ℕ, ◌+◌, ◌≤◌, ◌<◌, ◌≡◌, ◌≢◌, ◌∙◌, refl, sym, subst, false, true, any, ◌==◌, Option, some, ◌∷◌, pos,
  leb, insert, Action, Done, ok, err, positive_balance, bind-ok, bind-err, catch-ok, catch-err,
  ◌>>◌, arith,
}
use omen_backend.Token.Store.{Ledger, Token, UserBalance}
use omen_backend.Swap.Types.{processing, queued, completed, SwapRecord, SwapJobPayload}
use omen_backend.Swap.Store.{
  SwapState, SwapTokensParams, on_ledger, mark_swap_processing, mark_swap_completed, change_swap,
  insert_swap_audit, swap_done, publish_swap_event, swap_completed,
}
use omen_backend.Swap.Service.{settle_swap_balances}
use omen_backend.Swap.Worker.{
  Bridge, confirmed, Prepared, params_of, swap_tokens, execute_swap, complete_swap, handle_failure,
  process_swap_job,
}
use omen_backend.Swap.Worker.Runs.{
  IsReady, with_status, started, requeued, reaches_bridge, handle-requeues,
}
use omen_backend.Swap.Worker.Balances.{IsSwapped, settle-IsSwapped, settle-refused}

-- A row after the bridge answered, and after the swap was completed.
abbrev pub bridged_row : ℕ × ℕ → SwapRecord → SwapRecord
bridged_row (sapphire_id, tx_hash) swap = record swap {
  status = processing;
  sapphire_swap_id = some sapphire_id;
  source_tx_hash = some tx_hash;
}

abbrev pub completed_row : ℕ × ℕ → SwapRecord → SwapRecord
completed_row (sapphire_id, tx_hash) swap = record swap {
  status = completed;
  sapphire_swap_id = some sapphire_id;
  source_tx_hash = some tx_hash;
  target_tx_hash = some tx_hash;
}

module _ (swap : SwapRecord) (params : SwapTokensParams) (receipt : ℕ × ℕ) (s : SwapState) where
  -- The state in which the balances are settled.
  abbrev pub answered : SwapState
  answered = record s {
    bridged = params ∷ s.bridged;
    swaps = insert swap.id (bridged_row receipt swap) s.swaps;
  }

  abbrev sent : SwapState
  sent = record s { bridged = params ∷ s.bridged }

  abbrev settle : Action Ledger Done
  settle =
      settle_swap_balances swap.user_id swap.source_token_id swap.target_token_id swap.source_amount
        swap.expected_target_amount

  -- The state after the swap was completed.
  abbrev pub settled_state : SwapState
  settled_state = record answered {
    ledger = (settle s.ledger).1;
    swaps = insert swap.id (completed_row receipt swap) answered.swaps;
    audit_log =
        record { user_id = swap.user_id; action = swap_done; resource_id = swap.id } ∷ s.audit_log;
    events =
        record { event_type = swap_completed; swap_id = swap.id; status = completed } ∷ s.events;
  }

module _ (bridge : Bridge) (swap : SwapRecord) (params : SwapTokensParams) (receipt : ℕ × ℕ)
    (s : SwapState) (answers : bridge s.bridged params ≡ confirmed receipt)
    (row : s.swaps swap.id ≡ some (with_status processing swap)) where
  send-goes : swap_tokens bridge params s ≡ (ok receipt, (sent swap params receipt s))
  unfolding swap_tokens
  send-goes = ground (arith, answers)

  mark-goes :
      mark_swap_processing swap.id (some receipt.0) (some receipt.1) (sent swap params receipt s)
      ≡ (ok (bridged_row receipt swap), (answered swap params receipt s))
  unfolding mark_swap_processing change_swap
  mark-goes = ground (arith, row)

  pub execute-reaches :
      execute_swap bridge swap params s
      ≡ complete_swap swap receipt.1 (answered swap params receipt s)
  unfolding execute_swap
  execute-reaches =
      let mark : ℕ × ℕ → Action SwapState SwapRecord =
        λ r. mark_swap_processing swap.id (some r.0) (some r.1) in
      bind-ok (swap_tokens bridge params) (λ r. mark r >> complete_swap swap r.1) s send-goes
      ∙ bind-ok (mark receipt) (λ _. complete_swap swap receipt.1) (sent swap params receipt s)
          mark-goes

  pub complete-goes :
      (settle swap params receipt s s.ledger).0 ≡ ok tt
      → complete_swap swap receipt.1 (answered swap params receipt s)
        ≡ (ok tt, (settled_state swap params receipt s))
  unfolding complete_swap mark_swap_completed change_swap insert_swap_audit publish_swap_event
  complete-goes h =
      let rest : Action SwapState Done =
        mark_swap_completed swap.id (some receipt.1) swap.expected_target_amount
        >> (insert_swap_audit swap.user_id swap_done swap.id
            >> publish_swap_event swap_completed swap.id completed) in
      let mid : SwapState = record (answered swap params receipt s) {
        ledger = (settle swap params receipt s s.ledger).1;
      } in
      bind-ok (on_ledger (settle swap params receipt s)) (λ _. rest)
        (answered swap params receipt s) {a = tt} {s' = mid} (λ i. (h i, mid))
      ∙ ground arith

  pub complete-refused :
      settle swap params receipt s s.ledger ≡ (err positive_balance, s.ledger)
      → complete_swap swap receipt.1 (answered swap params receipt s)
        ≡ (err positive_balance, (answered swap params receipt s))
  unfolding complete_swap
  complete-refused h =
      let rest : Action SwapState Done =
        mark_swap_completed swap.id (some receipt.1) swap.expected_target_amount
        >> (insert_swap_audit swap.user_id swap_done swap.id
            >> publish_swap_event swap_completed swap.id completed) in
      bind-err (on_ledger (settle swap params receipt s)) (λ _. rest)
        (answered swap params receipt s)
        (λ i. ((h i).0, record (answered swap params receipt s) { ledger = (h i).1 }))

-- What a completed job has done to a state.
abbrev pub IsCompleted :
    SwapRecord → SwapTokensParams → ℕ × ℕ → (n m : ℕ) → SwapState → SwapState → Type 0
IsCompleted swap params receipt n m s s' =
    (s'.swaps swap.id ≡ some (completed_row receipt swap))
    × (s'.bridged ≡ params ∷ s.bridged)
    × IsSwapped swap.user_id swap.source_token_id swap.target_token_id n m s.ledger s'.ledger

module _ (bridge : Bridge) (key : Option ℕ) (made attempts : ℕ) (job : SwapJobPayload)
    (swap : SwapRecord) (p : Prepared) (receipt : ℕ × ℕ) (n : ℕ) (s : SwapState) {b : UserBalance}
    (ready : IsReady key job swap p s) (paid : swap.source_amount ≡ pos n)
    (answers : bridge s.bridged (params_of job swap p) ≡ confirmed receipt)
    (held : s.ledger.balances swap.user_id swap.source_token_id ≡ some b) where
  settles_as :
      (m : ℕ)
      → swap.expected_target_amount ≡ pos m
      → (let (r, w') =
            settle_swap_balances swap.user_id swap.source_token_id swap.target_token_id
              (pos n)
              (pos m)
              s.ledger in
          (r ≡ ok tt)
          × IsSwapped swap.user_id swap.source_token_id swap.target_token_id n m s.ledger w')
      → let (r, w') =
          settle_swap_balances swap.user_id swap.source_token_id swap.target_token_id
            swap.source_amount swap.expected_target_amount s.ledger in
        (r ≡ ok tt)
        × IsSwapped swap.user_id swap.source_token_id swap.target_token_id n m s.ledger w'
  settles_as m expected h = rw (paid, expected) h

  refused_as :
      b.locked_balance < n
      → settle_swap_balances swap.user_id swap.source_token_id swap.target_token_id
          swap.source_amount swap.expected_target_amount s.ledger
        ≡ (err positive_balance, s.ledger)
  refused_as short =
      subst
        (λ x.
          settle_swap_balances swap.user_id swap.source_token_id swap.target_token_id x
            swap.expected_target_amount s.ledger
          ≡ (err positive_balance, s.ledger))
        (sym paid)
        (settle-refused swap.user_id swap.source_token_id swap.target_token_id n s.ledger held
          swap.expected_target_amount short)

  -- A job whose swap has what it needs returns if the bridge answers, the tokens differ, the target
  -- token is there, the source amount is still locked and the expected amount is 0 or more: the swap is COMPLETED with the ids
  -- of the bridge, which carried out one more swap, the source amount has left the locked part of
  -- the source, the expected amount is added to the available part of the target, and no other
  -- balance changed.
  pub job-completes :
      (m : ℕ)
      → swap.expected_target_amount ≡ pos m
      → swap.source_token_id ≢ swap.target_token_id
      → n ≤ b.locked_balance
      → any (λ (x : Token). x.id == swap.target_token_id) s.ledger.tokens ≡ true
      → let (r, s') = process_swap_job bridge key made attempts job s in
        (r ≡ ok tt) × IsCompleted swap (params_of job swap p) receipt n m s s'
  job-completes m expected ne funded known =
      let params = params_of job swap p in
      let at_bridge = started swap s in
      let row : at_bridge.swaps swap.id ≡ some (with_status processing swap) = ground arith in
      let settles =
        settle-IsSwapped swap.user_id swap.source_token_id swap.target_token_id n m s.ledger held ne
          funded known in
      let (paid_out, moved) = settles_as m expected settles in
      let run : process_swap_job bridge key made attempts job s
          ≡ (ok tt, settled_state swap params receipt at_bridge) =
        reaches_bridge bridge key made attempts job swap p s ready
        ∙ catch-ok (execute_swap bridge swap params) (handle_failure made attempts swap.id)
            at_bridge
            (execute-reaches bridge swap params receipt at_bridge answers row
              ∙ complete-goes bridge swap params receipt at_bridge answers row paid_out) in
      subst (λ x. (x.0 ≡ ok tt) × IsCompleted swap params receipt n m s x.1) (sym run)
        (refl, (ground arith, refl, moved))

  -- A swap that the bridge has carried out and whose source amount is no longer locked, because of
  -- which the settlement throws, waits in the queue for another attempt where one is left: it is
  -- QUEUED, no balance changed, the bridge has carried out one more swap, and the next attempt of
  -- the job again has what it needs to call the bridge.
  pub job-repeats :
      b.locked_balance < n
      → leb attempts (made + 1) ≡ false
      → let (r, s') = process_swap_job bridge key made attempts job s in
        (r ≡ err positive_balance)
        × IsReady key job (with_status queued (bridged_row receipt swap)) p s'
        × (s'.ledger ≡ s.ledger)
        × (s'.bridged ≡ params_of job swap p ∷ s.bridged)
  job-repeats short more =
      let params = params_of job swap p in
      let at_bridge = started swap s in
      let row : at_bridge.swaps swap.id ≡ some (with_status processing swap) = ground arith in
      let refused = refused_as short in
      let run : process_swap_job bridge key made attempts job s ≡ (
        err positive_balance,
        requeued (bridged_row receipt swap) (answered swap params receipt at_bridge),
      ) =
        reaches_bridge bridge key made attempts job swap p s ready
        ∙ catch-err (execute_swap bridge swap params) (handle_failure made attempts swap.id)
            at_bridge
            (execute-reaches bridge swap params receipt at_bridge answers row
              ∙ complete-refused bridge swap params receipt at_bridge answers row refused)
        ∙ handle-requeues made attempts (bridged_row receipt swap) positive_balance
            (answered swap params receipt at_bridge) (ground arith) more in
      subst
        (λ x.
          (x.0 ≡ err positive_balance)
          × IsReady key job (with_status queued (bridged_row receipt swap)) p x.1
          × (x.1.ledger ≡ s.ledger)
          × (x.1.bridged ≡ params ∷ s.bridged))
        (sym run)
        (
          refl,
          record {
            row = ground (arith, ready.keyed);
            keyed = ready.keyed;
            opened = refl;
            prepared = ready.prepared;
          },
          refl,
          refl,
        )
