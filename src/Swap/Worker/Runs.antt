-- ===== src/Swap/Worker/Runs.antt =====
-- One run of a job whose swap is open: the step to the bridge, and the two ways to fail, in
-- processSwapJob of marketBackend/src/services/swapService.ts.
use omen_backend.Base.{
  ℕ, ◌+◌, ◌≡◌, ◌∙◌, ap, refl, sym, subst, ◌⊎◌, inl, bind-ok, ◌>>◌, true, false, Option, none, some,
  ◌∷◌, inr, ◌==◌, find, leb, insert, Action, pure, Done, ok, err, Error, catch, arith,
}
use omen_backend.Token.Store.{Ledger, Token, find_token_by_id}
use omen_backend.Token.Service.{unlock_balance_from_order}
use omen_backend.Swap.Types.{
  FailureReason, SwapStatus, queued, processing, failed, error_thrown, SwapRecord, SwapJobPayload,
  is_open,
}
use omen_backend.Swap.Store.{
  SwapState, swap_processing, swap_queued, update_swap_status, mark_swap_failed, insert_swap_audit,
  swap_gave_up, swap_failed, on_ledger, find_swap_by_id, mark_swap_processing, change_swap,
  publish_swap_event,
}
use omen_backend.Swap.Service.{fail_swap}
use omen_backend.Swap.Worker.{
  Bridge, Prepared, prepare, params_of, execute_swap, handle_failure, process_swap_job,
  process_open, start_swap,
}

abbrev pub token_at : ℕ → Ledger → Option Token
token_at id w = find (λ (t : Token). t.id == id) w.tokens

-- A job whose swap stands under its own id, is open and has what a call of the bridge needs.
pub record IsReady (key : Option ℕ) (job : SwapJobPayload) (swap : SwapRecord) (p : Prepared)
    (s : SwapState) : Type 0 where
  pub row : s.swaps job.swap_id ≡ some swap
  pub keyed : swap.id ≡ job.swap_id
  pub opened : is_open swap.status ≡ true
  pub prepared :
      prepare (token_at swap.source_token_id s.ledger) (token_at swap.target_token_id s.ledger) key
      ≡ inr p

abbrev pub with_status : SwapStatus → SwapRecord → SwapRecord
with_status status swap = record swap { status = status }

-- The state in which the bridge is called.
abbrev pub started : SwapRecord → SwapState → SwapState
started swap s = record s {
  swaps = insert swap.id (with_status processing swap) s.swaps;
  events =
      record { event_type = swap_processing; swap_id = swap.id; status = processing } ∷ s.events;
}

module _ (bridge : Bridge) (key : Option ℕ) (attempts_made attempts : ℕ) (job : SwapJobPayload)
    (swap : SwapRecord) (p : Prepared) (s : SwapState) (ready : IsReady key job swap p s) where
  row_at_id : s.swaps swap.id ≡ some swap
  row_at_id = subst (λ i. s.swaps i ≡ some swap) (sym ready.keyed) ready.row

  opens :
      process_swap_job bridge key attempts_made attempts job s
      ≡ process_open bridge key attempts_made attempts job swap s
  unfolding process_swap_job find_swap_by_id
  opens = rw (ready.row, ready.opened) refl

  prepares :
      process_open bridge key attempts_made attempts job swap s
      ≡ start_swap bridge attempts_made attempts swap (params_of job swap p) s
  unfolding process_open find_token_by_id
  prepares = ap (λ c. run_prepared c s) ready.prepared
    where
      run_prepared : FailureReason ⊎ Prepared → Action SwapState Done
      run_prepared (inl reason) = fail_swap swap.id reason
      run_prepared (inr q) = start_swap bridge attempts_made attempts swap (params_of job swap q)

  starts :
      start_swap bridge attempts_made attempts swap (params_of job swap p) s
      ≡ catch
          (execute_swap bridge swap (params_of job swap p))
          (handle_failure attempts_made attempts swap.id)
          (started swap s)
  unfolding start_swap mark_swap_processing change_swap publish_swap_event
  starts =
      let first : Action SwapState SwapRecord = mark_swap_processing swap.id none none in
      let rest : Action SwapState Done =
        publish_swap_event swap_processing swap.id processing
        >> catch (execute_swap bridge swap (params_of job swap p))
            (handle_failure attempts_made attempts swap.id) in
      bind-ok first (λ _. rest) s {a = with_status processing swap}
        {s' = record s { swaps = insert swap.id (with_status processing swap) s.swaps }}
        (ground (arith, row_at_id))

  pub reaches_bridge :
      process_swap_job bridge key attempts_made attempts job s
      ≡ catch
          (execute_swap bridge swap (params_of job swap p))
          (handle_failure attempts_made attempts swap.id)
          (started swap s)
  reaches_bridge = opens ∙ prepares ∙ starts

-- The state after a failed run that is not the last one.
abbrev pub requeued : SwapRecord → SwapState → SwapState
requeued swap s = record s {
  swaps = insert swap.id (with_status queued swap) s.swaps;
  events = record { event_type = swap_queued; swap_id = swap.id; status = queued } ∷ s.events;
}

abbrev pub failed_for : FailureReason → SwapRecord → SwapRecord
failed_for reason swap = record swap { status = failed; failure_reason = some reason }

-- The state after a swap was given up.
abbrev pub gave_up : FailureReason → SwapRecord → SwapState → SwapState
gave_up reason swap s = record s {
  ledger =
      (unlock_balance_from_order swap.user_id swap.source_token_id swap.source_amount s.ledger).1;
  swaps = insert swap.id (failed_for reason swap) s.swaps;
  audit_log =
      record { user_id = swap.user_id; action = swap_gave_up; resource_id = swap.id } ∷ s.audit_log;
  events = record { event_type = swap_failed; swap_id = swap.id; status = failed } ∷ s.events;
}

-- A run of `try` whose error is swallowed.
swallowed :
    {A : Type 0} (m : Action Ledger A) (s : SwapState)
    → catch (on_ledger m >> pure tt) (λ _. pure tt) s
      ≡ (ok tt, record s { ledger = (m s.ledger).1 })
swallowed m s = ground arith

pub fail_swap_lem :
    (swap : SwapRecord) (reason : FailureReason) (s : SwapState)
    → s.swaps swap.id ≡ some swap
    → fail_swap swap.id reason s ≡ (ok tt, gave_up reason swap s)
unfolding fail_swap mark_swap_failed change_swap insert_swap_audit publish_swap_event
fail_swap_lem swap reason s e =
    let unlock : Action SwapState Done =
      catch
        (on_ledger (unlock_balance_from_order swap.user_id swap.source_token_id swap.source_amount)
          >> pure tt)
        (λ _. pure tt) in
    let rest : Action SwapState Done =
      insert_swap_audit swap.user_id swap_gave_up swap.id
      >> publish_swap_event swap_failed swap.id failed in
    let unlock_of : SwapRecord → Action SwapState Done = λ r.
      catch
        (on_ledger (unlock_balance_from_order r.user_id r.source_token_id r.source_amount)
          >> pure tt)
        (λ _. pure tt)
      >> (insert_swap_audit r.user_id swap_gave_up r.id
          >> publish_swap_event swap_failed r.id failed) in
    let mid : SwapState = record s { swaps = insert swap.id (failed_for reason swap) s.swaps } in
    bind-ok (mark_swap_failed swap.id reason) unlock_of s {a = failed_for reason swap} {s' = mid}
      (ground (arith, e))
    ∙ bind-ok unlock (λ _. rest) mid
        (swallowed (unlock_balance_from_order swap.user_id swap.source_token_id swap.source_amount)
          mid)

-- The body of `catch`, where another attempt is left and where none is.
pub handle-requeues :
    (made attempts : ℕ) (swap : SwapRecord) (e : Error) (s : SwapState)
    → s.swaps swap.id ≡ some swap
    → leb attempts (made + 1) ≡ false
    → handle_failure made attempts swap.id e s ≡ (err e, requeued swap s)
unfolding handle_failure update_swap_status change_swap publish_swap_event
handle-requeues made attempts swap e s row more = ground (arith, row, more)

pub handle-gives_up :
    (made attempts : ℕ) (swap : SwapRecord) (e : Error) (s : SwapState)
    → s.swaps swap.id ≡ some swap
    → leb attempts (made + 1) ≡ true
    → handle_failure made attempts swap.id e s ≡ (err e, gave_up error_thrown swap s)
unfolding handle_failure
handle-gives_up made attempts swap e s row last =
    ground (arith, last, fail_swap_lem swap error_thrown s row)
