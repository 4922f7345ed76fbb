-- ===== src/Swap/Worker/Closed.antt =====
-- The swaps that are COMPLETED, FAILED or CANCELLED, under the requests and the jobs of
-- marketBackend/src/services/swapService.ts.
use omen_backend.Base.{
  ℕ, ◌<◌, ◌≤◌, ◌≡◌, ◌≢◌, leb, leb→le, inl, inr, ◌∙◌, refl, sym, subst, true, false, Option, none,
  some, arith, Bool-cases, Option-cases,
}
use omen_backend.Token.Store.{Ledger}
use omen_backend.Swap.Types.{CreateSwapInput, SwapRecord, SwapJobPayload, is_open}
use omen_backend.Swap.Store.{
  SwapState, SwapTokensParams, change_swap, find_swap_by_id, publish_swap_event, insert_swap_audit,
}
use omen_backend.Swap.Service.{request_swap}
use omen_backend.Swap.Service.Outcome.{record-goes}
use omen_backend.Swap.Worker.{Bridge, swap_tokens, process_swap_job}
use omen_backend.Swap.Worker.Local.{IsLocal, IsRecorded, Keeps-open, Keeps-request}

-- The row `r` stands under `id`, which has been handed out.
abbrev pub Stands : ℕ → SwapRecord → SwapState → Type 0
Stands id r s = (s.swaps id ≡ some r) × (id < s.next_id)

Stands-IsLocal : (id : ℕ) (r : SwapRecord) (j : ℕ) → j ≢ id → IsLocal (Stands id r) j
unfolding publish_swap_event insert_swap_audit swap_tokens change_swap
Stands-IsLocal id r j other = record {
  ledger = λ m. record { at = λ s h. h };
  publish = λ e i status. record { at = λ s h. h };
  audit = λ u a i. record { at = λ s h. h };
  send = λ bridge params. record { at = λ s h. ground (arith, h) };
  change = λ f same. record { at = λ s h. ground (arith, h, other) };
}

-- Every row stands under its own id, and the ids from `next_id` on are free.
abbrev pub IsStored : SwapState → Type 0
IsStored s =
    ((i : ℕ) (r : SwapRecord) → s.swaps i ≡ some r → r.id ≡ i)
    × ((i : ℕ) → s.next_id ≤ i → s.swaps i ≡ none)

send-rows :
    (bridge : Bridge) (params : SwapTokensParams) (s : SwapState)
    → ((swap_tokens bridge params s).1.swaps ≡ s.swaps)
      × ((swap_tokens bridge params s).1.next_id ≡ s.next_id)
unfolding swap_tokens
send-rows bridge params s = ground arith

change-IsStored :
    (j : ℕ) (f : SwapRecord → SwapRecord) (s : SwapState)
    → ((r : SwapRecord) → (f r).id ≡ r.id)
    → IsStored s
    → IsStored (change_swap j f s).1
unfolding change_swap
change-IsStored j f s same (keyed, fresh) = elim (Option-cases (s.swaps j)) [
  | inl e ↦ (λ i r h. ground (arith, e, h, keyed i r), λ i h. ground (arith, e, h, fresh i))
  | inr (x, e) ↦ (
    λ i r h. ground (arith, e, h, keyed i r, keyed j x e, same x),
    λ i h. ground (arith, e, h, fresh i),
  )
]

IsStored-IsLocal : (j : ℕ) → IsLocal IsStored j
unfolding publish_swap_event insert_swap_audit
IsStored-IsLocal j = record {
  ledger = λ m. record { at = λ s h. h };
  publish = λ e i status. record { at = λ s h. h };
  audit = λ u a i. record { at = λ s h. h };
  send = λ bridge params. record {
    at = λ s h. rw (send-rows bridge params s).0 (rw (send-rows bridge params s).1 h);
  };
  change = λ f same. record { at = λ s h. change-IsStored j f s same h };
}

module _ (bridge : Bridge) (key : Option ℕ) (made attempts : ℕ) (job : SwapJobPayload)
    (s : SwapState) where
  -- A property that the job keeps if its swap is open, and otherwise needs not.
  job-keeps :
      {P : SwapState → Type 0}
      → ((swap : SwapRecord)
          → s.swaps job.swap_id ≡ some swap
          → is_open swap.status ≡ true
          → IsLocal P swap.id)
      → P s
      → P (process_swap_job bridge key made attempts job s).1
  unfolding process_swap_job find_swap_by_id
  job-keeps {P} local h = found (s.swaps job.swap_id) refl
    where
      found :
          (o : Option SwapRecord)
          → s.swaps job.swap_id ≡ o
          → P (process_swap_job bridge key made attempts job s).1
      found none e = rw e h
      found (some swap) e = elim (Bool-cases (is_open swap.status)) [
        | inl opened ↦
            rw (e, opened)
              ((Keeps-open swap (local swap e opened) bridge key made attempts job).at s h)
        | inr shut ↦ rw (e, shut) h
      ]

  job-Stands :
      (id : ℕ) (r : SwapRecord)
      → IsStored s
      → is_open r.status ≡ false
      → Stands id r s
      → Stands id r (process_swap_job bridge key made attempts job s).1
  job-Stands id r (keyed, _) closed h =
      job-keeps
        (λ swap e opened. Stands-IsLocal id r swap.id λ same.
          let e' = subst (λ i. s.swaps i ≡ some swap) (sym (keyed job.swap_id swap e) ∙ same) e in
          ground (arith, e', h, opened, closed))
        h

Stands-IsRecorded : (id : ℕ) (r : SwapRecord) → IsRecorded (Stands id r)
Stands-IsRecorded id r = record {
  ledger = λ m. record { at = λ s h. h };
  recorded = λ input source target q. record {
    at = λ s h. rw (record-goes input source target q s) (ground (arith, h));
  };
}

IsStored-IsRecorded : IsRecorded IsStored
IsStored-IsRecorded = record {
  ledger = λ m. record { at = λ s h. h };
  recorded = λ input source target q. record {
    at = λ s (keyed, fresh).
        rw (record-goes input source target q s)
          (λ i r h. ground (arith, h, keyed i r), λ i h. ground (arith, h, fresh i));
  };
}

-- What happens to the swaps: requests, runs of jobs with any answer of the bridge, and whatever the
-- other services do to the balances.
pub data Step : SwapState → SwapState → Type 0 where
  request : (input : CreateSwapInput) (s : SwapState) → Step s (request_swap input s).1
  run :
      (bridge : Bridge) (key : Option ℕ) (made attempts : ℕ) (job : SwapJobPayload) (s : SwapState)
      → Step s (process_swap_job bridge key made attempts job s).1
  elsewhere : (w : Ledger) (s : SwapState) → Step s (record s { ledger = w })

pub data Reach (s : SwapState) : SwapState → Type 0 where
  here : Reach s s
  next : {s' s'' : SwapState} → Reach s s' → Step s' s'' → Reach s s''

Step-IsStored : {s s' : SwapState} → Step s s' → IsStored s → IsStored s'
Step-IsStored (request input s) h = (Keeps-request IsStored-IsRecorded input).at s h
Step-IsStored (run bridge key made attempts job s) h =
    job-keeps bridge key made attempts job s (λ swap e opened. IsStored-IsLocal swap.id) h
Step-IsStored (elsewhere w s) h = h

Step-Stands :
    {s s' : SwapState} (id : ℕ) (r : SwapRecord)
    → Step s s'
    → IsStored s
    → is_open r.status ≡ false
    → Stands id r s
    → Stands id r s'
Step-Stands id r (request input s) stored closed h =
    (Keeps-request (Stands-IsRecorded id r) input).at s h
Step-Stands id r (run bridge key made attempts job s) stored closed h =
    job-Stands bridge key made attempts job s id r stored closed h
Step-Stands id r (elsewhere w s) stored closed h = h

pub Reach-IsStored : {s s' : SwapState} → IsStored s → Reach s s' → IsStored s'
Reach-IsStored stored here = stored
Reach-IsStored stored (next reach step) = Step-IsStored step (Reach-IsStored stored reach)

-- Where every row stands under its own id and the other ids are free, a swap that is COMPLETED,
-- FAILED or CANCELLED keeps its row as it is, whatever requests, runs of jobs and changes of the
-- balances follow, in any order.
pub Reach-closed :
    {s s' : SwapState} (id : ℕ) (r : SwapRecord)
    → IsStored s
    → s.swaps id ≡ some r
    → is_open r.status ≡ false
    → Reach s s'
    → s'.swaps id ≡ some r
Reach-closed {s} id r stored e closed reach = (stands reach).0
  where
    stands : {s' : SwapState} → Reach s s' → Stands id r s'
    stands here = (
      e,
      elim (Bool-cases (leb s.next_id id)) [
        | inl h ↦ absurd (cc (e, stored.1 id (leb→le s.next_id id h)))
        | inr h ↦ ground (arith, h)
      ],
    )
    stands (next reach step) =
        Step-Stands id r step (Reach-IsStored stored reach) closed (stands reach)
