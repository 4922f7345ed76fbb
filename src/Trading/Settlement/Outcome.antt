-- ===== src/Trading/Settlement/Outcome.antt =====
-- How one attempt to settle a trade ends: executeSettlement of
-- marketBackend/src/services/settlementService.ts.
use omen_backend.Base.{
  Result, Bool-cases, inl, inr, catch, if◌then◌else◌, ℕ, ◌≡◌, refl, Option, none, some, ◌∷◌, find,
  update_where, ltb, ◌==◌, Action, Done, ok, err, app, catch-ok, ◌>>=◌, ◌>>◌, arith,
  sapphire_settlement_failed,
}
use omen_backend.Trading.Types.{SettlementStatus, settled, failed, Trade}
use omen_backend.Trading.Store.{
  State, TradingEvent, trade_settled, trade_settlement_failed, update_trade_settlement, publish,
}
use omen_backend.Trading.Settlement.{settle_on_chain, handle_settlement_failure, execute_settlement}

-- The trade's row has the status and the hash, and one event was published.
abbrev pub with_settlement : ℕ → SettlementStatus → Option ℕ → TradingEvent → Trade → State → State
with_settlement id status tx_hash event t s = record s {
  trades =
      update_where (λ (x : Trade). x.id == id)
        (λ _. record t { settlement_status = status; blockchain_tx_hash = tx_hash }) s.trades;
  events = event ∷ s.events;
}

writes :
    (id : ℕ) (status : SettlementStatus) (tx_hash : Option ℕ) (event : TradingEvent) (t : Trade)
    (s : State)
    → find (λ (x : Trade). x.id == id) s.trades ≡ some t
    → (update_trade_settlement id status tx_hash >> publish event) s
      ≡ (ok tt, with_settlement id status tx_hash event t s)
unfolding update_trade_settlement publish
writes id status tx_hash event t s row = ground (arith, row)

-- The result of an attempt, from the answer and the attempts made before.
abbrev pub outcome_of : Option (Option ℕ) → (made id : ℕ) → Trade → State → Result Done × State
outcome_of (some (some h)) made id t s =
    (ok tt, with_settlement id settled (some h) (trade_settled id h) t s)
outcome_of _ made id t s =
    if ltb made 5
    then (err (app 502 sapphire_settlement_failed), s)
    else (ok tt, with_settlement id failed none (trade_settlement_failed id) t s)

module _ (settle_trade : (trade_id pair_id : ℕ) → Option (Option ℕ)) (made id pair : ℕ) (t : Trade)
    (s : State) (row : find (λ (x : Trade). x.id == id) s.trades ≡ some t) where
  abbrev attempt : Option (Option ℕ) → Action State Done
  attempt answer = settle_on_chain answer >>= λ h.
      update_trade_settlement id settled (some h) >> publish (trade_settled id h)

  handles : handle_settlement_failure made id (app 502 sapphire_settlement_failed) s ≡ (
      if ltb made 5
      then (err (app 502 sapphire_settlement_failed), s)
      else (ok tt, with_settlement id failed none (trade_settlement_failed id) t s))
  unfolding handle_settlement_failure
  handles = elim (Bool-cases (ltb made 5)) [
    | inl e ↦ rw e refl
    | inr e ↦ rw e (writes id failed none (trade_settlement_failed id) t s row)
  ]

  attempts :
      (answer : Option (Option ℕ))
      → catch (attempt answer) (handle_settlement_failure made id) s ≡ outcome_of answer made id t s
  unfolding settle_on_chain
  attempts none = handles
  attempts (some none) = handles
  attempts (some (some h)) =
      catch-ok (attempt (some (some h))) (handle_settlement_failure made id) s
        (writes id settled (some h) (trade_settled id h) t s row)

  -- One attempt to settle a trade that exists, for every answer of Sapphire: with a hash it
  -- returns, and the trade is settled under the hash and announced; without one, for whatever
  -- reason, it throws sapphire_settlement_failed and changes nothing if fewer than 5 attempts were
  -- made before, and otherwise returns with the trade marked as failed and announced.
  pub execute_settlement-outcome :
      execute_settlement settle_trade made id pair s ≡ outcome_of (settle_trade id pair) made id t s
  unfolding execute_settlement
  execute_settlement-outcome = attempts (settle_trade id pair)
