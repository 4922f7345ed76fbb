-- ===== src/Trading/Settlement.antt =====
-- The class `SettlementService` of marketBackend/src/services/settlementService.ts, which
-- marketBackend/src/infra/queue/settlementWorkerHandler.ts calls for each job. The answers of the
-- Sapphire RPC client are parameters: a hash, which may be missing, or it throws (`none`).
pub mod Outcome
use omen_backend.Base.{
  ℕ, Bool, true, false, Option, none, some, List, [], ◌∷◌, ltb, if◌then◌else◌, Table, insert,
  Action, Done, Error, app, pure, throw, or_throw, catch, ◌>>=◌, ◌>>◌, external,
  sapphire_settlement_error, sapphire_settlement_failed,
}
use omen_backend.Trading.Types.{settled, failed}
use omen_backend.Trading.Store.{
  State, trade_settled, trade_settlement_failed, update_trade_settlement, publish,
}

-- A missing hash is refused, and every error is replaced by one.
unfoldable pub settle_on_chain : Option (Option ℕ) → Action State ℕ
settle_on_chain answer =
    catch
      (do result ← or_throw answer external; or_throw result (app 502 sapphire_settlement_error))
      λ _. throw (app 502 sapphire_settlement_failed)

unfoldable pub handle_settlement_failure : (attempts_made trade_id : ℕ) → Error → Action State Done
handle_settlement_failure attempts_made trade_id error =
    if ltb attempts_made 5
    then throw error
    else (update_trade_settlement trade_id failed none
        >> publish (trade_settlement_failed trade_id))

unfoldable pub execute_settlement :
    (settle_trade : (trade_id pair_id : ℕ) → Option (Option ℕ))
    → (attempts_made trade_id pair_id : ℕ) → Action State Done
execute_settlement settle_trade attempts_made trade_id pair_id =
    catch
      (do
        tx_hash ← settle_on_chain (settle_trade trade_id pair_id)
        update_trade_settlement trade_id settled (some tx_hash)
        publish (trade_settled trade_id tx_hash))
      (handle_settlement_failure attempts_made trade_id)

-- An error of the client is only logged.
abbrev pub verify_settlement : (confirmed : Option Bool) → Bool
verify_settlement none = false
verify_settlement (some confirmed) = confirmed

-- The loop of batchSettleTrades, which fills the map of the settled trades.
unfoldable pub settle_each : List (ℕ × ℕ) → Table ℕ → Action State (Table ℕ)
settle_each [] settlements = pure settlements
settle_each (x ∷ xs) settlements = do
  update_trade_settlement x.0 settled (some x.1)
  publish (trade_settled x.0 x.1)
  settle_each xs (insert x.0 x.1 settlements)

unfoldable pub batch_settle_trades : Option (List (ℕ × ℕ)) → Action State (Table ℕ)
batch_settle_trades answer = do
  settlements ← or_throw answer external
  settle_each settlements (λ _. none)
