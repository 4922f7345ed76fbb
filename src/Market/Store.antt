-- ===== src/Market/Store.antt =====
-- The tables of the markets with the queries on them
-- (marketBackend/src/infra/database/repositories/marketRepository.ts, marketAssetRepository.ts and
-- marketApprovalEventRepository.ts beside it), and the queue of the token deployments.
use omen_backend.Base.{
  ℕ, ◌+◌, Option, none, some, List, [], ◌∷◌, ◌++◌, Table, insert, Action, Done, ok, err, gets,
  modify, market_row_missing,
}
use omen_backend.Market.Types.{
  MarketStatus, draft, approved, rejected, Market, MarketEventType, MarketEvent,
}

-- A missing symbol is sent as 'RWA'.
pub record DeploymentJob : Type 0 where
  pub market_id : ℕ
  pub token_name : ℕ
  pub token_symbol : Option ℕ
  pub total_supply : ℕ
  pub actor_id : ℕ

pub record MarketState : Type 0 where
  pub markets : Table Market
  -- The markets that have asset details.
  pub assets : List ℕ
  pub events : List MarketEvent
  -- The jobs added to the deployment queue, the newest first.
  pub jobs : List DeploymentJob
  pub next_id : ℕ

pub record CreateMarketInput : Type 0 where
  pub name : ℕ
  pub owner_id : ℕ
  pub issuer_id : Option ℕ
  pub token_symbol : Option ℕ
  pub token_name : Option ℕ
  pub total_supply : Option ℕ

unfoldable pub create_market : CreateMarketInput → Action MarketState Market
create_market input s =
    let market : Market = record {
      id = s.next_id;
      name = input.name;
      owner_id = input.owner_id;
      issuer_id = input.issuer_id;
      status = draft;
      contract_address = none;
      deployment_tx_hash = none;
      token_symbol = input.token_symbol;
      token_name = input.token_name;
      total_supply = input.total_supply;
      approved_by = none;
      rejected_reason = none;
    } in
    (ok market, record s { markets = insert s.next_id market s.markets; next_id = s.next_id + 1 })

-- UPDATE markets … WHERE id = … RETURNING *; no row is an error.
unfoldable pub change_market : ℕ → (Market → Market) → Action MarketState Market
change_market id f s = elim (s.markets id) [
  | none ↦ (err market_row_missing, s)
  | some m ↦ (ok (f m), record s { markets = insert id (f m) s.markets })
]

unfoldable pub update_market_status : ℕ → MarketStatus → Action MarketState Market
update_market_status id status = change_market id λ m. record m { status = status }

unfoldable pub approve_market : ℕ → ℕ → Action MarketState Market
approve_market id approver =
    change_market id λ m. record m { status = approved; approved_by = some approver }

unfoldable pub reject_market : ℕ → Option ℕ → Action MarketState Market
reject_market id reason =
    change_market id λ m. record m { status = rejected; rejected_reason = reason }

unfoldable pub find_market : ℕ → Action MarketState (Option Market)
find_market id = gets λ s. s.markets id

unfoldable pub create_market_asset : ℕ → Action MarketState Done
create_market_asset id = modify λ s. record s { assets = s.assets ++ id ∷ [] }

-- `marketEventBroker.publishEvent`, for the types that the constraint valid_event_type lists.
unfoldable pub publish_market_event : ℕ → MarketEventType → ℕ → Action MarketState Done
publish_market_event id event_type actor = modify λ s. record s {
  events = s.events ++ record { market_id = id; event_type = event_type; actor_id = actor } ∷ [];
}

unfoldable pub add_deployment : DeploymentJob → Action MarketState Done
add_deployment job = modify λ s. record s { jobs = job ∷ s.jobs }
