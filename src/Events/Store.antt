-- ===== src/Events/Store.antt =====
-- The table `processed_events` beside the markets, with the queries on it
-- (marketBackend/src/infra/database/repositories/processedEventRepository.ts), and
-- MarketEventBroker.handleEntityPermissionDecision of
-- marketBackend/src/infra/eventBroker/marketEventBroker.ts. Source, payload and context of a
-- processed event are left out.
use omen_backend.Base.{
  ℕ, Bool, Option, none, some, is_some, Table, insert, Action, Done, gets, modify, zoom, or_throw,
  ◌>>=◌, ◌>>◌, foreign_key, invalid_uuid,
}
use omen_backend.Market.Types.{was_approved, was_rejected}
use omen_backend.Market.Store.{MarketState, find_market, publish_market_event}
use omen_backend.Market.Service.{Decision, approve, reject}

pub data ProcessingStatus : Type 0 where
  success failed skipped : ProcessingStatus

pub data ExternalEventType : Type 0 where
  market_approved market_rejected other_type : ExternalEventType

pub record ProcessedEvent : Type 0 where
  pub event_id : ℕ
  pub event_type : ExternalEventType
  pub processing_status : ProcessingStatus

pub record EventState : Type 0 where
  pub market : MarketState
  pub processed : Table ProcessedEvent

-- A call of the market service or its repositories.
abbrev pub on_market : {A : Type 0} → Action MarketState A → Action EventState A
on_market m = zoom (λ s. s.market) (λ w s. record s { market = w }) m

unfoldable pub is_event_processed : ℕ → Action EventState Bool
is_event_processed id = gets λ s. is_some (s.processed id)

-- INSERT … ON CONFLICT (event_id) DO UPDATE, which leaves the type of an old row.
abbrev pub upserted : ProcessedEvent → Option ProcessedEvent → ProcessedEvent
upserted new none = new
upserted new (some old) = record old { processing_status = new.processing_status }

unfoldable pub record_processed_event : ProcessedEvent → Action EventState Done
record_processed_event new = modify λ s. record s {
  processed = insert new.event_id (upserted new (s.processed new.event_id)) s.processed;
}

-- A missing actor is sent as 'system', which the column `actor_id` does not take.
unfoldable pub handle_entity_permission_decision :
    (market_id : ℕ) → Decision → (actor : Option ℕ) → Action MarketState Done
handle_entity_permission_decision id decision actor = do
  a ← or_throw actor invalid_uuid
  found ← find_market id
  or_throw found foreign_key
  publish_market_event id (elim decision [ approve ↦ was_approved | reject ↦ was_rejected ]) a
