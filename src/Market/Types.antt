-- ===== src/Market/Types.antt =====
-- The types of marketBackend/src/types/market.ts. A name is a number, which is only
-- compared; dates, the kind of the asset and the metadata are left out.
use omen_backend.Base.{ℕ, Option}

pub data MarketStatus : Type 0 where
  draft pending_approval approved rejected activating active paused archived : MarketStatus

pub record Market : Type 0 where
  pub id : ℕ
  pub name : ℕ
  pub owner_id : ℕ
  pub issuer_id : Option ℕ
  pub status : MarketStatus
  pub contract_address : Option ℕ
  pub deployment_tx_hash : Option ℕ
  pub token_symbol : Option ℕ
  pub token_name : Option ℕ
  pub total_supply : Option ℕ
  pub approved_by : Option ℕ
  pub rejected_reason : Option ℕ

pub data MarketEventType : Type 0 where
  registered approval_requested was_approved was_rejected activation_started : MarketEventType
  activated was_paused was_archived : MarketEventType

pub record MarketEvent : Type 0 where
  pub market_id : ℕ
  pub event_type : MarketEventType
  pub actor_id : ℕ
