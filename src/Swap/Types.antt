-- ===== src/Swap/Types.antt =====
-- The types of marketBackend/src/types/swap.ts. Amounts are the integers that the decimal strings
-- hold; chains, addresses and hashes are numbers, which are only compared; metadata and timestamps
-- but the expiry of a quote are left out.
use omen_backend.Base.{ℕ, Bool, true, false, Option, ℤ}

pub data SwapStatus : Type 0 where
  pending queued processing completed failed cancelled : SwapStatus

-- The rate in ten-thousandths.
pub record SwapQuote : Type 0 where
  pub source_token_id : ℕ
  pub target_token_id : ℕ
  pub source_amount : ℤ
  pub expected_target_amount : ℤ
  pub rate : ℕ
  pub expires_at : ℕ
  pub platform_fee : ℤ
  pub bridge_fee : ℤ
  pub network_fee : ℤ
  pub total_fee : ℤ

pub record CreateSwapInput : Type 0 where
  pub user_id : ℕ
  pub source_token_id : ℕ
  pub target_token_id : ℕ
  pub source_chain : ℕ
  pub target_chain : ℕ
  pub source_amount : ℤ
  pub min_target_amount : Option ℤ
  pub destination_address : ℕ
  pub bridge_contract_address : ℕ
  pub quote : Option SwapQuote

-- Why a swap failed: the three messages of processSwapJob, or the error that it caught.
pub data FailureReason : Type 0 where
  token_no_longer_available contract_address_missing signer_key_missing error_thrown : FailureReason

pub record SwapRecord : Type 0 where
  pub id : ℕ
  pub user_id : ℕ
  pub source_token_id : ℕ
  pub target_token_id : ℕ
  pub source_chain : ℕ
  pub target_chain : ℕ
  pub source_amount : ℤ
  pub expected_target_amount : ℤ
  pub destination_address : ℕ
  pub bridge_contract_address : ℕ
  pub status : SwapStatus
  pub sapphire_swap_id : Option ℕ
  pub source_tx_hash : Option ℕ
  pub target_tx_hash : Option ℕ
  pub failure_reason : Option FailureReason

pub record SwapJobPayload : Type 0 where
  pub swap_id : ℕ
  pub user_id : ℕ
  pub source_token_id : ℕ
  pub target_token_id : ℕ
  pub source_chain : ℕ
  pub target_chain : ℕ
  pub source_amount : ℤ
  pub min_target_amount : Option ℤ
  pub destination_address : ℕ
  pub bridge_contract_address : ℕ

-- `['PENDING', 'QUEUED', 'PROCESSING'].includes(status)`.
abbrev pub is_open : SwapStatus → Bool
is_open pending = true
is_open queued = true
is_open processing = true
is_open _ = false
