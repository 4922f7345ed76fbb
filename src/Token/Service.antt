-- ===== src/Token/Service.antt =====
-- The class `TokenService` of marketBackend/src/services/tokenService.ts. Redis keeps what a call
-- wrote until the key expires (`expire_balance`); a failure of the connection is not modelled.
use omen_backend.Base.{
  ℕ, Bool, true, false, not, ◌&&◌, Option, none, some, List, ◌∷◌, ℤ, pos, ltb, ltb_ℤ, is_some, ◌==◌,
  if◌then◌else◌, select, insert, Action, Done, pure, gets, modify, throw_if, when, or_throw, ◌>>=◌,
  ◌>>◌, app, token_exists, token_not_found, insufficient_balance, kyc_required, not_whitelisted,
  compliance_expired,
}
use omen_backend.Token.Store.{
  Ledger, Token, TokenType, rwa, CreateTokenInput, UserBalance, ComplianceRecord, approved,
  TokenJob, mint, transfer, insert₂, find_token_by_id, find_token_by_symbol, create_token,
  find_user_balance, update_balance, lock_balance, unlock_balance, get_compliance_record,
  upsert_compliance_record,
}

cache_token : Token → Action Ledger Done
cache_token token = modify λ w. record w { token_cache = insert token.id token w.token_cache }

unfoldable pub cache_balance : UserBalance → Action Ledger Done
cache_balance b =
    modify λ w. record w { balance_cache = insert₂ b.user_id b.token_id b w.balance_cache }

-- The key `token:balance:<user>:<token>` runs out, or Redis evicts it.
unfoldable pub expire_balance : ℕ → ℕ → Ledger → Ledger
expire_balance u t w = record w {
  balance_cache = λ u' t'. if u' == u && t' == t then none else w.balance_cache u' t';
}

invalidate_user_session_cache : ℕ → Action Ledger Done
invalidate_user_session_cache u =
    modify λ w. record w { sessions = λ u'. if u' == u then false else w.sessions u' }

unfoldable pub create_new_token : CreateTokenInput → Action Ledger Token
unfolding find_token_by_symbol create_token cache_token
create_new_token input = do
  existing ← find_token_by_symbol input.token_symbol
  throw_if (is_some existing) (app 409 token_exists)
  token ← create_token input
  cache_token token
  pure token

abbrev remember_token : Option Token → Action Ledger (Option Token)
unfolding cache_token
remember_token none = pure none
remember_token (some token) = do cache_token token; pure (some token)

unfoldable pub get_token : ℕ → Action Ledger (Option Token)
unfolding find_token_by_id cache_token
get_token id = do
  cached ← gets (λ w. w.token_cache id)
  elim cached [ some token ↦ pure (some token) | none ↦ find_token_by_id id >>= remember_token ]

unfoldable pub get_token_by_symbol : ℕ → Action Ledger (Option Token)
unfolding find_token_by_symbol cache_token
get_token_by_symbol symbol = find_token_by_symbol symbol >>= remember_token

unfoldable pub list_tokens : Action Ledger (List Token)
list_tokens = gets λ w. select (λ (t : Token). t.is_active) w.tokens

abbrev pub is_rwa : TokenType → Bool
is_rwa rwa = true
is_rwa _ = false

abbrev pub is_approved : Option ComplianceRecord → Bool
is_approved none = false
is_approved (some c) = elim c.kyc_status [ approved ↦ true | _ ↦ false ]

abbrev pub is_whitelisted : Option ComplianceRecord → Bool
is_whitelisted none = false
is_whitelisted (some c) = c.whitelist_status

-- `compliance.expiryDate && new Date() > compliance.expiryDate`.
abbrev pub is_expired : ℕ → Option ComplianceRecord → Bool
is_expired now none = false
is_expired now (some c) = elim c.expiry_date [ none ↦ false | some date ↦ ltb date now ]

unfoldable pub verify_compliance : ℕ → ℕ → Action Ledger Done
unfolding get_compliance_record
verify_compliance u t = do
  compliance ← get_compliance_record u t
  throw_if (not (is_approved compliance)) (app 403 kyc_required)
  throw_if (not (is_whitelisted compliance)) (app 403 not_whitelisted)
  now ← gets (λ w. w.now)
  throw_if (is_expired now compliance) (app 403 compliance_expired)

unfoldable pub add_job : TokenJob → Action Ledger Done
add_job job = modify λ w. record w { jobs = job ∷ w.jobs }

unfoldable pub mint_token : (token_id user_id : ℕ) → ℤ → Action Ledger Done
unfolding find_token_by_id add_job
mint_token t u amount = do
  token ← (find_token_by_id t >>= λ found. or_throw found (app 404 token_not_found))
  when (is_rwa token.token_type) (verify_compliance u t)
  add_job (mint t u amount)

-- `!balance || BigInt(balance.availableBalance) < BigInt(amount)`.
abbrev pub is_short : Option UserBalance → ℤ → Bool
is_short none amount = true
is_short (some b) amount = ltb_ℤ (pos b.available_balance) amount

unfoldable pub process_transfer : (token_id from_user_id to_user_id : ℕ) → ℤ → Action Ledger Done
unfolding find_token_by_id find_user_balance add_job
process_transfer t from to amount = do
  token ← (find_token_by_id t >>= λ found. or_throw found (app 404 token_not_found))
  from_balance ← find_user_balance from t
  throw_if (is_short from_balance amount) (app 400 insufficient_balance)
  when (is_rwa token.token_type) (verify_compliance from t >> verify_compliance to t)
  add_job (transfer t from to amount)

abbrev remember_balance : Option UserBalance → Action Ledger (Option UserBalance)
unfolding cache_balance
remember_balance none = pure none
remember_balance (some b) = do cache_balance b; pure (some b)

-- The cached balance is taken before the row.
unfoldable pub get_user_balance : ℕ → ℕ → Action Ledger (Option UserBalance)
unfolding find_user_balance cache_balance
get_user_balance u t = do
  cached ← gets (λ w. w.balance_cache u t)
  elim cached [ some b ↦ pure (some b) | none ↦ find_user_balance u t >>= remember_balance ]

-- What the three writing methods do with the row that the repository returned.
unfoldable pub publish_balance : ℕ → UserBalance → Action Ledger UserBalance
unfolding cache_balance invalidate_user_session_cache
publish_balance u b = do cache_balance b; invalidate_user_session_cache u; pure b

unfoldable pub update_balance_internal : ℕ → ℕ → ℤ → ℤ → Action Ledger UserBalance
unfolding update_balance publish_balance
update_balance_internal u t available locked = do
  b ← update_balance u t available locked
  publish_balance u b

unfoldable pub lock_balance_for_order : ℕ → ℕ → ℤ → Action Ledger UserBalance
unfolding lock_balance publish_balance
lock_balance_for_order u t amount = do b ← lock_balance u t amount; publish_balance u b

unfoldable pub unlock_balance_from_order : ℕ → ℕ → ℤ → Action Ledger UserBalance
unfolding unlock_balance publish_balance
unlock_balance_from_order u t amount = do b ← unlock_balance u t amount; publish_balance u b

unfoldable pub update_compliance : ComplianceRecord → Action Ledger ComplianceRecord
unfolding upsert_compliance_record
update_compliance new = upsert_compliance_record new
