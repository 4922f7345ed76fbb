-- ===== src/Token/Store.antt =====
-- The tables `tokens`, `user_balances` and `compliance_records` with the queries on them
-- (marketBackend/src/infra/database/repositories/tokenRepository.ts, and the constraints of
-- marketBackend/src/infra/database/migrations/002_tokenized_assets.ts), and what the token service
-- keeps in Redis. Ids are numbers, which are only compared; metadata and timestamps are left out.
use omen_backend.Base.{
  ok, err, ℕ, ◌+◌, Bool, true, false, ◌&&◌, Option, none, some, List, [], ◌∷◌, ◌++◌, ℤ, pos, ◌+ℤ◌,
  ◌-ℤ◌, leb_ℤ, ◌==◌, if◌then◌else◌, find, any, update_where, Table, Action, gets,
  insufficient_to_lock, insufficient_to_unlock, positive_balance, unique_symbol, foreign_key,
  is_some, ◌||◌,
}

pub data TokenType : Type 0 where
  rwa crypto stable : TokenType

pub record Token : Type 0 where
  pub id : ℕ
  pub token_symbol : ℕ
  pub token_type : TokenType
  pub contract_address : Option ℕ
  pub blockchain : ℕ
  pub decimals : ℕ
  pub total_supply : Option ℕ
  pub is_active : Bool

pub record CreateTokenInput : Type 0 where
  pub token_symbol : ℕ
  pub token_type : TokenType
  pub contract_address : Option ℕ
  pub blockchain : ℕ
  pub decimals : Option ℕ
  pub total_supply : Option ℕ

-- A row of `user_balances`; its CHECK constraint keeps both amounts at 0 or more.
pub record UserBalance : Type 0 where
  pub user_id : ℕ
  pub token_id : ℕ
  pub available_balance : ℕ
  pub locked_balance : ℕ

pub data KycStatus : Type 0 where
  pending approved rejected expired : KycStatus

-- `token_id` is NULL in a record for the user as a whole.
pub record ComplianceRecord : Type 0 where
  pub user_id : ℕ
  pub token_id : Option ℕ
  pub kyc_status : KycStatus
  pub whitelist_status : Bool
  pub expiry_date : Option ℕ

pub data TokenJob : Type 0 where
  mint : (token_id user_id : ℕ) (amount : ℤ) → TokenJob
  transfer : (token_id from_user_id to_user_id : ℕ) (amount : ℤ) → TokenJob

pub record Ledger : Type 0 where
  pub tokens : List Token
  pub balances : ℕ → Table UserBalance
  pub compliance : List ComplianceRecord
  -- The Redis keys `token:balance:<user>:<token>`, `token:metadata:<token>`, `user:session:<user>`.
  pub balance_cache : ℕ → Table UserBalance
  pub token_cache : Table Token
  pub sessions : ℕ → Bool
  -- The jobs added to the mint and transfer queues, the newest first.
  pub jobs : List TokenJob
  -- The clock, and the next fresh id.
  pub now : ℕ
  pub next_id : ℕ

-- A table with a compound key.
abbrev pub insert₂ : {A : Type 0} → ℕ → ℕ → A → (ℕ → Table A) → ℕ → Table A
insert₂ u t v table u' t' =
    if u' == u then (if t' == t then some v else table u' t') else table u' t'

unfoldable pub find_token_by_id : ℕ → Action Ledger (Option Token)
find_token_by_id id = gets λ w. find (λ (t : Token). t.id == id) w.tokens

unfoldable pub find_token_by_symbol : ℕ → Action Ledger (Option Token)
find_token_by_symbol symbol = gets λ w. find (λ (t : Token). t.token_symbol == symbol) w.tokens

-- `input.decimals || 18`: 0 is taken for a missing number.
abbrev pub decimals_or_18 : Option ℕ → ℕ
decimals_or_18 none = 18
decimals_or_18 (some n) = if n == 0 then 18 else n

-- INSERT under the constraint UNIQUE on the symbol.
unfoldable pub create_token : CreateTokenInput → Action Ledger Token
create_token input w =
    let token : Token = record {
      id = w.next_id;
      token_symbol = input.token_symbol;
      token_type = input.token_type;
      contract_address = input.contract_address;
      blockchain = input.blockchain;
      decimals = decimals_or_18 input.decimals;
      total_supply = input.total_supply;
      is_active = true;
    } in
    if any (λ (t : Token). t.token_symbol == input.token_symbol) w.tokens
    then (err unique_symbol, w)
    else (ok token, record w { tokens = w.tokens ++ token ∷ []; next_id = w.next_id + 1 })

unfoldable pub find_user_balance : ℕ → ℕ → Action Ledger (Option UserBalance)
find_user_balance u t = gets λ w. w.balances u t

-- Whether a row can be written: an UPDATE, or an INSERT of a token that there is.
abbrev pub can_write : ℕ → ℕ → Ledger → Bool
can_write u t w = is_some (w.balances u t) || any (λ (x : Token). x.id == t) w.tokens

-- A row written under the constraint `positive_balance` and the foreign key of the token.
unfoldable pub write_balance : ℕ → ℕ → ℤ → ℤ → Action Ledger UserBalance
write_balance u t (pos a) (pos l) w =
    let row : UserBalance = record {
      user_id = u;
      token_id = t;
      available_balance = a;
      locked_balance = l;
    } in
    if can_write u t w
    then (ok row, record w { balances = insert₂ u t row w.balances })
    else (err foreign_key, w)
write_balance u t a l w = (err positive_balance, w)

-- INSERT … ON CONFLICT … DO UPDATE.
unfoldable pub update_balance : ℕ → ℕ → ℤ → ℤ → Action Ledger UserBalance
unfolding write_balance
update_balance u t available locked = write_balance u t available locked

-- UPDATE … WHERE available_balance >= amount; no row is an error.
unfoldable pub lock_balance : ℕ → ℕ → ℤ → Action Ledger UserBalance
unfolding write_balance
lock_balance u t amount w = elim (w.balances u t) [
  | none ↦ (err insufficient_to_lock, w)
  | some row ↦
      if leb_ℤ amount (pos row.available_balance)
      then write_balance u t (pos row.available_balance -ℤ amount)
          (pos row.locked_balance +ℤ amount) w
      else (err insufficient_to_lock, w)
]

-- UPDATE … WHERE locked_balance >= amount; no row is an error.
unfoldable pub unlock_balance : ℕ → ℕ → ℤ → Action Ledger UserBalance
unfolding write_balance
unlock_balance u t amount w = elim (w.balances u t) [
  | none ↦ (err insufficient_to_unlock, w)
  | some row ↦
      if leb_ℤ amount (pos row.locked_balance)
      then write_balance u t (pos row.available_balance +ℤ amount)
          (pos row.locked_balance -ℤ amount) w
      else (err insufficient_to_unlock, w)
]

-- Equality of nullable ids as SQL has it: NULL equals nothing.
abbrev pub sql_eq : Option ℕ → Option ℕ → Bool
sql_eq (some a) (some b) = a == b
sql_eq _ _ = false

-- `tokenId` is given by every caller.
unfoldable pub get_compliance_record : ℕ → ℕ → Action Ledger (Option ComplianceRecord)
get_compliance_record u t =
    gets λ w.
      find (λ (c : ComplianceRecord). c.user_id == u && sql_eq c.token_id (some t)) w.compliance

-- Whether the token that a row refers to is there, where NULL refers to none.
abbrev refers : Option ℕ → Ledger → Bool
refers none w = true
refers (some t) w = any (λ (x : Token). x.id == t) w.tokens

-- INSERT … ON CONFLICT (user_id, token_id) DO UPDATE, where NULL conflicts with nothing, under the
-- foreign key of the token.
unfoldable pub upsert_compliance_record : ComplianceRecord → Action Ledger ComplianceRecord
upsert_compliance_record new w =
    let same : ComplianceRecord → Bool =
      λ c. c.user_id == new.user_id && sql_eq c.token_id new.token_id in
    if refers new.token_id w
    then (
      ok new,
      record w {
        compliance =
            if any same w.compliance
            then update_where same (λ _. new) w.compliance
            else w.compliance ++ new ∷ [];
      },
    )
    else (err foreign_key, w)
