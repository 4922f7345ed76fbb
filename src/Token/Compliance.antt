-- ===== src/Token/Compliance.antt =====
-- The compliance gate of marketBackend/src/services/tokenService.ts: TokenService.verifyCompliance,
-- TokenService.mintToken, TokenService.processTransfer and TokenService.createToken.
use omen_backend.Base.{
  ℕ, ◌≤◌, ◌≡◌, ◌↔◌, ◌&&◌, refl, inl, inr, true, Option, none, some, ◌∷◌, ℤ, pos, Result, ok, err,
  arith, is_some, Option-cases, ◌==◌, find, app, token_exists,
}
use omen_backend.Token.Store.{
  Ledger, Token, rwa, ComplianceRecord, approved, TokenJob, mint, transfer, sql_eq,
  CreateTokenInput,
}
use omen_backend.Token.Service.{verify_compliance, mint_token, process_transfer, create_new_token}
use omen_backend.Token.Balances.{available}

-- The record that the gate reads, and what it asks of it.
abbrev pub compliance_of : ℕ → ℕ → Ledger → Option ComplianceRecord
compliance_of u t w =
    find (λ (c : ComplianceRecord). c.user_id == u && sql_eq c.token_id (some t)) w.compliance

abbrev pub NotOver : ℕ → Option ℕ → Type 0
NotOver now none = Unit
NotOver now (some date) = now ≤ date

abbrev pub Grants : ℕ → Option ComplianceRecord → Type 0
Grants now none = ⊥
Grants now (some c) =
    (c.kyc_status ≡ approved) × (c.whitelist_status ≡ true) × NotOver now c.expiry_date

Grants-iff :
    (o : Option ComplianceRecord) (u t : ℕ) (w : Ledger)
    → compliance_of u t w ≡ o
    → ((verify_compliance u t w).0 ≡ ok tt) ↔ Grants w.now o
unfolding verify_compliance
Grants-iff none u t w e = ground arith
Grants-iff (some c) u t w e = elim (Option-cases c.expiry_date) [
  | inl never ↦ ground arith
  | inr (date, known) ↦ ground arith
]

-- The compliance check lets a user through exactly when the record of the user and the token is
-- approved, whitelisted, and not past its expiry date.
pub verify_compliance_iff :
    (u t : ℕ) (w : Ledger)
    → ((verify_compliance u t w).0 ≡ ok tt) ↔ Grants w.now (compliance_of u t w)
verify_compliance_iff u t w = Grants-iff _ u t w refl

pub verify_compliance-state : (u t : ℕ) (w : Ledger) → (verify_compliance u t w).1 ≡ w
unfolding verify_compliance
verify_compliance-state u t w = ground arith

-- What a call that only queues has done: it added one job, or threw and changed nothing.
abbrev pub Queues : Ledger → TokenJob → Result (Unit {0}) × Ledger → Type 0
Queues w job (ok _, w') = w' ≡ record w { jobs = job ∷ w.jobs }
Queues w job (err _, w') = w' ≡ w

pub mint_token-Queues :
    (t u : ℕ) (amount : ℤ) (w : Ledger) → Queues w (mint t u amount) (mint_token t u amount w)
unfolding mint_token
mint_token-Queues t u amount w = ground (arith, verify_compliance-state u t w)

-- A mint is queued for a user of a security token exactly when the gate opens for that user.
pub mint_token_iff :
    (t u : ℕ) (amount : ℤ) (w : Ledger) {token : Token}
    → find (λ (x : Token). x.id == t) w.tokens ≡ some token
    → token.token_type ≡ rwa
    → ((mint_token t u amount w).0 ≡ ok tt) ↔ Grants w.now (compliance_of u t w)
unfolding mint_token
mint_token_iff t u amount w e k =
    let v = verify_compliance_iff u t w in (λ h. v.0 (ground arith), λ g. ground (arith, v.1 g))

pub process_transfer-Queues :
    (t from to : ℕ) (amount : ℤ) (w : Ledger)
    → Queues w (transfer t from to amount) (process_transfer t from to amount w)
unfolding process_transfer
process_transfer-Queues t from to amount w =
    ground (arith, verify_compliance-state from t w, verify_compliance-state to t w)

-- A transfer of 0 or more of a security token that exists either returns, with its job added to
-- the queue and nothing else changed, or throws and changes nothing; and it returns exactly when
-- the sender has a balance with the amount available and the compliance check lets both users
-- through.
pub process_transfer_iff :
    (t from to n : ℕ) (w : Ledger) {token : Token}
    → find (λ (x : Token). x.id == t) w.tokens ≡ some token
    → token.token_type ≡ rwa
    → Queues w (transfer t from to (pos n)) (process_transfer t from to (pos n) w)
      × (((process_transfer t from to (pos n) w).0 ≡ ok tt) ↔ (
          (is_some (w.balances from t) ≡ true)
          × (n ≤ available (w.balances from t))
          × Grants w.now (compliance_of from t w)
          × Grants w.now (compliance_of to t w)))
unfolding process_transfer
process_transfer_iff t from to n w e k =
    let a = verify_compliance_iff from t w in
    let b = verify_compliance_iff to t w in
    let sa = verify_compliance-state from t w in
    (
      process_transfer-Queues t from to (pos n) w,
      (
        λ h. (ground arith, ground arith, a.0 (ground arith), b.0 (ground (arith, sa))),
        λ g. ground (arith, sa, a.1 g.2, b.1 g.3),
      ),
    )

-- `createToken` refuses a symbol that a token has, and leaves no symbol on two tokens.
pub create_new_token_refuses :
    (input : CreateTokenInput) (w : Ledger)
    → is_some (find (λ (x : Token). x.token_symbol == input.token_symbol) w.tokens) ≡ true
    → create_new_token input w ≡ (err (app 409 token_exists), w)
unfolding create_new_token
create_new_token_refuses input w h = ground arith
