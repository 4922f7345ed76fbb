-- ===== src/Trading/Service/Checks.antt =====
-- The checks of submitOrder in marketBackend/src/services/tradingService.ts: they change nothing.
use omen_backend.Base.{
  ℕ, ◌≡◌, refl, ap, ◌∙◌, Bool, true, false, not, Option, none, some, ℤ, Action, Done, ok, app,
  arith, compliance_failed, throw, bind-eq-ok, throw_if, throw_if-eq-ok, catch, order_too_small,
  order_too_large,
}
use omen_backend.Base.Keeps.{Keeps, keeps_rules}
use omen_backend.Token.Store.{find_token_by_id}
use omen_backend.Token.Service.{verify_compliance}
use omen_backend.Token.Compliance.{verify_compliance-state}
use omen_backend.Trading.Types.{TradingPair}
use omen_backend.Trading.Store.{State, on_ledger}
use omen_backend.Trading.Service.{
  compliance_of_pair, validate_rwa_compliance, validate_order_size, is_below, is_above,
}

pub size-eq-ok :
    (pair : TradingPair) (q : ℤ) (s s' : State)
    → validate_order_size pair q s ≡ (ok tt, s')
    → (is_below q pair.min_order_size ≡ false) × (is_above q pair.max_order_size ≡ false) × (s' ≡ s)
unfolding validate_order_size
size-eq-ok pair q s s' h =
    let above : Action State Done =
      throw_if (is_above q pair.max_order_size) (app 400 order_too_large) in
    let (_, s1, e1, h1) =
      bind-eq-ok (throw_if (is_below q pair.min_order_size) (app 400 order_too_small)) (λ _. above)
        s h in
    let (below, same) = throw_if-eq-ok _ _ s s1 e1 in
    let (above, same2) = throw_if-eq-ok _ _ s1 s' h1 in (below, above, same2 ∙ same)

pub not-not : {b : Bool} → not b ≡ false → b ≡ true
not-not h = ground arith

-- The state is the given one: a call that keeps this changes nothing.
module _ (old : State) where
  Keeps-gate :
      (u t : ℕ)
      → Keeps
          (λ s. s ≡ old)
          (catch (on_ledger (verify_compliance u t)) (λ e. throw (app 403 compliance_failed)))
  Keeps-gate u t = record {
    at = λ s h.
        let same : record s { ledger = (verify_compliance u t s.ledger).1 } ≡ s =
          ap (λ w. record s { ledger = w }) (verify_compliance-state u t s.ledger) in
        ground (arith, same, h);
  }

  Keeps-find_token : (id : ℕ) → Keeps (λ s. s ≡ old) (on_ledger (find_token_by_id id))
  unfolding find_token_by_id
  Keeps-find_token id = record { at = λ s h. h }

  Keeps-rwa :
      (market_id user : ℕ) (pair : TradingPair)
      → Keeps (λ s. s ≡ old) (validate_rwa_compliance market_id user pair)
  unfolding validate_rwa_compliance
  Keeps-rwa market_id user pair = search (keeps_rules, Keeps-find_token, Keeps-gate) depth 10

pub compliance-state :
    (user : ℕ) (pair : TradingPair) (s : State) → (compliance_of_pair user pair s).1 ≡ s
compliance-state user pair s = by_market pair.market_id refl
  where
    by_market : (m : Option ℕ) → pair.market_id ≡ m → (compliance_of_pair user pair s).1 ≡ s
    by_market none e = rw (e, compliance_of_pair) refl
    by_market (some id) e = rw (e, compliance_of_pair) ((Keeps-rwa s id user pair).at s refl)
