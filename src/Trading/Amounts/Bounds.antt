-- ===== src/Trading/Amounts/Bounds.antt =====
-- Rounding of calculateQuoteAmount and calculateFee (marketBackend/src/services/tradingService.ts
-- and marketBackend/src/infra/queue/matchingWorkerHandler.ts): what the fills of an order can cost
-- against what was locked for it.
use omen_backend.Base.{
  ℕ, ◌+◌, ◌-◌, ◌*◌, ◌/◌, ◌≤◌, ◌<◌, ◌≡◌, refl, List, [], ◌∷◌, pos, pos_part, ◌↔◌, All, arith,
}
use native.Mathlib.Nat.{add_assoc}
use omen_backend.Trading.Amounts.{wei, calculate_quote_amount, calculate_fee}

-- The quote amount and the fee of a quantity at a price, both 0 or more.
abbrev pub quote_of : ℕ → ℕ → ℕ
quote_of q p = q * p / wei

abbrev pub fee_of : ℕ → ℕ → ℕ
fee_of q p = q * p / wei * 25 / 10000

pub calculate_quote_amount-pos :
    (q p : ℕ) → calculate_quote_amount (pos q) (pos p) ≡ pos (quote_of q p)
unfolding calculate_quote_amount
calculate_quote_amount-pos q p = refl

pub calculate_fee-pos : (q p : ℕ) → calculate_fee (pos q) (pos p) ≡ pos (fee_of q p)
unfolding calculate_fee
calculate_fee-pos q p = refl

-- The fee is at most a four-hundredth of the quote amount, so the seller's proceeds cover it.
pub fee_of_bound : (q p : ℕ) → 400 * fee_of q p ≤ quote_of q p
fee_of_bound q p = omega arith

mul_mono : (q p l : ℕ) → p ≤ l → q * p ≤ q * l
mul_mono q p l h = grind arith

pub quote_of_mono : (q p l : ℕ) → p ≤ l → quote_of q p ≤ quote_of q l
quote_of_mono q p l h = omega (arith, mul_mono q p l h)

pub quote_of_split : (a b p : ℕ) → quote_of a p + quote_of b p ≤ quote_of (a + b) p
quote_of_split a b p = omega arith

-- A fill is a quantity at a price.
abbrev pub quantities : List (ℕ × ℕ) → ℕ
quantities [] = 0
quantities ((q, p) ∷ fs) = q + quantities fs

abbrev pub cost : List (ℕ × ℕ) → ℕ
cost [] = 0
cost ((q, p) ∷ fs) = pos_part (calculate_quote_amount (pos q) (pos p)) + cost fs

fill_step :
    (q p limit rest c d : ℕ)
    → p ≤ limit
    → c + d ≤ quote_of rest limit
    → quote_of q p + c + d ≤ quote_of (q + rest) limit
fill_step q p limit rest c d h k =
    omega (arith, quote_of_mono q p limit h, quote_of_split q rest limit)

-- What is locked for a buy order at its limit pays for any fills at prices within the limit, and
-- what is left of it pays for the quote amount that cancelling the rest of the order unlocks.
pub cost_within_lock :
    (limit rest : ℕ) (fills : List (ℕ × ℕ))
    → All (λ f. f.1 ≤ limit) fills
    → cost fills + pos_part (calculate_quote_amount (pos rest) (pos limit))
      ≤ pos_part (calculate_quote_amount (pos (quantities fills + rest)) (pos limit))
unfolding calculate_quote_amount
cost_within_lock limit rest [] h = omega arith
cost_within_lock limit rest ((q, p) ∷ fs) h =
    let more =
      fill_step q p limit (quantities fs + rest) (cost fs) (quote_of rest limit) h.0
        (cost_within_lock limit rest fs h.1) in
    rw (add_assoc q (quantities fs) rest) more

-- A buy order that is filled below its limit and then cancelled leaves the difference of the two
-- prices locked for good.
pub price_improvement_stays_locked :
    (limit price q rest : ℕ)
    → price ≤ limit
    → let lock = pos_part (calculate_quote_amount (pos (q + rest)) (pos limit)) in
      let paid = pos_part (calculate_quote_amount (pos q) (pos price)) in
      let unlocked = pos_part (calculate_quote_amount (pos rest) (pos limit)) in
      paid + unlocked + (pos_part (calculate_quote_amount (pos q) (pos limit)) - paid) ≤ lock
unfolding calculate_quote_amount
price_improvement_stays_locked limit price q rest h =
    omega (arith, quote_of_mono q price limit h, quote_of_split q rest limit)

-- The buyer's fee is computed in the quote token and charged in the base token: it is more than
-- the whole fill exactly when the quote amount is at least 400 times the quantity and one more.
pub buyer_fee_exceeds_iff :
    (q price : ℕ)
    → (q < pos_part (calculate_fee (pos q) (pos price)))
      ↔ (400 * (q + 1) ≤ pos_part (calculate_quote_amount (pos q) (pos price)))
unfolding calculate_fee calculate_quote_amount
buyer_fee_exceeds_iff q price = (λ h. omega arith, λ h. omega arith)
