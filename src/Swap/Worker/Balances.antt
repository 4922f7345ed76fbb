-- ===== src/Swap/Worker/Balances.antt =====
-- `SwapService.settleBalances` of marketBackend/src/services/swapService.ts.
use omen_backend.Base.{
  true, any, ◌==◌, ℕ, ◌+◌, ◌≤◌, ◌<◌, ◌≡◌, ◌≢◌, ◌⊎◌, inl, inr, ap, ◌∙◌, subst, sym, some, ℤ, pos, ok,
  err, positive_balance, bind-ok, bind-err, arith,
}
use omen_backend.Token.Store.{Ledger, Token, UserBalance, find_user_balance}
use omen_backend.Token.Service.{update_balance_internal}
use omen_backend.Token.Balances.{available, locked}
use omen_backend.Swap.Service.{take_source, credit_target, settle_swap_balances}

-- What a settled swap does to the balances of its user: `n` leaves the locked part of the source,
-- `m` is added to the available part of the target, and every other row stays.
abbrev pub IsSwapped : (u source target n m : ℕ) → Ledger → Ledger → Type 0
IsSwapped u source target n m w w' =
    (available (w'.balances u source) ≡ available (w.balances u source))
    × (locked (w'.balances u source) + n ≡ locked (w.balances u source))
    × (available (w'.balances u target) ≡ available (w.balances u target) + m)
    × (locked (w'.balances u target) ≡ locked (w.balances u target))
    × ((u' t' : ℕ)
        → (u' ≢ u) ⊎ ((t' ≢ source) × (t' ≢ target))
        → w'.balances u' t' ≡ w.balances u' t')

module _ (u t n : ℕ) (w : Ledger) {b : UserBalance} (held : w.balances u t ≡ some b) where
  take-goes :
      n ≤ b.locked_balance
      → let s' = (take_source u t (pos n) w).1 in
        ((take_source u t (pos n) w).0 ≡ ok tt)
        × (available (s'.balances u t) ≡ b.available_balance)
        × (locked (s'.balances u t) + n ≡ b.locked_balance)
        × ((u' t' : ℕ) → (u' ≢ u) ⊎ (t' ≢ t) → s'.balances u' t' ≡ w.balances u' t')
        × (s'.tokens ≡ w.tokens)
  unfolding take_source find_user_balance update_balance_internal
  take-goes h = ground (arith, held, h)

  take-refused : b.locked_balance < n → take_source u t (pos n) w ≡ (err positive_balance, w)
  unfolding take_source find_user_balance update_balance_internal
  take-refused h = ground (arith, held, h)

credit-goes :
    (u t m : ℕ) (w : Ledger)
    → any (λ (x : Token). x.id == t) w.tokens ≡ true
    → let s' = (credit_target u t (pos m) w).1 in
      ((credit_target u t (pos m) w).0 ≡ ok tt)
      × (available (s'.balances u t) ≡ available (w.balances u t) + m)
      × (locked (s'.balances u t) ≡ locked (w.balances u t))
      × ((u' t' : ℕ) → (u' ≢ u) ⊎ (t' ≢ t) → s'.balances u' t' ≡ w.balances u' t')
unfolding credit_target find_user_balance update_balance_internal
credit-goes u t m w known = ground (arith, known)

module _ (u source target n m : ℕ) (w : Ledger) {b : UserBalance}
    (held : w.balances u source ≡ some b) where
  pub settle-IsSwapped :
      source ≢ target
      → n ≤ b.locked_balance
      → any (λ (x : Token). x.id == target) w.tokens ≡ true
      → let (r, w') = settle_swap_balances u source target (pos n) (pos m) w in
        (r ≡ ok tt) × IsSwapped u source target n m w w'
  unfolding settle_swap_balances
  settle-IsSwapped ne h known =
      let (r1, a1, l1, others1, same) = take-goes u source n w held h in
      let mid = (take_source u source (pos n) w).1 in
      let (r2, a2, l2, others2) = credit-goes u target m mid (rw same known) in
      let kept_source = others2 u source (inr ne) in
      let kept_target = others1 u target (inr λ e. ne (sym e)) in
      subst (λ x. (x.0 ≡ ok tt) × IsSwapped u source target n m w x.1)
        (sym (
          bind-ok (take_source u source (pos n)) (λ _. credit_target u target (pos m)) w {a = tt}
            {s' = mid} (λ i. (r1 i, mid))))
        (
          r2,
          (
            cc (kept_source, a1, held),
            omega (arith, ap locked kept_source, l1, ap locked held),
            omega (arith, a2, ap available kept_target),
            cc (l2, kept_target),
            λ u' t' other. elim other [
              | inl e ↦ others2 u' t' (inl e) ∙ others1 u' t' (inl e)
              | inr (e, e') ↦ others2 u' t' (inr e') ∙ others1 u' t' (inr e)
            ],
          ),
        )

module _ (u source target n : ℕ) (w : Ledger) {b : UserBalance}
    (held : w.balances u source ≡ some b) where
  pub settle-refused :
      (expected : ℤ)
      → b.locked_balance < n
      → settle_swap_balances u source target (pos n) expected w ≡ (err positive_balance, w)
  unfolding settle_swap_balances
  settle-refused expected h =
      bind-err (take_source u source (pos n)) (λ _. credit_target u target expected) w
        (take-refused u source n w held h)
