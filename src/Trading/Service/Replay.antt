-- ===== src/Trading/Service/Replay.antt =====
-- The nonces of submitOrder in marketBackend/src/services/tradingService.ts.
use omen_backend.Trading.Service.{Verifier}
use omen_backend.Base.{ℕ, ◌≡◌, Option, some, ◌≤◌, Bool}
use omen_backend.Base.Keeps.{Keeps}
use omen_backend.Trading.Types.{OrderStatus, CreateOrderInput}
use omen_backend.Trading.Store.{State}
use omen_backend.Trading.Service.{mark_nonce_as_used, submit_order}

-- The used nonces are the given ones.
abbrev HasNonces : (ℕ → ℕ → Option ℕ) → State → Type 0
HasNonces used s = s.used_nonces ≡ used

-- The nonces after the marking of one.
abbrev marked : CreateOrderInput → State → ℕ → ℕ → Option ℕ
marked input s = (mark_nonce_as_used input.user_address input.nonce s).1.used_nonces

-- A nonce whose key is there until the given time at least.
abbrev pub IsHeld : ℕ → ℕ → ℕ → (ℕ → ℕ → Option ℕ) → Type 0
IsHeld a n until nonces = (end : ℕ) × (nonces a n ≡ some end) × (until ≤ end)

-- What can happen between two submissions: other submissions, and steps that write no nonce, the
-- passing of time among them.
pub data Later (s : State) : State → Type 0 where
  at_once : Later s s
  submits :
      {s' : State} (allowed : OrderStatus → Bool) (signed : Verifier) (input : CreateOrderInput)
      → Later s s'
      → Later s (submit_order allowed signed input s').1
  goes_on : {s' s'' : State} → s''.used_nonces ≡ s'.used_nonces → Later s s' → Later s s''
