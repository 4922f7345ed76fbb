-- ===== src/Trading/Matching/Loop.antt =====
-- The loop of executeMatching in marketBackend/src/infra/queue/matchingWorkerHandler.ts: what it did
-- to the remaining quantity, and which trades it made.
use omen_backend.Base.{
  ℕ, zero, suc, ◌+◌, ◌-◌, ◌≤◌, ◌≡◌, refl, Bool, true, false, List, [], ◌∷◌, ℤ, pos, ◌-ℤ◌, Result,
  ok, err, Error, ◌⊎◌, inl, inr, Bool-cases, ◌∙◌, arith, All, length, ltb, if◌then◌else◌, ap,
}
use omen_backend.Trading.Types.{Order, OrderStatus, Trade, TradingPair}
use omen_backend.Trading.Store.{State}
use omen_backend.Trading.Worker.{can_match, execute_trade}
use omen_backend.Trading.Matching.{Progress, match_quantity, match_round, match_loop, after_trade}

abbrev pub sum : List ℕ → ℕ
sum [] = 0
sum (q ∷ qs) = q + sum qs

-- The constraint valid_quantities on a row.
abbrev pub IsOpen : Order → Type 0
IsOpen o = o.filled_quantity ≤ o.quantity

module _ (allowed : OrderStatus → Bool) (order : Order) (pair : TradingPair) where
  -- `q` is the smaller of `r` and what is unfilled of the maker.
  abbrev pub IsSmaller : ℕ → ℕ → Order → Type 0
  IsSmaller q r o =
      (q ≤ r)
      × (q + o.filled_quantity ≤ o.quantity)
      × ((q ≡ r) ⊎ (q + o.filled_quantity ≡ o.quantity))

  -- The trades that the loop made with the makers `os`, one after the other: `r` is what remained
  -- before, `r'` after. A maker that the order cannot match is left out; any other is tried for the
  -- smaller of what remained of both, and a trade that threw counts for nothing. Only when nothing
  -- remains are the other makers left alone.
  pub data Fills : List Order → ℕ → State → List ℕ → ℕ → State → Type 0 where
    exhausted : {r : ℕ} {s : State} → Fills [] r s [] r s
    complete : {os : List Order} {s : State} → Fills os 0 s [] 0 s
    skip :
        {os : List Order} {r r' : ℕ} {s s' : State} {qs : List ℕ} (o : Order)
        → can_match order o ≡ false
        → Fills os r s qs r' s'
        → Fills (o ∷ os) r s qs r' s'
    fill :
        {os : List Order} {r r1 r' q : ℕ} {s s1 s' : State} {qs : List ℕ} (o : Order) (t : Trade)
        → can_match order o ≡ true
        → q + r1 ≡ r
        → IsSmaller q r o
        → execute_trade allowed order o (pos q) pair s ≡ (ok t, s1)
        → Fills os r1 s1 qs r' s'
        → Fills (o ∷ os) r s (q ∷ qs) r' s'
    fail :
        {os : List Order} {r r' q : ℕ} {s s1 s' : State} {qs : List ℕ} (o : Order) (e : Error)
        → can_match order o ≡ true
        → IsSmaller q r o
        → execute_trade allowed order o (pos q) pair s ≡ (err e, s1)
        → Fills os r s1 qs r' s'
        → Fills (o ∷ os) r s qs r' s'

  pub Fills-sum :
      {os : List Order} {r r' : ℕ} {s s' : State} {qs : List ℕ}
      → Fills os r s qs r' s'
      → sum qs + r' ≡ r
  Fills-sum exhausted = omega arith
  Fills-sum complete = omega arith
  Fills-sum (skip o c f) = Fills-sum f
  Fills-sum (fill o t c e m x f) = omega (arith, e, Fills-sum f)
  Fills-sum (fail o e c m x f) = Fills-sum f

  abbrev pub at_progress : ℕ → ℕ → Progress
  at_progress r n = record { remaining = pos r; trades_executed = n }

  -- A run of the loop from `r` remaining and `n` trades.
  abbrev pub Outcome : List Order → ℕ → ℕ → State → Progress × State → Type 0
  Outcome os r n s (p', s') =
      (r' : ℕ) × (qs : List ℕ) × (p'.remaining ≡ pos r')
      × (p'.trades_executed ≡ n + length qs)
      × Fills os r s qs r' s'

  match_quantity-min :
      (r : ℕ) (o : Order)
      → IsOpen o
      → (q : ℕ) × (match_quantity (pos r) o ≡ pos q) × IsSmaller q r o
  match_quantity-min r o h = (
    if ltb r (o.quantity - o.filled_quantity) then r else o.quantity - o.filled_quantity,
    ground arith,
    (
      ground arith,
      ground arith,
      elim (Bool-cases (ltb r (o.quantity - o.filled_quantity))) [
        | inl less ↦ inl (ground arith)
        | inr more ↦ inr (ground arith)
      ],
    ),
  )

  round_skip :
      (o : Order) (p : Progress) (s : State)
      → can_match order o ≡ false
      → match_round allowed order pair o p s ≡ (p, s)
  unfolding match_round
  round_skip o p s c = rw c

  pub round_trade :
      (o : Order) (p : Progress) (s : State) (q : ℤ) (x : Result Trade × State)
      → can_match order o ≡ true
      → match_quantity p.remaining o ≡ q
      → execute_trade allowed order o q pair s ≡ x
      → match_round allowed order pair o p s ≡ after_trade p q x
  unfolding match_round
  round_trade o p s q x c m e = rw c (
      ap (λ y. after_trade p y (execute_trade allowed order o y pair s)) m ∙ ap (after_trade p q) e)

  pub loop_step :
      (o : Order) (os : List Order) (r n : ℕ) (s : State)
      → match_loop allowed order pair (o ∷ os) (at_progress (suc r) n) s ≡ (
          let (p', s') = match_round allowed order pair o (at_progress (suc r) n) s in
          match_loop allowed order pair os p' s')
  unfolding match_loop
  loop_step o os r n s = refl

  pub sub_pos : (r q : ℕ) → q ≤ r → pos r -ℤ pos q ≡ pos (r - q)
  sub_pos r q h = ground arith

  module _ (o : Order) (os : List Order) (r n : ℕ) (s : State) where
    abbrev LoopFrom : Progress × State → Type 0
    LoopFrom (p, s1) = Outcome (o ∷ os) (suc r) n s (match_loop allowed order pair os p s1)

    abbrev RestIsRun : Type 0
    RestIsRun =
        (r n : ℕ) (s : State)
        → Outcome os r n s (match_loop allowed order pair os (at_progress r n) s)

    after_trade-Fills :
        (q : ℕ) (x : Result Trade × State)
        → can_match order o ≡ true
        → IsSmaller q (suc r) o
        → execute_trade allowed order o (pos q) pair s ≡ x
        → RestIsRun
        → LoopFrom (after_trade (at_progress (suc r) n) (pos q) x)
    unfolding after_trade
    after_trade-Fills q (err e, s1) c m x rest =
        let (r', qs, left, count, run) = rest (suc r) n s1 in
        (r', qs, left, count, fail o e c m x run)
    after_trade-Fills q (ok t, s1) c m x rest = rw (sub_pos (suc r) q m.0) (
        let (r', qs, left, count, run) = rest (suc r - q) (n + 1) s1 in
        (r', q ∷ qs, left, omega (arith, count), fill o t c (omega (arith, m)) m x run))

    match_round-Fills :
        IsOpen o
        → RestIsRun
        → (b : Bool) → can_match order o ≡ b
        → LoopFrom (match_round allowed order pair o (at_progress (suc r) n) s)
    match_round-Fills open_o rest false c =
        rw (round_skip o (at_progress (suc r) n) s c)
          (let (r', qs, left, count, run) = rest (suc r) n s in (r', qs, left, count, skip o c run))
    match_round-Fills open_o rest true c =
        let (q, m, smaller) = match_quantity-min (suc r) o open_o in
        rw (round_trade o (at_progress (suc r) n) s (pos q) _ c m refl)
          (after_trade-Fills q _ c smaller refl rest)

  -- Whatever the makers are, if none is filled beyond its quantity, then a run of the loop from a
  -- remaining quantity of 0 or more goes through the makers in their order until nothing remains:
  -- it tries exactly those that the order can match, each for the smaller of what is left of both.
  -- It ends with a remaining quantity of 0 or more, and counts the trades that returned.
  pub match_loop-Fills :
      (os : List Order) (r n : ℕ) (s : State)
      → All IsOpen os
      → Outcome os r n s (match_loop allowed order pair os (at_progress r n) s)
  unfolding match_loop
  match_loop-Fills [] r n s h = (r, [], refl, omega arith, exhausted)
  match_loop-Fills (o ∷ os) zero n s h = (0, [], refl, omega arith, complete)
  match_loop-Fills (o ∷ os) (suc r) n s (open_o, open_os) =
      match_round-Fills o os r n s open_o (λ r n s. match_loop-Fills os r n s open_os)
        (can_match order o) refl
