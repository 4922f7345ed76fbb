-- ===== src/Trading/Matching/LostFill.antt =====
-- What executeMatching of marketBackend/src/infra/queue/matchingWorkerHandler.ts writes to the row
-- of an order that it fills from two makers: executeTrade computes each new filled quantity from the
-- same order object, read before the loop.
use omen_backend.Base.{
  ℕ, suc, ◌+◌, ◌≤◌, ◌≡◌, ◌≢◌, sym, refl, ap, subst, pure, Action, Bool, true, none, some, List, [],
  ◌∷◌, pos, Result, ok, ◌∙◌, arith, bind-ok, ◌>>◌, ◌==◌, update_where,
}
use omen_backend.Trading.Types.{Order, OrderStatus, Trade, TradingPair, filled}
use omen_backend.Trading.Store.{State, order_filled, update_order_status, publish, changed_order}
use omen_backend.Trading.Store.Orders.{order_at, order_at-id, order_at-update}
use omen_backend.Trading.Worker.{
  can_match, execute_trade, remaining_of, remove_order_from_order_book,
}
use omen_backend.Trading.Worker.Effects.{orders_filled}
use omen_backend.Trading.Matching.{
  Progress, MatchResult, match_quantity, match_loop, finish_matching, result, start, after_trade,
}
use omen_backend.Trading.Matching.Loop.{at_progress, round_trade, loop_step, sub_pos}

-- A change of the status alone.
status_changed :
    (allowed : OrderStatus → Bool) (id : ℕ) (status : OrderStatus) (s : State) (row : Order)
    → allowed status ≡ true
    → order_at id s.orders ≡ some row
    → update_order_status allowed id status none s ≡ (
      ok (record row { status = status }),
      record s {
        orders =
            update_where (λ (x : Order). x.id == id) (λ _. record row { status = status }) s.orders;
      },
    )
unfolding update_order_status changed_order
status_changed allowed id status s row ok_status found = ground arith

-- What finish_matching returns and leaves in the row of a filled order.
abbrev IsFinished : Order → Order → Progress → Result MatchResult × State → Type 0
IsFinished order row p (r, s) =
    (r ≡ ok (result p filled))
    × (order_at order.id s.orders ≡ some (record row { status = filled }))

-- The last update gives no filled quantity, so the row keeps the one that the last trade wrote.
finish-filled :
    (allowed : OrderStatus → Bool) (order : Order) (n : ℕ) (s : State) (row : Order)
    → allowed filled ≡ true
    → order_at order.id s.orders ≡ some row
    → IsFinished order row
        (record { remaining = pos 0; trades_executed = n })
        (finish_matching allowed order (record { remaining = pos 0; trades_executed = n }) s)
unfolding finish_matching publish remove_order_from_order_book
finish-filled allowed order n s row ok_status found =
    let p : Progress = record { remaining = pos 0; trades_executed = n } in
    let rest : Action State MatchResult = (do
      publish (order_filled order.id)
      remove_order_from_order_book order
      pure (result p filled)) in
    subst (IsFinished order row p)
      (sym (
        bind-ok (update_order_status allowed order.id filled none) (λ _. rest) s
          (status_changed allowed order.id filled s row ok_status found)))
      (
        refl,
        order_at-update order.id order.id (record row { status = filled }) s.orders
              (order_at-id order.id s.orders found)
            ∙ ground arith,
      )

module _ (allowed : OrderStatus → Bool) (order : Order) (pair : TradingPair) (o1 o2 : Order)
    (q1 q2 : ℕ) (s s1 s2 : State) (t1 t2 : Trade) where
  -- A round that trades, with what remains before it and after.
  step_of :
      (o : Order) (os : List Order) (k r q n : ℕ) (before after : State) (t : Trade)
      → suc k ≡ q + r
      → can_match order o ≡ true
      → match_quantity (pos (suc k)) o ≡ pos q
      → execute_trade allowed order o (pos q) pair before ≡ (ok t, after)
      → match_loop allowed order pair (o ∷ os) (at_progress allowed order pair (suc k) n) before
        ≡ match_loop allowed order pair os (at_progress allowed order pair r (n + 1)) after
  unfolding after_trade
  step_of o os k r q n before after t e c m x =
      rw
        (
          loop_step allowed order pair o os k n before,
          round_trade allowed order pair o (at_progress allowed order pair (suc k) n) before (pos q)
              (ok t, after) c m x,
          sub_pos allowed order pair (suc k) q (omega (arith, e)),
        )
        (ap (λ z. match_loop allowed order pair os (at_progress allowed order pair z (n + 1)) after)
          (omega (arith, e)))

  -- Two makers that fill the order are two rounds of the loop.
  loop_of_two :
      can_match order o1 ≡ true
      → can_match order o2 ≡ true
      → o1.filled_quantity + suc q1 ≡ o1.quantity
      → suc q2 + o2.filled_quantity ≤ o2.quantity
      → order.filled_quantity + suc q1 + suc q2 ≡ order.quantity
      → execute_trade allowed order o1 (pos (suc q1)) pair s ≡ (ok t1, s1)
      → execute_trade allowed order o2 (pos (suc q2)) pair s1 ≡ (ok t2, s2)
      → match_loop allowed order pair (o1 ∷ o2 ∷ []) (start order) s
        ≡ (record { remaining = pos 0; trades_executed = 2 }, s2)
  unfolding match_loop
  loop_of_two c1 c2 e1 e2 e x1 x2 =
      ap
        (λ z.
          match_loop allowed order pair (o1 ∷ o2 ∷ [])
            (record { remaining = z; trades_executed = 0 }) s)
        {x = remaining_of order} {y = pos (suc (q1 + suc q2))} (ground arith)
      ∙ step_of o1 (o2 ∷ []) (q1 + suc q2) (suc q2) (suc q1) 0 s s1 t1 (omega arith) c1
          (ground arith) x1
      ∙ step_of o2 [] q2 0 (suc q2) 1 s1 s2 t2 (omega arith) c2 (ground arith) x2

  -- An order that two makers fill, both trades returning, ends as FILLED with its filled quantity
  -- short by the whole first fill, where a FILLED row is allowed: executeTrade computes the filled
  -- quantity from the order as it was before the loop.
  pub lost_fill :
      can_match order o1 ≡ true
      → can_match order o2 ≡ true
      → order.id ≢ o2.id
      → allowed filled ≡ true
      → o1.filled_quantity + suc q1 ≡ o1.quantity
      → suc q2 + o2.filled_quantity ≤ o2.quantity
      → order.filled_quantity + suc q1 + suc q2 ≡ order.quantity
      → execute_trade allowed order o1 (pos (suc q1)) pair s ≡ (ok t1, s1)
      → execute_trade allowed order o2 (pos (suc q2)) pair s1 ≡ (ok t2, s2)
      → let (p, s') = match_loop allowed order pair (o1 ∷ o2 ∷ []) (start order) s in
        let (r, final) = finish_matching allowed order p s' in
        (r
          ≡ ok (record {
            matched = true;
            trades_executed = 2;
            remaining_quantity = pos 0;
            final_status = filled;
          }))
        × ((row : Order) × (order_at order.id final.orders ≡ some row)
            × (row.status ≡ filled)
            × (row.filled_quantity + suc q1 ≡ order.quantity))
  lost_fill c1 c2 ne ok_status e1 e2 e x1 x2 =
      let ((row, found, quantity, _), _) =
        orders_filled allowed order o2 (suc q2) pair s1 s2 t2 x2 ne in
      rw (loop_of_two c1 c2 e1 e2 e x1 x2) (
        let (r, f) = finish-filled allowed order 2 s2 row ok_status found in
        (r, (record row { status = filled }, f, refl, omega (arith, quantity, e))))
