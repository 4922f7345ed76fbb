-- ===== src/Trading/Service/Book.antt =====
-- The levels of an order book: aggregateOrderBook of marketBackend/src/services/tradingService.ts.
use omen_backend.Base.{
  ℕ, ◌+◌, ◌≡◌, refl, sym, ◌∙◌, ap, Bool, true, false, Option, none, some, List, [], ◌∷◌, ℤ, pos,
  ◌+ℤ◌, ◌-ℤ◌, arith, All, if◌then◌else◌,
}
use omen_backend.Trading.Types.{Order, OrderBookEntry}
use omen_backend.Trading.Service.{add_to_level, aggregate_from, aggregate_order_book, eq_ℤ}

-- The quantity and the number of orders of the levels of one price.
abbrev pub quantity_at : ℤ → List OrderBookEntry → ℤ
quantity_at x [] = pos 0
quantity_at x (e ∷ es) = (if eq_ℤ e.price x then e.quantity else pos 0) +ℤ quantity_at x es

abbrev pub count_at : ℤ → List OrderBookEntry → ℕ
count_at x [] = 0
count_at x (e ∷ es) = (if eq_ℤ e.price x then e.order_count else 0) + count_at x es

-- The unfilled quantity and the number of the orders of one price.
abbrev pub unfilled_at : ℤ → List Order → ℤ
unfilled_at x [] = pos 0
unfilled_at x (o ∷ os) = elim o.price [
  | none ↦ unfilled_at x os
  | some p ↦
      (if eq_ℤ p x then pos o.quantity -ℤ pos o.filled_quantity else pos 0) +ℤ unfilled_at x os
]

abbrev pub orders_at : ℤ → List Order → ℕ
orders_at x [] = 0
orders_at x (o ∷ os) = elim o.price [
  | none ↦ orders_at x os
  | some p ↦ (if eq_ℤ p x then 1 else 0) + orders_at x os
]

-- No two levels have the same price.
abbrev pub IsDistinct : List OrderBookEntry → Type 0
IsDistinct [] = Unit
IsDistinct (e ∷ es) = All (λ f. eq_ℤ f.price e.price ≡ false) es × IsDistinct es

add_zero : (a : ℤ) → a +ℤ pos 0 ≡ a
add_zero a = ground arith

zero_add : (a : ℤ) → pos 0 +ℤ a ≡ a
zero_add a = ground arith

swap_last : (a b c : ℤ) → (a +ℤ b) +ℤ c ≡ (a +ℤ c) +ℤ b
swap_last a b c = ground arith

assoc : (a b c : ℤ) → (a +ℤ b) +ℤ c ≡ a +ℤ (b +ℤ c)
assoc a b c = ground arith

add_comm : (a : ℤ) → a +ℤ pos 0 ≡ pos 0 +ℤ a
add_comm a = ground arith

eq_ℤ-eq : (a b : ℤ) → eq_ℤ a b ≡ true → a ≡ b
eq_ℤ-eq a b h = ground arith

eq_ℤ-sym : (a b : ℤ) → eq_ℤ a b ≡ false → eq_ℤ b a ≡ false
eq_ℤ-sym a b h = ground arith

if-plus :
    (b : Bool) (x y : ℤ)
    → (if b then x +ℤ y else pos 0) ≡ (if b then x else pos 0) +ℤ (if b then y else pos 0)
if-plus b x y = ground arith

count-plus :
    (b : Bool) (n m : ℕ)
    → (if b then n + 1 else 0) + m ≡ (if b then n else 0) + m + (if b then 1 else 0)
count-plus b n m = ground arith

module _ (p q : ℤ) where
  -- One order goes into the level of its price, and into no other.
  level-at :
      (x : ℤ) (es : List OrderBookEntry)
      → (quantity_at x (add_to_level p q es) ≡ quantity_at x es +ℤ (if eq_ℤ p x then q else pos 0))
        × (count_at x (add_to_level p q es) ≡ count_at x es + (if eq_ℤ p x then 1 else 0))
  level-at x [] = (add_comm (if eq_ℤ p x then q else pos 0), omega arith)
  level-at x (e ∷ es) = by_price (eq_ℤ e.price p) refl (level-at x es)
    where
      by_price :
          (b : Bool)
          → eq_ℤ e.price p ≡ b
          → (quantity_at x (add_to_level p q es)
              ≡ quantity_at x es +ℤ (if eq_ℤ p x then q else pos 0))
            × (count_at x (add_to_level p q es) ≡ count_at x es + (if eq_ℤ p x then 1 else 0))
          → (quantity_at x (add_to_level p q (e ∷ es))
              ≡ quantity_at x (e ∷ es) +ℤ (if eq_ℤ p x then q else pos 0))
            × (count_at x (add_to_level p q (e ∷ es))
                ≡ count_at x (e ∷ es) + (if eq_ℤ p x then 1 else 0))
      by_price true h (k, c) =
          let same = ap (λ z. eq_ℤ z x) (eq_ℤ-eq e.price p h) in
          (
            rw (h, same, if-plus (eq_ℤ p x) e.quantity q)
                (swap_last (if eq_ℤ p x then e.quantity else pos 0) (if eq_ℤ p x then q else pos 0)
                  (quantity_at x es)),
            rw (h, same) (count-plus (eq_ℤ p x) e.order_count (count_at x es)),
          )
      by_price false h (k, c) = (
        rw h (
            ap (λ z. (if eq_ℤ e.price x then e.quantity else pos 0) +ℤ z) k
            ∙ sym (
                assoc (if eq_ℤ e.price x then e.quantity else pos 0) (quantity_at x es)
                  (if eq_ℤ p x then q else pos 0))),
        rw h (omega (arith, c)),
      )

  level-differs :
      (x : ℤ) (es : List OrderBookEntry)
      → eq_ℤ p x ≡ false
      → All (λ f. eq_ℤ f.price x ≡ false) es
      → All (λ f. eq_ℤ f.price x ≡ false) (add_to_level p q es)
  level-differs x [] ne h = (ne, tt)
  level-differs x (e ∷ es) ne (here, h) = by_price (eq_ℤ e.price p) refl (level-differs x es ne h)
    where
      by_price :
          (b : Bool)
          → eq_ℤ e.price p ≡ b
          → All (λ f. eq_ℤ f.price x ≡ false) (add_to_level p q es)
          → All (λ f. eq_ℤ f.price x ≡ false) (add_to_level p q (e ∷ es))
      by_price true k rest = rw k (here, h)
      by_price false k rest = rw k (here, rest)

  level-IsDistinct : (es : List OrderBookEntry) → IsDistinct es → IsDistinct (add_to_level p q es)
  level-IsDistinct [] h = (tt, tt)
  level-IsDistinct (e ∷ es) (first, h) = by_price (eq_ℤ e.price p) refl (level-IsDistinct es h)
    where
      by_price :
          (b : Bool)
          → eq_ℤ e.price p ≡ b
          → IsDistinct (add_to_level p q es)
          → IsDistinct (add_to_level p q (e ∷ es))
      by_price true k rest = rw k (first, h)
      by_price false k rest = rw k (level-differs e.price es (eq_ℤ-sym e.price p k) first, rest)

-- The step of the next lemma.
IsAggregated : List OrderBookEntry → List Order → List OrderBookEntry → Type 0
IsAggregated es os levels =
    ((x : ℤ)
      → (quantity_at x levels ≡ quantity_at x es +ℤ unfilled_at x os)
        × (count_at x levels ≡ count_at x es + orders_at x os))
    × (IsDistinct es → IsDistinct levels)

from-IsAggregated :
    (es : List OrderBookEntry) (os : List Order) → IsAggregated es os (aggregate_from es os)
unfolding IsAggregated
from-IsAggregated es [] = (λ x. (sym (add_zero (quantity_at x es)), omega arith), λ h. h)
from-IsAggregated es (o ∷ os) =
    by_price o.price refl (from-IsAggregated es os)
      (λ p. from-IsAggregated (add_to_level p (pos o.quantity -ℤ pos o.filled_quantity) es) os)
  where
    by_price :
        (price : Option ℤ)
        → o.price ≡ price
        → IsAggregated es os (aggregate_from es os)
        → ((p : ℤ)
            → IsAggregated
                (add_to_level p (pos o.quantity -ℤ pos o.filled_quantity) es)
                os
                (aggregate_from (add_to_level p (pos o.quantity -ℤ pos o.filled_quantity) es) os))
        → IsAggregated es (o ∷ os) (aggregate_from es (o ∷ os))
    by_price none h same more = rw h same
    by_price (some p) h same more =
        let q = pos o.quantity -ℤ pos o.filled_quantity in
        let (at, distinct) = more p in
        rw h (
          λ x.
              let (quantity, count) = at x in
              let (level_quantity, level_count) = level-at p q x es in
              (
                quantity
                    ∙ ap (λ z. z +ℤ unfilled_at x os) level_quantity
                    ∙ assoc (quantity_at x es) (if eq_ℤ p x then q else pos 0) (unfilled_at x os),
                omega (arith, count, level_count),
              ),
          λ d. distinct (level-IsDistinct p q es d),
        )

-- The levels of an order book are by price: no two have the same price, and at each price the
-- levels hold the sum of what the orders at that price have left unfilled, and their number. An
-- order without a price is in no level.
pub aggregate_order_book-levels :
    (orders : List Order) (x : ℤ)
    → IsDistinct (aggregate_order_book orders)
      × (quantity_at x (aggregate_order_book orders) ≡ unfilled_at x orders)
      × (count_at x (aggregate_order_book orders) ≡ orders_at x orders)
unfolding aggregate_order_book IsAggregated
aggregate_order_book-levels orders x =
    let (at, distinct) = from-IsAggregated [] orders in
    let (quantity, count) = at x in
    (distinct tt, quantity ∙ zero_add (unfilled_at x orders), omega (arith, count))
