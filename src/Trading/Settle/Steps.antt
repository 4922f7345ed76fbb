-- ===== src/Trading/Settle/Steps.antt =====
-- One balance update of executeTrade at a time: what it writes, and when it violates the CHECK
-- constraint on the balances.
use omen_backend.Base.{
  ℕ, ◌+◌, ◌-◌, ◌≤◌, ◌<◌, ◌≡◌, refl, true, false, ℤ, pos, ◌+ℤ◌, ◌-ℤ◌, returned, Result, negsuc, ok,
  err, arith, positive_balance, ap, ◌∙◌,
}
use omen_backend.Token.Store.{Ledger, UserBalance, insert₂, can_write}
use omen_backend.Token.Service.{get_user_balance, update_balance_internal}
use omen_backend.Token.Balances.{available, locked}
use omen_backend.Token.Coherence.{
  IsValid, IsCoherent, coherent_read, get_user_balance-balances, update-IsKeyed, update-IsCoherent,
  read-IsKeyed, read-IsCoherent,
}
use omen_backend.Trading.Settle.{
  get_available_balance, get_locked_balance, take_locked, add_available,
}

abbrev pub row : ℕ → ℕ → ℕ → ℕ → UserBalance
row u t a l = record { user_id = u; token_id = t; available_balance = a; locked_balance = l }

-- The state after the two reads through the cache.
abbrev after_reads : ℕ → ℕ → Ledger → Ledger
after_reads u t w = (get_user_balance u t (get_user_balance u t w).1).1

after_reads-IsValid : (u t : ℕ) (w : Ledger) → IsValid w → IsValid (after_reads u t w)
after_reads-IsValid u t w v =
    let once = (get_user_balance u t w).1 in
    let k = read-IsKeyed u t w v.keyed in
    let c = read-IsCoherent u t w v.keyed v.coherent in
    record { keyed = read-IsKeyed u t once k; coherent = read-IsCoherent u t once k c }

after_reads-balances : (u t : ℕ) (w : Ledger) → (after_reads u t w).balances ≡ w.balances
after_reads-balances u t w =
    cc (get_user_balance-balances u t w, get_user_balance-balances u t (get_user_balance u t w).1)

read_available :
    (u t : ℕ) (w : Ledger)
    → IsCoherent w
    → get_available_balance u t w ≡ (ok (available (w.balances u t)), (get_user_balance u t w).1)
unfolding get_available_balance
read_available u t w c = ground (arith, coherent_read u t w (c u t))

read_locked :
    (u t : ℕ) (w : Ledger)
    → IsCoherent w
    → get_locked_balance u t w ≡ (ok (locked (w.balances u t)), (get_user_balance u t w).1)
unfolding get_locked_balance
read_locked u t w c = ground (arith, coherent_read u t w (c u t))

get_user_balance-tokens : (u t : ℕ) (w : Ledger) → (get_user_balance u t w).1.tokens ≡ w.tokens
unfolding get_user_balance
get_user_balance-tokens u t w = ground arith

after_reads-tokens : (u t : ℕ) (w : Ledger) → (after_reads u t w).tokens ≡ w.tokens
after_reads-tokens u t w =
    cc (get_user_balance-tokens u t w, get_user_balance-tokens u t (get_user_balance u t w).1)

after_reads-can_write : (u t : ℕ) (w : Ledger) → can_write u t (after_reads u t w) ≡ can_write u t w
after_reads-can_write u t w = rw (after_reads-balances u t w, after_reads-tokens u t w) refl

module _ (u t : ℕ) (w : Ledger) (v : IsValid w) where
  abbrev once : Ledger
  once = (get_user_balance u t w).1

  read_locked_again :
      get_locked_balance u t once ≡ (ok (locked (w.balances u t)), after_reads u t w)
  read_locked_again = rw (
    read_locked u t once (read-IsCoherent u t w v.keyed v.coherent),
    get_user_balance-balances u t w,
  )

  -- Both updates write a row under the key, made from the old row of a valid ledger.
  pub take_locked_lem :
      (amount : ℤ)
      → take_locked u t amount w
        ≡ update_balance_internal u t
            (pos (available (w.balances u t)))
            (pos (locked (w.balances u t)) -ℤ amount)
            (after_reads u t w)
  unfolding take_locked
  take_locked_lem amount = ground (arith, read_available u t w v.coherent, read_locked_again)

  pub add_available_lem :
      (amount fee : ℤ)
      → add_available u t amount fee w
        ≡ update_balance_internal u t
            (pos (available (w.balances u t)) +ℤ amount -ℤ fee)
            (pos (locked (w.balances u t)))
            (after_reads u t w)
  unfolding add_available
  add_available_lem amount fee = ground (arith, read_available u t w v.coherent, read_locked_again)

-- A call that wrote the row `row u t a l` and no other.
abbrev pub Writes : ℕ → ℕ → ℕ → ℕ → Ledger → Result UserBalance × Ledger → Type 0
Writes u t a l w (r, w') =
    (returned r ≡ true)
    × IsValid w'
    × (w'.balances ≡ insert₂ u t (row u t a l) w.balances)
    × (w'.tokens ≡ w.tokens)

-- A call that violated the constraint on the balances, and wrote no row.
abbrev pub Violates : Ledger → Result UserBalance × Ledger → Type 0
Violates w (r, w') = (r ≡ err positive_balance) × IsValid w' × (w'.balances ≡ w.balances)

module _ (u t a : ℕ) (w : Ledger) where
  update_returned :
      (l : ℕ)
      → can_write u t w ≡ true
      → returned (update_balance_internal u t (pos a) (pos l) w).0 ≡ true
  unfolding update_balance_internal
  update_returned l known = ground (arith, known)

  update_unknown :
      (l : ℕ)
      → can_write u t w ≡ false
      → returned (update_balance_internal u t (pos a) (pos l) w).0 ≡ false
  unfolding update_balance_internal
  update_unknown l unknown = ground (arith, unknown)

  update-balances :
      (l : ℕ)
      → can_write u t w ≡ true
      → (update_balance_internal u t (pos a) (pos l) w).1.balances
        ≡ insert₂ u t (row u t a l) w.balances
  unfolding update_balance_internal
  update-balances l known = ground (arith, known)

  update-tokens : (l : ℕ) → (update_balance_internal u t (pos a) (pos l) w).1.tokens ≡ w.tokens
  unfolding update_balance_internal
  update-tokens l = ground arith

  update_refused :
      (n : ℕ) → update_balance_internal u t (pos a) (negsuc n) w ≡ (err positive_balance, w)
  unfolding update_balance_internal
  update_refused n = refl

available_refused :
    (u t n : ℕ) (l : ℕ) (w : Ledger)
    → (update_balance_internal u t (negsuc n) (pos l) w).0 ≡ err positive_balance
unfolding update_balance_internal
available_refused u t n l w = refl

module _ (u t : ℕ) (w : Ledger) (v : IsValid w) where
  update-IsValid : (a l : ℤ) → IsValid (update_balance_internal u t a l w).1
  update-IsValid a l = record {
    keyed = update-IsKeyed u t a l w v.keyed;
    coherent = update-IsCoherent u t a l w v.coherent;
  }

  update-Writes :
      (a l : ℕ)
      → can_write u t w ≡ true
      → Writes u t a l w (update_balance_internal u t (pos a) (pos l) w)
  update-Writes a l known = (
    update_returned u t a w l known,
    update-IsValid (pos a) (pos l),
    update-balances u t a w l known,
    update-tokens u t a w l,
  )

  update-Violates : (a n : ℕ) → Violates w (update_balance_internal u t (pos a) (negsuc n) w)
  update-Violates a n = rw (update_refused u t a w n) (refl, v, refl)

sub_fits : (l n : ℕ) → n ≤ l → pos l -ℤ pos n ≡ pos (l - n)
sub_fits l n h = ground arith

sub_short : (l n : ℕ) → l < n → pos l -ℤ pos n ≡ negsuc (n - l - 1)
sub_short l n h = ground arith

add_sub_fits : (a n fee : ℕ) → fee ≤ a + n → pos a +ℤ pos n -ℤ pos fee ≡ pos (a + n - fee)
add_sub_fits a n fee h = ground arith

add_sub_short : (a n fee : ℕ) → a + n < fee → pos a +ℤ pos n -ℤ pos fee ≡ negsuc (fee - (a + n) - 1)
add_sub_short a n fee h = ground arith

module _ (u t : ℕ) (w : Ledger) (v : IsValid w) where
  written-after_reads :
      (a l : ℕ)
      → can_write u t w ≡ true
      → Writes u t a l w (update_balance_internal u t (pos a) (pos l) (after_reads u t w))
  written-after_reads a l known =
      let (r, v', b, ts) =
        update-Writes u t (after_reads u t w) (after_reads-IsValid u t w v) a l
          (after_reads-can_write u t w ∙ known) in
      (
        r,
        v',
        b ∙ ap (insert₂ u t (row u t a l)) (after_reads-balances u t w),
        ts ∙ after_reads-tokens u t w,
      )

  unknown-after_reads :
      (a l : ℕ)
      → can_write u t w ≡ false
      → returned (update_balance_internal u t (pos a) (pos l) (after_reads u t w)).0 ≡ false
  unknown-after_reads a l unknown =
      update_unknown u t a (after_reads u t w) l (after_reads-can_write u t w ∙ unknown)

  violated-after_reads :
      (a n : ℕ) → Violates w (update_balance_internal u t (pos a) (negsuc n) (after_reads u t w))
  violated-after_reads a n =
      let (r, v', b) = update-Violates u t (after_reads u t w) (after_reads-IsValid u t w v) a n in
      (r, v', b ∙ after_reads-balances u t w)

  pub take_locked-Writes :
      (n : ℕ)
      → n ≤ locked (w.balances u t)
      → can_write u t w ≡ true
      → Writes u t
          (available (w.balances u t))
          (locked (w.balances u t) - n)
          w
          (take_locked u t (pos n) w)
  take_locked-Writes n h known =
      rw (take_locked_lem u t w v (pos n), sub_fits _ n h) (written-after_reads _ _ known)

  -- A row of a token that is not there is not written.
  pub take_locked-unknown :
      (n : ℕ)
      → n ≤ locked (w.balances u t)
      → can_write u t w ≡ false
      → returned (take_locked u t (pos n) w).0 ≡ false
  take_locked-unknown n h unknown =
      rw (take_locked_lem u t w v (pos n), sub_fits _ n h) (unknown-after_reads _ _ unknown)

  pub take_locked-Violates :
      (n : ℕ) → locked (w.balances u t) < n → Violates w (take_locked u t (pos n) w)
  take_locked-Violates n h =
      rw (take_locked_lem u t w v (pos n), sub_short _ n h) (violated-after_reads _ _)

  pub add_available-Writes :
      (n fee : ℕ)
      → fee ≤ available (w.balances u t) + n
      → can_write u t w ≡ true
      → Writes u t
          (available (w.balances u t) + n - fee)
          (locked (w.balances u t))
          w
          (add_available u t (pos n) (pos fee) w)
  add_available-Writes n fee h known =
      rw (add_available_lem u t w v (pos n) (pos fee), add_sub_fits _ n fee h)
        (written-after_reads _ _ known)

  pub add_available-unknown :
      (n fee : ℕ)
      → fee ≤ available (w.balances u t) + n
      → can_write u t w ≡ false
      → returned (add_available u t (pos n) (pos fee) w).0 ≡ false
  add_available-unknown n fee h unknown =
      rw (add_available_lem u t w v (pos n) (pos fee), add_sub_fits _ n fee h)
        (unknown-after_reads _ _ unknown)

  pub add_available-Violates :
      (n fee : ℕ)
      → available (w.balances u t) + n < fee
      → (add_available u t (pos n) (pos fee) w).0 ≡ err positive_balance
  add_available-Violates n fee h =
      rw (add_available_lem u t w v (pos n) (pos fee), add_sub_short _ n fee h)
        (available_refused u t _ _ (after_reads u t w))
