-- ===== src/Swap/Quote/Laws.antt =====
-- What a quote promises: buildQuote and convertAmount of
-- marketBackend/src/services/swapService.ts.
use Prim.Native.Nat.{ℕ, zero, suc, ◌+◌, ◌-◌, ◌*◌, ◌/◌, ◌^◌, ◌≤◌, ◌<◌}
use native.Mathlib.Nat.{
  one-le-pow, div-mul-le_self, pow-suc, mul_assoc, mul_comm, mul-le-mul_right, mul-div_cancel,
}
use omen_backend.Base.{
  err, Result, ◌-ℤ◌, ◌≡◌, ◌↔◌, ◌⊎◌, inl, inr, ◌∙◌, refl, sym, ap, subst, true, false, pos, leb_ℤ,
  leb, ltb, ◌==◌, ok, returned, Bool-cases, leb→le, arith,
}
use omen_backend.Token.Store.{Token}
use omen_backend.Swap.Types.{SwapQuote}
use omen_backend.Swap.Store.{SwapState}
use omen_backend.Swap.Quote.{convert_amount, estimate_rate, build_quote}

-- 10 ^ (a + d) = 10 ^ a * 10 ^ d.
power-add : (a d : ℕ) → 10 ^ (a + d) ≡ 10 ^ a * 10 ^ d
power-add a zero = let h : a + 0 ≡ a = omega arith in ap (λ x. 10 ^ x) h ∙ omega arith
power-add a (suc d) =
    let h : a + suc d ≡ suc (a + d) = omega arith in
    ap (λ x. 10 ^ x) h
    ∙ pow-suc 10 (a + d)
    ∙ ap (λ x. x * 10) (power-add a d)
    ∙ mul_assoc (10 ^ a) (10 ^ d) 10
    ∙ ap (λ x. 10 ^ a * x) (sym (pow-suc 10 d))

-- A conversion to as many or to more decimals, and to as many or to fewer.
up_lem : (a s d : ℕ) → convert_amount (pos a) s (s + d) ≡ pos (a * 10 ^ d)
unfolding convert_amount
up_lem a s zero = let h : (s == s + 0) ≡ true = ground arith in rw h (ap pos (omega arith))
up_lem a s (suc d) =
    let same : (s == s + suc d) ≡ false = ground arith in
    let fewer : ltb (s + suc d) s ≡ false = ground arith in
    let diff : s + suc d - s ≡ suc d = omega arith in rw (same, fewer, diff) refl

down_lem : (a t d : ℕ) → convert_amount (pos a) (t + d) t ≡ pos (a / 10 ^ d)
unfolding convert_amount
down_lem a t zero = let h : (t + 0 == t) ≡ true = ground arith in rw h (ap pos (omega arith))
down_lem a t (suc d) =
    let same : (t + suc d == t) ≡ false = ground arith in
    let fewer : ltb t (t + suc d) ≡ true = ground arith in
    let diff : t + suc d - t ≡ suc d = omega arith in rw (same, fewer, diff) refl

-- Any two numbers of decimals are related in one of the two ways.
decimals-cases : (s t : ℕ) → ((d : ℕ) × (t ≡ s + d)) ⊎ ((d : ℕ) × (s ≡ t + d))
decimals-cases s t = elim (Bool-cases (leb s t)) [
  | inl h ↦ inl (t - s, omega (arith, leb→le s t h))
  | inr h ↦ inr (s - t, ground (arith, h))
]

one_le_power : (d : ℕ) → 1 ≤ 10 ^ d
one_le_power d = one-le-pow d 10 (omega arith)

-- An amount that is converted to a token with as many or more decimals and back is unchanged.
pub convert_amount-convert_amount :
    (a s t : ℕ) → s ≤ t → convert_amount (convert_amount (pos a) s t) t s ≡ pos a
convert_amount-convert_amount a s t h =
    let d = t - s in
    let e : t ≡ s + d = omega (arith, h) in
    subst (λ x. convert_amount (convert_amount (pos a) s x) x s ≡ pos a) (sym e)
      (ap (λ x. convert_amount x (s + d) s) (up_lem a s d)
        ∙ down_lem (a * 10 ^ d) s d
        ∙ ap pos (mul-div_cancel a (one_le_power d)))

-- The value of an amount is never increased by a conversion: what is credited, counted in the
-- target's units, is worth at most the amount, counted in the source's.
pub convert_amount-bound :
    (a s t : ℕ) → (e : ℕ) × (convert_amount (pos a) s t ≡ pos e) × (e * 10 ^ s ≤ a * 10 ^ t)
convert_amount-bound a s t = elim (decimals-cases s t) [
  | inl (d, e) ↦ (
    a * 10 ^ d,
    subst (λ x. convert_amount (pos a) s x ≡ pos (a * 10 ^ d)) (sym e) (up_lem a s d),
    (let up =
          mul_assoc a (10 ^ d) (10 ^ s)
          ∙ ap (λ x. a * x)
              (mul_comm (10 ^ d) (10 ^ s) ∙ sym (power-add s d) ∙ ap (λ x. 10 ^ x) (sym e)) in
        omega (arith, up)),
  )
  | inr (d, e) ↦ (
    a / 10 ^ d,
    subst (λ x. convert_amount (pos a) x t ≡ pos (a / 10 ^ d)) (sym e) (down_lem a t d),
    (let down =
          ap (λ x. a / 10 ^ d * 10 ^ x) e
          ∙ ap (λ x. a / 10 ^ d * x) (power-add t d ∙ mul_comm (10 ^ t) (10 ^ d))
          ∙ sym (mul_assoc (a / 10 ^ d) (10 ^ d) (10 ^ t)) in
        omega (arith, down, mul-le-mul_right (10 ^ t) (div-mul-le_self a (10 ^ d)))),
  )
]

-- The fees that a positive amount pays.
abbrev pub fees : ℕ → ℕ
fees n = n * 25 / 10_000 + n * 15 / 10_000 + 1000

-- A quote for a positive amount is given exactly if the amount is more than its fees.
pub build_quote-returned :
    (source target : Token) (n : ℕ) (s : SwapState)
    → (returned (build_quote source target (pos (suc n)) s).0 ≡ true) ↔ (fees (suc n) < suc n)
unfolding build_quote
build_quote-returned source target n s = ground arith

-- The quote for `n`, where that is more than the fees.
abbrev quote_of : Token → Token → ℕ → SwapState → SwapQuote
quote_of source target n s = record {
  source_token_id = source.id;
  target_token_id = target.id;
  source_amount = pos n;
  expected_target_amount = convert_amount (pos (n - fees n)) source.decimals target.decimals;
  rate = estimate_rate source target;
  expires_at = s.ledger.now + 5 * 60 * 1000;
  platform_fee = pos (n * 25 / 10_000);
  bridge_fee = pos (n * 15 / 10_000);
  network_fee = pos 1000;
  total_fee = pos (fees n);
}

abbrev or_else : Result SwapQuote → SwapQuote → SwapQuote
or_else (ok q) d = q
or_else (err e) d = d

module _ (source target : Token) (n : ℕ) (s : SwapState) where
  build_quote-goes :
      fees n < n → build_quote source target (pos n) s ≡ (ok (quote_of source target n s), s)
  unfolding build_quote
  build_quote-goes h =
      let positive : leb_ℤ (pos n) (pos 0) ≡ false = ground arith in
      let paid : leb_ℤ (pos n) (pos (fees n)) ≡ false = ground arith in
      let net : pos n -ℤ pos (fees n) ≡ pos (n - fees n) = ground arith in
      rw (positive, paid, net) refl

  returned-pays :
      (s' : SwapState) (q : SwapQuote)
      → build_quote source target (pos n) s ≡ (ok q, s')
      → fees n < n
  unfolding build_quote
  returned-pays s' q h = ground arith

-- A quote that is given takes at most 0.4 percent and 1000 of the amount, and the amount that it
-- expects, counted in the units of the target, is worth no more than what the fees leave.
pub build_quote-bound :
    (source target : Token) (n : ℕ) (s s' : SwapState) (q : SwapQuote)
    → build_quote source target (pos n) s ≡ (ok q, s')
    → (s' ≡ s)
      × ((e f : ℕ) × (q.expected_target_amount ≡ pos e)
          × (q.total_fee ≡ pos f)
          × (f < n)
          × (f * 10_000 ≤ n * 40 + 10_000_000)
          × (e * 10 ^ source.decimals ≤ (n - f) * 10 ^ target.decimals))
build_quote-bound source target n s s' q h =
    let paid = returned-pays source target n s s' q h in
    let (e, net, worth) = convert_amount-bound (n - fees n) source.decimals target.decimals in
    let run = sym (build_quote-goes source target n s paid) ∙ h in
    let same : quote_of source target n s ≡ q = ap (λ r. or_else r.0 q) run in
    (
      sym (ap (λ r. r.1) run),
      (
        e,
        fees n,
        sym (ap (λ x. x.expected_target_amount) same) ∙ net,
        sym (ap (λ x. x.total_fee) same),
        paid,
        omega arith,
        worth,
      ),
    )
