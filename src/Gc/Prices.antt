-- ===== src/Gc/Prices.antt =====
-- The room that a collection takes: what is still to be paid for objects that have not been moved.
use owlang.Base.{
  ℕ, ◌+◌, ◌<◌, ◌≤◌, ◌≡◌, ◌≢◌, inl, inr, refl, arith, Bool-cases, ==_iff, List, [], ◌∷◌, All, ◌==◌,
}
use owlang.Gc.{object_size}
use owlang.Gc.Space.{Snapshot, Member, price, prices}

module _ (s : Snapshot) where
  price-split :
      (n m : ℕ) (φ ψ : ℕ → ℕ) (p : ℕ)
      → n ≤ m
      → (n ≤ s.rank p → ψ p ≡ φ p)
      → price s m ψ p + price s n φ p ≡ price s m φ p + price s n ψ p
  unfolding price
  price-split n m φ ψ p le same = ground arith

  -- Where nothing nested `n` deep or deeper is moved, the price of what is nested deeper stays.
  pub prices-split :
      (n m : ℕ) (φ ψ : ℕ → ℕ) (ps : List ℕ)
      → n ≤ m
      → All (λ p. n ≤ s.rank p → ψ p ≡ φ p) ps
      → prices s m ψ ps + prices s n φ ps ≡ prices s m φ ps + prices s n ψ ps
  unfolding prices
  prices-split n m φ ψ [] le same = refl
  prices-split n m φ ψ (p ∷ ps) le (here, same) =
      omega (arith, price-split n m φ ψ p le here, prices-split n m φ ψ ps le same)

  price_mono : (n m : ℕ) (φ : ℕ → ℕ) (p : ℕ) → n ≤ m → price s n φ p ≤ price s m φ p
  unfolding price
  price_mono n m φ p le = ground arith

  pub prices_mono : (n m : ℕ) (φ : ℕ → ℕ) (ps : List ℕ) → n ≤ m → prices s n φ ps ≤ prices s m φ ps
  unfolding prices
  prices_mono n m φ [] le = omega arith
  prices_mono n m φ (p ∷ ps) le = omega (arith, price_mono n m φ p le, prices_mono n m φ ps le)

  price-at :
      (φ : ℕ → ℕ) (p : ℕ)
      → φ p ≡ 0
      → price s (s.rank p) φ p + (object_size (s.content p) + 1) ≤ price s (s.rank p + 1) φ p
  unfolding price
  price-at φ p e = ground arith

  -- The object at `p` is one of those that are to be paid for.
  pub prices-Member :
      (φ : ℕ → ℕ) (p : ℕ) (ps : List ℕ)
      → φ p ≡ 0
      → Member p ps
      → prices s (s.rank p) φ ps + (object_size (s.content p) + 1) ≤ prices s (s.rank p + 1) φ ps
  unfolding prices
  prices-Member φ p [] e at = absurd at
  prices-Member φ p (q ∷ ps) e (inl at) =
      rw (← at)
        (omega (arith, price-at φ p e, prices_mono (s.rank p) (s.rank p + 1) φ ps (omega arith)))
  prices-Member φ p (q ∷ ps) e (inr at) =
      omega
        (arith, prices-Member φ p ps e at, price_mono (s.rank p) (s.rank p + 1) φ q (omega arith))

  module _ (n : ℕ) (φ ψ : ℕ → ℕ) (p : ℕ) (waiting : φ p ≡ 0) (marked : ψ p ≢ 0) where
    price-le : (q : ℕ) → (q ≢ p → ψ q ≡ φ q) → price s n ψ q ≤ price s n φ q
    unfolding price
    price-le q same = elim (Bool-cases (q == p)) [
      | inl at ↦ let e = (==_iff q p).0 at in rw e (ground arith)
      | inr off ↦ let e = same (λ i. ground arith) in ground arith
    ]

    prices-le : (ps : List ℕ) → All (λ q. q ≢ p → ψ q ≡ φ q) ps → prices s n ψ ps ≤ prices s n φ ps
    unfolding prices
    prices-le [] same = omega arith
    prices-le (q ∷ ps) (here, same) = omega (arith, price-le q here, prices-le ps same)

    price-paid : s.rank p < n → price s n ψ p + (object_size (s.content p) + 1) ≤ price s n φ p
    unfolding price
    price-paid less = ground arith

    -- Where the object at `p` has been moved, it is paid for.
    pub prices-paid :
        (ps : List ℕ)
        → s.rank p < n
        → Member p ps
        → All (λ q. q ≢ p → ψ q ≡ φ q) ps
        → prices s n ψ ps + (object_size (s.content p) + 1) ≤ prices s n φ ps
    unfolding prices
    prices-paid [] less at same = absurd at
    prices-paid (q ∷ ps) less (inl at) (here, same) =
        rw (← at) (omega (arith, price-paid less, prices-le ps same))
    prices-paid (q ∷ ps) less (inr at) (here, same) =
        omega (arith, price-le q here, prices-paid ps less at same)
