-- ===== src/Exec/Ends.antt =====
-- What holds of the result and the state where an action returns, without a word on its errors.
use servcat.Prelude.{Result, ok, err}
use servcat.Exec.{Exec, continue, ◌>>=◌}

module _ {ℓ} {W E A : Type ℓ} where
  -- A returned value and the state beside it have the property.
  abbrev pub Yields : (A → W → Type ℓ) → Result E A × W → Type ℓ
  Yields P (ok a, w) = P a w
  Yields P (err e, w) = Unit {ℓ}

  pub Yields-trivial : (r : Result E A × W) → Yields (λ a w. Unit {ℓ}) r
  Yields-trivial (ok a, w) = tt
  Yields-trivial (err e, w) = tt

module _ {ℓ} {W E A B : Type ℓ} (P : B → W → Type ℓ) where
  Yields-continue :
      (Q : A → Type ℓ) (f : A → Exec W E B)
      → ((a : A) (w : W) → Q a → Yields P (f a w))
      → (r : Result E A) (w : W) → Yields (λ a w. Q a) (r, w)
      → Yields P (continue f r w)
  Yields-continue Q f later (ok a) w q = later a w q
  Yields-continue Q f later (err e) w q = tt

  pub Yields-bind :
      (Q : A → Type ℓ) (m : Exec W E A) (f : A → Exec W E B) (w : W)
      → Yields (λ a w. Q a) (m w)
      → ((a : A) (w : W) → Q a → Yields P (f a w))
      → Yields P ((m >>= f) w)
  unfolding ◌>>=◌
  Yields-bind Q m f w q later = Yields-continue Q f later (m w).0 (m w).1 q

  -- Where the first action's result does not matter.
  pub Yields-then :
      (m : Exec W E A) (f : A → Exec W E B) (w : W)
      → ((a : A) (w : W) → Yields P (f a w))
      → Yields P ((m >>= f) w)
  Yields-then m f w later =
      Yields-bind (λ a. Unit {ℓ}) m f w (Yields-trivial (m w)) (λ a v q. later a v)
