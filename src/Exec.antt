-- ===== src/Exec.antt =====
-- Async functions over a shared database: each takes the state and returns its result beside the
-- state that it leaves. What was written before an error stays written.
pub mod Steps
pub mod Ends
pub mod Holds
use servcat.Prelude.{Result, ok, err, Option, none, some}

abbrev pub Exec {ℓ} : Type ℓ → Type ℓ → Type ℓ → Type ℓ
Exec W E A = W → Result E A × W

module _ {ℓ} {W E A : Type ℓ} where
  abbrev pub pure : A → Exec W E A
  pure a w = (ok a, w)

  abbrev pub fail : E → Exec W E A
  fail e w = (err e, w)

  abbrev pub gets : (W → A) → Exec W E A
  gets f w = (ok (f w), w)

  -- `.ok_or(e)?`
  abbrev pub expect : E → Option A → Exec W E A
  expect e none w = (err e, w)
  expect e (some a) w = (ok a, w)

abbrev pub modify {ℓ} : {W E : Type ℓ} → (W → W) → Exec W E (Unit {ℓ})
modify f w = (ok tt, f w)

module _ {ℓ} {W E A B : Type ℓ} where
  -- `?`: an error ends the function.
  abbrev pub continue : (A → Exec W E B) → Result E A → Exec W E B
  continue f (ok a) w = f a w
  continue f (err e) w = (err e, w)

  infixl 5 ◌>>=◌ ◌>>◌
  unfoldable pub ◌>>=◌ : Exec W E A → (A → Exec W E B) → Exec W E B
  ◌>>=◌ m f w = let (r, w') = m w in continue f r w'

  abbrev pub ◌>>◌ : Exec W E A → Exec W E B → Exec W E B
  m >> k = m >>= λ _. k

module _ {ℓ} {W E F A : Type ℓ} where
  abbrev pub converted : (E → F) → Result E A → W → Result F A × W
  converted f (ok a) w = (ok a, w)
  converted f (err e) w = (err (f e), w)

  -- `.map_err(f)?`, and the `From` conversion that `?` makes.
  unfoldable pub map_error : (E → F) → Exec W E A → Exec W F A
  map_error f m w = let (r, w') = m w in converted f r w'

  abbrev pub handled : (E → Exec W F A) → Result E A → (W → Result F A × W)
  handled h (ok a) w = (ok a, w)
  handled h (err e) w = h e w

  -- `if let Err(e) = m { h(e) }`
  unfoldable pub catch : Exec W E A → (E → Exec W F A) → Exec W F A
  catch m h w = let (r, w') = m w in handled h r w'
