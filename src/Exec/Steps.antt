-- ===== src/Exec/Steps.antt =====
-- What every run of an action does to the state, as a reflexive and transitive relation between
-- the state before and the state after: one rule for each way to build an action.
use servcat.Prelude.{◌≡◌, Bool, true, false, Option, none, some, Result, ok, err, if◌then◌else◌}
use servcat.Exec.{
  Exec, pure, fail, gets, expect, continue, ◌>>=◌, converted, map_error, handled, catch,
}

-- Every run of `m` steps along `R`, whether it returns or fails.
pub record Steps {ℓ} {W E A : Type ℓ} (R : W → W → Type ℓ) (m : Exec W E A) : Type ℓ where
  pub at : (w : W) → R w (m w).1

pub record IsPreorder {ℓ} {W : Type ℓ} (R : W → W → Type ℓ) : Type ℓ where
  pub reflexive : (w : W) → R w w
  pub transitive : (u v w : W) → R u v → R v w → R u w

module _ {ℓ} {W : Type ℓ} {R : W → W → Type ℓ} (order : IsPreorder R) where
  module _ {E A : Type ℓ} where
    -- an action that leaves the state as it is
    pub Steps-still : (m : Exec W E A) → ((w : W) → (m w).1 ≡ w) → Steps R m
    Steps-still m same = record { at = λ w. rw (same w) (order.reflexive w) }

    pub Steps-pure : (a : A) → Steps R (pure {E = E} a)
    Steps-pure a = record { at = order.reflexive }

    pub Steps-fail : (e : E) → Steps R (fail {A = A} e)
    Steps-fail e = record { at = order.reflexive }

    pub Steps-gets : (f : W → A) → Steps R (gets {E = E} f)
    Steps-gets f = record { at = order.reflexive }

    pub Steps-expect : (e : E) (o : Option A) → Steps R (expect {W = W} e o)
    Steps-expect e none = record { at = order.reflexive }
    Steps-expect e (some a) = record { at = order.reflexive }

    pub Steps-if :
        (b : Bool) (m n : Exec W E A) → Steps R m → Steps R n → Steps R (if b then m else n)
    Steps-if true m n sm sn = sm
    Steps-if false m n sm sn = sn

  module _ {E A B : Type ℓ} where
    pub Steps-bind :
        (m : Exec W E A) (f : A → Exec W E B)
        → Steps R m
        → ((a : A) → Steps R (f a))
        → Steps R (m >>= f)
    unfolding ◌>>=◌
    Steps-bind m f sm sf = record { at = λ w. along w (m w).0 (m w).1 (sm.at w) }
      where
        along : (w : W) (r : Result E A) (v : W) → R w v → R w (continue f r v).1
        along w (ok a) v s = order.transitive w v (f a v).1 s ((sf a).at v)
        along w (err e) v s = s

  module _ {E F A : Type ℓ} where
    pub Steps-map_error : (f : E → F) (m : Exec W E A) → Steps R m → Steps R (map_error f m)
    unfolding map_error
    Steps-map_error f m sm = record { at = λ w. along w (m w).0 (m w).1 (sm.at w) }
      where
        along : (w : W) (r : Result E A) (v : W) → R w v → R w (converted f r v).1
        along w (ok a) v s = s
        along w (err e) v s = s

    pub Steps-catch :
        (m : Exec W E A) (h : E → Exec W F A)
        → Steps R m
        → ((e : E) → Steps R (h e))
        → Steps R (catch m h)
    unfolding catch
    Steps-catch m h sm sh = record { at = λ w. along w (m w).0 (m w).1 (sm.at w) }
      where
        along : (w : W) (r : Result E A) (v : W) → R w v → R w (handled h r v).1
        along w (ok a) v s = s
        along w (err e) v s = order.transitive w v (h e v).1 s ((sh e).at v)
