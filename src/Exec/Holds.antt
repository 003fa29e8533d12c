-- ===== src/Exec/Holds.antt =====
-- What an action keeps, and what holds of the result where it returns: one rule for each way to
-- build an action.
use servcat.Prelude.{
  ◌≡◌, refl, Bool, true, false, Option, none, some, Result, ok, err, if◌then◌else◌,
}
use servcat.Exec.{
  Exec, pure, fail, gets, expect, continue, ◌>>=◌, converted, map_error, handled, catch,
}

abbrev pub Returned {ℓ} : {E A : Type ℓ} → (A → Type ℓ) → Result E A → Type ℓ
Returned Q (ok a) = Q a
Returned Q (err e) = Unit

-- Every run from a state with `I` ends in a state with `I`, and a returned value has `Q`.
pub record Holds {ℓ} {W E A : Type ℓ} (I : W → Type ℓ) (Q : A → Type ℓ) (m : Exec W E A)
    : Type ℓ where
  pub at : (w : W) → I w → I (m w).1 × Returned Q (m w).0

module _ {ℓ} {W E A : Type ℓ} {I : W → Type ℓ} {Q : A → Type ℓ} where
  pub Holds-pure : (a : A) → Q a → Holds I Q (pure {E = E} a)
  Holds-pure a q = record { at = λ w i. (i, q) }

  pub Holds-fail : (e : E) → Holds I Q (fail {A = A} e)
  Holds-fail e = record { at = λ w i. (i, tt) }

  pub Holds-gets : (f : W → A) → ((w : W) → I w → Q (f w)) → Holds I Q (gets {E = E} f)
  Holds-gets f q = record { at = λ w i. (i, q w i) }

  pub Holds-expect :
      (e : E) (o : Option A) → ((a : A) → o ≡ some a → Q a) → Holds I Q (expect {W = W} e o)
  Holds-expect e none q = record { at = λ w i. (i, tt) }
  Holds-expect e (some a) q = record { at = λ w i. (i, q a refl) }

  pub Holds-if :
      (b : Bool) (m n : Exec W E A)
      → (b ≡ true → Holds I Q m)
      → (b ≡ false → Holds I Q n)
      → Holds I Q (if b then m else n)
  Holds-if true m n hm hn = hm refl
  Holds-if false m n hm hn = hn refl

module _ {ℓ} {W E A B : Type ℓ} {I : W → Type ℓ} {P : A → Type ℓ} {Q : B → Type ℓ} where
  pub Holds-bind :
      (m : Exec W E A) (f : A → Exec W E B)
      → Holds I P m
      → ((a : A) → P a → Holds I Q (f a))
      → Holds I Q (m >>= f)
  unfolding ◌>>=◌
  Holds-bind m f hm hf = record {
    at = λ w i. let (kept, p) = hm.at w i in along (m w).0 (m w).1 kept p;
  }
    where
      along :
          (r : Result E A) (v : W)
          → I v
          → Returned P r
          → I (continue f r v).1 × Returned Q (continue f r v).0
      along (ok a) v i p = (hf a p).at v i
      along (err e) v i p = (i, tt)

module _ {ℓ} {W E F A : Type ℓ} {I : W → Type ℓ} {Q : A → Type ℓ} where
  pub Holds-map_error : (f : E → F) (m : Exec W E A) → Holds I Q m → Holds I Q (map_error f m)
  unfolding map_error
  Holds-map_error f m hm = record {
    at = λ w i. let (kept, q) = hm.at w i in along (m w).0 (m w).1 kept q;
  }
    where
      along :
          (r : Result E A) (v : W)
          → I v
          → Returned Q r
          → I (converted f r v).1 × Returned Q (converted f r v).0
      along (ok a) v i q = (i, q)
      along (err e) v i q = (i, tt)

  pub Holds-catch :
      (m : Exec W E A) (h : E → Exec W F A)
      → Holds I Q m
      → ((e : E) → Holds I Q (h e))
      → Holds I Q (catch m h)
  unfolding catch
  Holds-catch m h hm hh = record {
    at = λ w i. let (kept, q) = hm.at w i in along (m w).0 (m w).1 kept q;
  }
    where
      along :
          (r : Result E A) (v : W)
          → I v
          → Returned Q r
          → I (handled h r v).1 × Returned Q (handled h r v).0
      along (ok a) v i q = (i, q)
      along (err e) v i q = (hh e).at v i

module _ {ℓ} {W E A : Type ℓ} {I : W → Type ℓ} {P Q : A → Type ℓ} where
  -- A weaker statement of the result.
  pub Holds-weaken : (m : Exec W E A) → Holds I P m → ((a : A) → P a → Q a) → Holds I Q m
  Holds-weaken m hm weaker = record {
    at = λ w i. let (kept, p) = hm.at w i in (kept, along (m w).0 p);
  }
    where
      along : (r : Result E A) → Returned P r → Returned Q r
      along (ok a) p = weaker a p
      along (err e) p = tt

-- An action of which only what it keeps matters.
abbrev pub Any {ℓ} : {A : Type ℓ} → A → Type ℓ
Any a = Unit

module _ {ℓ} {W E A : Type ℓ} {I : W → Type ℓ} where
  pub Holds-keeps : (m : Exec W E A) → ((w : W) → I w → I (m w).1) → Holds I Any m
  Holds-keeps m keep = record { at = λ w i. (keep w i, trivial (m w).0) }
    where
      trivial : (r : Result E A) → Returned Any r
      trivial (ok a) = tt
      trivial (err e) = tt

  -- An action that leaves the state as it is.
  pub Holds-still : (m : Exec W E A) → ((w : W) → (m w).1 ≡ w) → Holds I Any m
  Holds-still m same = Holds-keeps m (λ w i. rw (same w) i)

module _ {ℓ} {W E A B : Type ℓ} {I : W → Type ℓ} {Q : B → Type ℓ} where
  pub Holds-then :
      (m : Exec W E A) (f : A → Exec W E B)
      → Holds I Any m
      → ((a : A) → Holds I Q (f a))
      → Holds I Q (m >>= f)
  Holds-then m f hm hf = Holds-bind m f hm (λ a t. hf a)
