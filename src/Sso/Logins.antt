-- ===== src/Sso/Logins.antt =====
-- A pending login is good for one callback (crates/server/src/sso.rs).
use package.text.Mathlib.TextPositions.{eq_refl}
use servcat.Prelude.{
  ℕ, String, ◌≡◌, refl, ◌∙◌, ap, Bool, Option-cases, inl, inr, Option, none, some, List, Result, ok,
  err, if◌then◌else◌,
}
use servcat.Map
use servcat.Map.{get, remove, retain, get-remove}
use servcat.Exec.{Exec, pure, fail, gets, expect, continue, ◌>>=◌}
use servcat.Exec.Steps.{
  Steps, IsPreorder, Steps-pure, Steps-fail, Steps-gets, Steps-expect, Steps-if, Steps-bind,
}
use servcat.Server.Error.{ApiError, bad_request}
use servcat.Sso.Service.{
  PendingLogin, Jwk, AuthenticatedIdentity, SsoService, Provider, pending_login_ttl, is_fresh,
  sweep_logins, take_login, claim_login, identity_of,
}
use servcat.Sso.Login.{
  exchange_code, next_request, cached_jwk, store_keys, refresh_jwks, key_or_refresh, signing_key,
  validate_id_token, complete_login,
}
use servcat.Sso.Handoff.{retain-none, later}

-- The pending logins are as before.
record Same (w v : SsoService) : Type 0 where
  pub logins : v.pending_logins ≡ w.pending_logins

Same-order : IsPreorder Same
Same-order = record {
  reflexive = λ w. record { logins = refl };
  transitive = λ u v w h k. record { logins = k.logins ∙ h.logins };
}

module _ {A : Type 0} where
  pure_rule : (a : A) → Steps Same (pure {E = ApiError} a)
  pure_rule a = Steps-pure Same-order a

  fail_rule : (e : ApiError) → Steps Same (fail {A = A} e)
  fail_rule e = Steps-fail Same-order e

  gets_rule : (f : SsoService → A) → Steps Same (gets {E = ApiError} f)
  gets_rule f = Steps-gets Same-order f

  expect_rule : (e : ApiError) (o : Option A) → Steps Same (expect {W = SsoService} e o)
  expect_rule e o = Steps-expect Same-order e o

  result_rule : (r : Result ApiError A) → Steps Same (λ w. (r, w))
  result_rule r = record { at = Same-order.reflexive }

  if_rule :
      (b : Bool) (m n : Exec SsoService ApiError A)
      → Steps Same m
      → Steps Same n
      → Steps Same (if b then m else n)
  if_rule b m n = Steps-if Same-order b m n

module _ {A B : Type 0} where
  bind_rule :
      (m : Exec SsoService ApiError A) (f : A → Exec SsoService ApiError B)
      → Steps Same m
      → ((a : A) → Steps Same (f a))
      → Steps Same (m >>= f)
  bind_rule m f = Steps-bind Same-order m f

ruleset same_rules = (pure_rule, fail_rule, gets_rule, expect_rule, result_rule, if_rule, bind_rule)

module _ (provider : Provider) where
  exchange-Same :
      (code : String) (pending : PendingLogin) → Steps Same (exchange_code provider code pending)
  unfolding exchange_code
  exchange-Same code pending = record { at = λ w. record { logins = refl } }

  count-Same : Steps Same next_request
  unfolding next_request
  count-Same = record { at = λ w. record { logins = refl } }

  store-Same : (o : Option (List Jwk)) → Steps Same (store_keys provider o)
  store-Same none = search same_rules
  store-Same (some keys) = record { at = λ w. record { logins = refl } }

  refresh-Same : Steps Same (refresh_jwks provider)
  unfolding refresh_jwks
  refresh-Same = search (same_rules, count-Same, store-Same)

  key-Same : (kid : String) (o : Option Jwk) → Steps Same (key_or_refresh provider kid o)
  unfolding cached_jwk
  key-Same kid none = search (same_rules, refresh-Same) depth 8
  key-Same kid (some jwk) = search same_rules

  validate-Same : (token : String) → Steps Same (validate_id_token provider token)
  unfolding validate_id_token signing_key cached_jwk
  validate-Same token = search (same_rules, key-Same) depth 8

  abbrev after_claim : String → PendingLogin → Exec SsoService ApiError AuthenticatedIdentity
  after_claim code pending = exchange_code provider code pending >>= λ token.
      validate_id_token provider token >>= λ claims. (λ w. (identity_of pending claims, w))

  after_claim-Same :
      (code : String) (pending : PendingLogin) → Steps Same (after_claim code pending)
  after_claim-Same code pending = search (same_rules, exchange-Same, validate-Same) depth 8

  unclaimed :
      (state : String) (w : SsoService)
      → Map.get (claim_login state w).1.pending_logins state ≡ none
  unfolding claim_login sweep_logins take_login ◌>>=◌
  unclaimed state w =
      let swept =
        Map.retain (λ p. is_fresh pending_login_ttl w.now p.created_at) w.pending_logins in
      let gone : Map.get (Map.remove swept state) state ≡ none =
        rw (get-remove swept state state, eq_refl state) refl in
      elim (Option-cases (Map.get swept state)) [ inl e ↦ rw e gone | inr (p, e) ↦ rw e gone ]

  continued :
      (code : String) (r : Result ApiError PendingLogin) (v : SsoService)
      → Same v (continue (after_claim code) r v).1
  continued code (ok p) v = (after_claim-Same code p).at v
  continued code (err e) v = Same-order.reflexive v

  used_up :
      (code state : String) (w : SsoService)
      → Map.get (complete_login provider code state w).1.pending_logins state ≡ none
  unfolding complete_login ◌>>=◌
  used_up code state w =
      ap (λ m. Map.get m state)
        (continued code (claim_login state w).0 (claim_login state w).1).logins
      ∙ unclaimed state w

  refused :
      (code state : String) (w : SsoService)
      → Map.get w.pending_logins state ≡ none
      → (complete_login provider code state w).0
        ≡ err (bad_request "sign-in session expired or invalid; please try again")
  unfolding complete_login claim_login sweep_logins take_login ◌>>=◌
  refused code state w h =
      rw (retain-none (λ p. is_fresh pending_login_ttl w.now p.created_at) w.pending_logins state h)
        refl

  -- A callback uses up the pending login of its state, whatever its result: a second callback with
  -- this state is refused as a bad request, however long is waited before it.
  pub complete_login_once :
      (code again state : String) (w : SsoService) (seconds : ℕ)
      → (complete_login provider again state
          (later seconds (complete_login provider code state w).1)).0
        ≡ err (bad_request "sign-in session expired or invalid; please try again")
  complete_login_once code again state w seconds =
      refused again state (later seconds (complete_login provider code state w).1)
        (used_up code state w)
