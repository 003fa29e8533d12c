-- ===== src/Sso/Handoff.antt =====
-- Handoff codes live for a minute and are good for one use (crates/server/src/sso.rs).
use package.text.Mathlib.TextEquality.{eq_iff}
use package.text.Mathlib.TextPositions.{eq_refl}
use servcat.Prelude.{
  ℕ, ◌+◌, ◌-◌, String, ◌=ₛ◌, ◌≡◌, refl, ◌∙◌, subst, Bool, Bool-cases, inl, inr, Option, none, some,
  [], ◌∷◌, ok, err, ltb, arith, if◌then◌else◌,
}
use servcat.Map
use servcat.Map.{Map, get, insert, remove, retain, get-insert, get-insert_self, get-remove}
use servcat.Model.User.{Uuid}
use servcat.Exec.{◌>>=◌}
use servcat.Server.Error.{unauthorized}
use servcat.Sso.Service.{
  HandoffCode, SsoService, random_token, is_fresh, sweep_codes, issue_handoff_code, take_code,
  redeem_handoff_code, handoff_code_ttl,
}

module _ {V : Type 0} where
  -- No key stands twice, as in a hash map.
  abbrev pub IsKeyed : Map V → Type 0
  IsKeyed [] = Unit {0}
  IsKeyed ((k, v) ∷ m) = (Map.get m k ≡ none) × IsKeyed m

  -- The value of a key, if it passes a test.
  abbrev pub passing : (V → Bool) → Option V → Option V
  passing p none = none
  passing p (some v) = if p v then some v else none

  pub retain-none :
      (p : V → Bool) (m : Map V) (k : String)
      → Map.get m k ≡ none
      → Map.get (Map.retain p m) k ≡ none
  unfolding get retain
  retain-none p [] k h = refl
  retain-none p ((j, w) ∷ m) k h = ground (arith, retain-none p m k)

  pub get-retain :
      (p : V → Bool) (m : Map V) (k : String)
      → IsKeyed m
      → Map.get (Map.retain p m) k ≡ passing p (Map.get m k)
  unfolding get retain
  get-retain p [] k h = refl
  get-retain p ((j, w) ∷ m) k h = elim (Bool-cases (j =ₛ k)) [
    | inl same ↦
        let absent : Map.get m k ≡ none =
          subst (λ x. Map.get m x ≡ none) ((eq_iff j k).0 same) h.0 in
        ground (arith, retain-none p m k absent)
    | inr other ↦ ground (arith, get-retain p m k h.1)
  ]

  retain-IsKeyed : (p : V → Bool) (m : Map V) → IsKeyed m → IsKeyed (Map.retain p m)
  unfolding retain
  retain-IsKeyed p [] h = tt
  retain-IsKeyed p ((j, w) ∷ m) h = elim (Bool-cases (p w)) [
    | inl e ↦ rw e (retain-none p m j h.0, retain-IsKeyed p m h.1)
    | inr e ↦ rw e (retain-IsKeyed p m h.1)
  ]

  insert-IsKeyed : (m : Map V) (k : String) (v : V) → IsKeyed m → IsKeyed (Map.insert m k v)
  unfolding insert
  insert-IsKeyed [] k v h = (unfold get in refl, tt)
  insert-IsKeyed ((j, w) ∷ m) k v h = elim (Bool-cases (j =ₛ k)) [
    | inl e ↦ rw e (subst (λ x. Map.get m x ≡ none) ((eq_iff j k).0 e) h.0, h.1)
    | inr e ↦
        rw e (ground (arith, get-insert m k j v, eq_iff k j, eq_iff j k), insert-IsKeyed m k v h.1)
  ]

-- Some seconds later.
abbrev pub later : ℕ → SsoService → SsoService
later seconds w = record w { now = w.now + seconds }

abbrev fresh : ℕ → HandoffCode → Bool
fresh now c = is_fresh handoff_code_ttl now c.created_at

redeem-absent :
    (code : String) (w : SsoService)
    → Map.get w.handoff_codes code ≡ none
    → (redeem_handoff_code code w).0 ≡ err unauthorized
unfolding redeem_handoff_code sweep_codes take_code ◌>>=◌
redeem-absent code w h = rw (retain-none (fresh w.now) w.handoff_codes code h) refl

redeem-present :
    (code : String) (w : SsoService) (c : HandoffCode)
    → IsKeyed w.handoff_codes
    → Map.get w.handoff_codes code ≡ some c
    → ((redeem_handoff_code code w).0 ≡ (if fresh w.now c then ok c.user_id else err unauthorized))
      × (Map.get (redeem_handoff_code code w).1.handoff_codes code ≡ none)
unfolding redeem_handoff_code sweep_codes take_code ◌>>=◌
redeem-present code w c keyed h =
    let kept = get-retain (fresh w.now) w.handoff_codes code keyed in
    elim (Bool-cases (fresh w.now c)) [
      | inl e ↦ rw (kept, h, e) (refl, removed)
      | inr e ↦ rw (kept, h, e) (refl, removed)
    ]
  where
    removed : Map.get (Map.remove (Map.retain (fresh w.now) w.handoff_codes) code) code ≡ none
    removed =
        rw (get-remove (Map.retain (fresh w.now) w.handoff_codes) code code, eq_refl code) refl

-- A handoff code is redeemed for the user that it was issued for, if less than a minute has passed
-- since, and is refused as unauthorized otherwise. A second redemption is refused, however long is
-- waited before it. No code stands twice in the map of codes at first.
pub handoff_code_lem :
    (user : Uuid) (w : SsoService) (seconds more : ℕ)
    → IsKeyed w.handoff_codes
    → let code = w.tokens w.drawn in
      let v = later seconds (issue_handoff_code user w).1 in
      ((issue_handoff_code user w).0 ≡ ok code)
      × ((redeem_handoff_code code v).0
          ≡ (if ltb seconds handoff_code_ttl then ok user else err unauthorized))
      × ((redeem_handoff_code code (later more (redeem_handoff_code code v).1)).0
          ≡ err unauthorized)
unfolding issue_handoff_code random_token sweep_codes ◌>>=◌
handoff_code_lem user w seconds more keyed =
    let code = w.tokens w.drawn in
    let c : HandoffCode = record { user_id = user; created_at = w.now } in
    let codes = Map.insert (Map.retain (fresh w.now) w.handoff_codes) code c in
    let first =
      redeem-present code (later seconds (issue_handoff_code user w).1) c
        (insert-IsKeyed (Map.retain (fresh w.now) w.handoff_codes) code c
          (retain-IsKeyed (fresh w.now) w.handoff_codes keyed))
        (get-insert_self (Map.retain (fresh w.now) w.handoff_codes) code c) in
    let elapsed : w.now + seconds - w.now ≡ seconds = omega arith in
    (
      refl,
      first.0 ∙ unfold is_fresh in rw elapsed refl,
      redeem-absent code
          (later more (redeem_handoff_code code (later seconds (issue_handoff_code user w).1)).1)
          first.1,
    )
