-- ===== src/App/Locked/Rows.antt =====
-- What the writes of crates/db/src/repositories/users.rs keep of the rows and their keys.
use servcat.Prelude.{
  ◌≡◌, refl, sym, ◌∙◌, subst, ◌≢◌, Bool, true, false, not, ◌&&◌, Option-cases, inl, inr, List, [],
  ◌∷◌, All, arith, if◌then◌else◌,
}
use servcat.Model.User.{Uuid, User}
use servcat.Db.Table.{select, update_where, insert, is_taken, select-update_where, select-insert}
use servcat.App.Locked.{IsOther}

pub All-update :
    {A : Type 0} (P Q : A → Type 0) (p : A → Bool) (f : A → A) (rows : List A)
    → ((a : A) → P a → Q (if p a then f a else a))
    → All P rows
    → All Q (update_where p f rows)
unfolding update_where
All-update P Q p f [] change h = tt
All-update P Q p f (r ∷ rows) change h = (change r h.0, All-update P Q p f rows change h.1)

pub All-insert :
    {A : Type 0} (P : A → Type 0) (a : A) (rows : List A) → P a → All P rows → All P (insert a rows)
unfolding insert
All-insert P a [] pa h = (pa, tt)
All-insert P a (r ∷ rows) pa h = (h.0, All-insert P a rows pa h.1)

pub taken_insert :
    (id : Uuid) (u : User) (users : List User)
    → is_taken (λ u. u.id) id users ≡ true
    → is_taken (λ u. u.id) id (insert u users) ≡ true
taken_insert id u users h = elim (Option-cases (select (λ u. u.id) id users)) [
  | inl e ↦ ground (arith, h, e)
  | inr (v, e) ↦ rw (select-insert (λ u. u.id) u id users, e) refl
]

pub first_of : (a b c d e : Bool) → (not a && not b && not c && d && e) ≡ true → a ≡ false
first_of true b c d e h = cc
first_of false b c d e h = refl

pub fresh_other :
    (id : Uuid) (u : User) (users : List User)
    → is_taken (λ u. u.id) id users ≡ true
    → is_taken (λ u. u.id) u.id users ≡ false
    → u.id ≢ id
fresh_other id u users h k e =
    let other : is_taken (λ u. u.id) id users ≡ false =
      subst (λ j. is_taken (λ u. u.id) j users ≡ false) e k in
    cc

pub taken_update :
    (id : Uuid) (p : User → Bool) (f : User → User) (users : List User)
    → ((u : User) → (f u).id ≡ u.id)
    → is_taken (λ u. u.id) id users ≡ true
    → is_taken (λ u. u.id) id (update_where p f users) ≡ true
taken_update id p f users same h = elim (Option-cases (select (λ u. u.id) id users)) [
  | inl e ↦ ground (arith, h, e)
  | inr (v, e) ↦ rw (select-update_where (λ u. u.id) p f same id users, e) refl
]

pub IsOther-if :
    (id : Uuid) (b : Bool) (v u : User)
    → v.id ≡ u.id
    → v.is_active ≡ u.is_active
    → IsOther id u
    → IsOther id (if b then v else u)
IsOther-if id true v u e a other active = rw e (other (sym a ∙ active))
IsOther-if id false v u e a other active = other active
