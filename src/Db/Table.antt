-- ===== src/Db/Table.antt =====
-- The SQL statements that the repositories issue, over a table as the list of its rows.
use servcat.Prelude.{
  ◌==◌, ==_refl, ◌≡◌, ◌≢◌, refl, Bool, false, Option-cases, inl, inr, Option, none, some, List, [],
  ◌∷◌, ◌++◌, arith, if◌then◌else◌,
}
use servcat.Model.User.{Uuid}
use servcat.Map.{is_some}

module _ {ℓ} {A : Type ℓ} where
  -- `SELECT .. WHERE id = ?`
  unfoldable pub select : (A → Uuid) → Uuid → List A → Option A
  select key id [] = none
  select key id (r ∷ rows) = if key r == id then some r else select key id rows

  -- `UPDATE .. SET .. WHERE p`
  unfoldable pub update_where : (A → Bool) → (A → A) → List A → List A
  update_where p f [] = []
  update_where p f (r ∷ rows) = (if p r then f r else r) ∷ update_where p f rows

  -- An `INSERT` puts the row last.
  unfoldable pub insert : A → List A → List A
  insert r rows = rows ++ r ∷ []

  -- An update of the row as a test says, where a row is.
  abbrev pub updated : (A → Bool) → (A → A) → Option A → Option A
  updated p f none = none
  updated p f (some r) = some (if p r then f r else r)

  abbrev pub or_row : Option A → Option A → Option A
  or_row none o = o
  or_row (some r) o = some r

  pub select-key :
      (key : A → Uuid) (id : Uuid) (rows : List A) (r : A)
      → select key id rows ≡ some r
      → key r ≡ id
  unfolding select
  select-key key id [] r h = cc
  select-key key id (q ∷ rows) r h = ground (arith, select-key key id rows r)

  -- An update that keeps the keys updates the row that a select finds.
  pub select-update_where :
      (key : A → Uuid) (p : A → Bool) (f : A → A)
      → ((r : A) → key (f r) ≡ key r)
      → (id : Uuid) (rows : List A)
      → select key id (update_where p f rows) ≡ updated p f (select key id rows)
  unfolding select update_where
  select-update_where key p f same id [] = refl
  select-update_where key p f same id (r ∷ rows) =
      ground (arith, same r, select-update_where key p f same id rows)

  -- The update of one row reaches the row of that key.
  pub own_row :
      (key : A → Uuid) (id : Uuid) (f : A → A) (r : A)
      → key r ≡ id
      → updated (λ r. key r == id) f (some r) ≡ some (f r)
  own_row key id f r e = rw (e, ==_refl id) refl

  -- The update of one row leaves a row of another key alone.
  pub other_row :
      (key : A → Uuid) (id : Uuid) (f : A → A) (j : Uuid) (o : Option A)
      → ((r : A) → o ≡ some r → key r ≡ j)
      → id ≢ j
      → updated (λ r. key r == id) f o ≡ o
  other_row key id f j none at ne = refl
  other_row key id f j (some r) at ne = ground (arith, at r)

  pub select-insert :
      (key : A → Uuid) (r : A) (id : Uuid) (rows : List A)
      → select key id (insert r rows)
        ≡ or_row (select key id rows) (if key r == id then some r else none)
  unfolding select insert
  select-insert key r id [] = refl
  select-insert key r id (q ∷ rows) = ground (arith, select-insert key r id rows)

  -- A table of one row for each key: a key that is taken is refused.
  abbrev pub is_taken : (A → Uuid) → Uuid → List A → Bool
  is_taken key id rows = is_some (select key id rows)

-- A new row is the one that its key selects.
pub select-fresh :
    {A : Type 0} (key : A → Uuid) (r : A) (rows : List A)
    → is_taken key (key r) rows ≡ false
    → select key (key r) (insert r rows) ≡ some r
select-fresh key r rows h = elim (Option-cases (select key (key r) rows)) [
  | inl e ↦ rw (select-insert key r (key r) rows, e, ==_refl (key r)) refl
  | inr (q, e) ↦ ground (arith, h, e)
]
