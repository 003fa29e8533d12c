-- ===== src/History/Rows.antt =====
-- One table over time: every row stays under its key, and changes as a relation allows.
use servcat.Prelude.{◌≡◌, Bool, true, Bool-cases, inl, inr, some, List}
use servcat.Model.User.{Uuid}
use servcat.Db.Table.{select, update_where, insert, updated, select-update_where, select-insert}

module _ {A : Type 0} where
  pub record RowsEvolve (key : A → Uuid) (L : A → A → Type 0) (rows later : List A) : Type 0 where
    pub at :
        (id : Uuid) (a : A)
        → select key id rows ≡ some a
        → (b : A) × (select key id later ≡ some b) × L a b

  module _ (key : A → Uuid) (L : A → A → Type 0) (L-refl : (a : A) → L a a) where
    pub RowsEvolve-refl : (rows : List A) → RowsEvolve key L rows rows
    RowsEvolve-refl rows = record { at = λ id a h. (a, h, L-refl a) }

    pub RowsEvolve-insert : (r : A) (rows : List A) → RowsEvolve key L rows (insert r rows)
    RowsEvolve-insert r rows = record { at = λ id a h. (a, rw (select-insert, h), L-refl a) }

    updated-row :
        (p : A → Bool) (f : A → A)
        → ((a : A) → p a ≡ true → L a (f a))
        → (a : A) → (b : A) × (updated p f (some a) ≡ some b) × L a b
    updated-row p f keeps a = elim (Bool-cases (p a)) [
      | inl yes_p ↦ (f a, rw yes_p, keeps a yes_p)
      | inr no_p ↦ (a, rw no_p, L-refl a)
    ]

    pub RowsEvolve-update_where :
        (p : A → Bool) (f : A → A)
        → ((a : A) → key (f a) ≡ key a)
        → ((a : A) → p a ≡ true → L a (f a))
        → (rows : List A) → RowsEvolve key L rows (update_where p f rows)
    RowsEvolve-update_where p f same keeps rows = record {
      at = λ id a h. rw (select-update_where key p f same id rows, h) (updated-row p f keeps a);
    }

  pub RowsEvolve-trans :
      (key : A → Uuid) (L : A → A → Type 0)
      → ((a b c : A) → L a b → L b c → L a c)
      → (r s t : List A) → RowsEvolve key L r s
      → RowsEvolve key L s t
      → RowsEvolve key L r t
  RowsEvolve-trans key L L-trans r s t rs st = record {
    at = λ id a h.
        let (b, hb, ab) = rs.at id a h in
        let (c, hc, bc) = st.at id b hb in (c, hc, L-trans a b c ab bc);
  }
