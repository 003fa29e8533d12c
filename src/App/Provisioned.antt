-- ===== src/App/Provisioned.antt =====
-- The account behind a single sign-on, on every branch (crates/server/src/routes/sso.rs,
-- crates/db/src/repositories/users.rs).
use servcat.Prelude.{
  ◌+◌, ◌==◌, String, ◌≡◌, ◌≢◌, refl, ap, ◌∙◌, Bool, true, false, not, ◌&&◌, Bool-cases,
  Option-cases, inl, inr, Option, none, some, List, [], ◌∷◌, any, find, ok, err, Result, arith,
  if◌then◌else◌,
}
use servcat.Model.User.{Uuid, requester, User}
use servcat.Exec.{◌>>=◌, map_error}
use servcat.Db.Table.{
  select, insert, is_taken, select-key, select-update_where, select-fresh, update_where, updated,
  own_row, other_row,
}
use servcat.Db.World.{new_v4}
use servcat.Server.Error.{ApiError, internal, from_db}
use servcat.Sso.Service.{AuthenticatedIdentity}
use servcat.App.State.{AppState, Setup, on_world, db}
use servcat.App.Users
use servcat.App.Users.{subject_is, is_subject_taken, refers, touched, update_user, linked}
use servcat.App.Accounts.{other_subject, new_requester, link, provision_or_link_user}

any-none : {A : Type 0} (p : A → Bool) (rows : List A) → find p rows ≡ none → any p rows ≡ false
any-none p [] h = refl
any-none p (r ∷ rows) h = ground (arith, any-none p rows)

any_and-none :
    {A : Type 0} (p q : A → Bool) (rows : List A)
    → find p rows ≡ none
    → any (λ a. p a && q a) rows ≡ false
any_and-none p q [] h = refl
any_and-none p q (r ∷ rows) h = ground (arith, any_and-none p q rows)

-- Whoever is found has a row under the key.
select-find :
    (p : User → Bool) (users : List User) (u : User)
    → find p users ≡ some u
    → (r : User) × (select (λ v. v.id) u.id users ≡ some r)
unfolding select
select-find p [] u h = cc
select-find p (v ∷ users) u h = elim (Bool-cases (v.id == u.id)) [
  | inl e ↦ (v, rw e refl)
  | inr e ↦ let (r, k) = select-find p users u (later_found (p v) v u users e h) in (r, rw e k)
]
  where
    later_found :
        (b : Bool) (v u : User) (users : List User)
        → (v.id == u.id) ≡ false
        → (if b then some v else find p users) ≡ some u
        → find p users ≡ some u
    later_found true v u users e h = ground arith
    later_found false v u users e h = h

module _ {V : Type 0} (setup : Setup) (identity : AuthenticatedIdentity) (s : AppState V) where
  abbrev pub by_subject : Option User
  by_subject =
      find (λ u. subject_is setup.same_text identity.external_idp_subject u.external_idp_subject)
        s.world.users

  abbrev pub by_email : Option User
  by_email = find (λ u. setup.same_text u.email identity.email) s.world.users

  abbrev pub fresh_id : Uuid
  fresh_id = s.world.uuids s.world.drawn

  -- The account of a new requester.
  abbrev pub new_account : User
  new_account = record {
    id = fresh_id;
    email = identity.email;
    display_name = identity.display_name;
    password_hash = none;
    external_idp_subject = some identity.external_idp_subject;
    department_id = none;
    manager_user_id = none;
    role = requester;
    is_active = true;
    created_at = s.world.now;
    updated_at = s.world.now;
  }

  abbrev pub drawn_state : AppState V
  drawn_state = record s { world = record s.world { drawn = s.world.drawn + 1 } }

  abbrev pub created_state : AppState V
  created_state = record s {
    world = record s.world { drawn = s.world.drawn + 1; users = insert new_account s.world.users };
  }

  -- `u` is `r` with this subject; the time of its update follows where a column has changed.
  pub record IsLinked (r u : User) : Type 0 where
    pub row : u ≡ record r {
      external_idp_subject = some identity.external_idp_subject;
      updated_at =
          if setup.users_differ r
            (record r { external_idp_subject = some identity.external_idp_subject })
          then s.world.now
          else r.updated_at;
    }

  -- The row of one user is replaced, and nothing else changes.
  pub record Replaces (id : Uuid) (u : User) (t : AppState V) : Type 0 where
    pub written : select (λ v. v.id) id t.world.users ≡ some u
    pub others :
        (j : Uuid)
        → id ≢ j
        → select (λ v. v.id) j t.world.users ≡ select (λ v. v.id) j s.world.users
    pub rest : t ≡ record s { world = record s.world { users = t.world.users } }

  pub data Provisioned : Result ApiError User × AppState V → Type 0 where
    known : {u : User} → by_subject ≡ some u → Provisioned (ok u, s)
    other_method :
        {u : User} {subject : String}
        → by_subject ≡ none
        → by_email ≡ some u
        → u.external_idp_subject ≡ some subject
        → Provisioned (err other_subject, s)
    links :
        {u r q : User} {t : AppState V}
        → by_subject ≡ none
        → by_email ≡ some u
        → u.external_idp_subject ≡ none
        → select (λ v. v.id) u.id s.world.users ≡ some r
        → IsLinked r q
        → Replaces u.id q t
        → Provisioned (ok q, t)
    creates :
        by_subject ≡ none
        → by_email ≡ none
        → is_taken (λ u. u.id) fresh_id s.world.users ≡ false
        → Provisioned (ok new_account, created_state)
    clashes :
        by_subject ≡ none
        → by_email ≡ none
        → is_taken (λ u. u.id) fresh_id s.world.users ≡ true
        → Provisioned (err internal, drawn_state)

  -- The row that `link_external_idp_subject` writes.
  abbrev linked_row : User → User
  linked_row = touched setup (linked identity.external_idp_subject) s.world.now

  select-linked :
      (id : Uuid) (j : Uuid)
      → select (λ v. v.id) j (update_where (λ v. v.id == id) linked_row s.world.users)
        ≡ updated (λ v. v.id == id) linked_row (select (λ v. v.id) j s.world.users)
  select-linked id j =
      select-update_where (λ v. v.id) (λ v. v.id == id) linked_row (λ v. unfold linked in refl) j
        s.world.users

  select-linked_own :
      (id : Uuid) (r : User)
      → select (λ v. v.id) id s.world.users ≡ some r
      → select (λ v. v.id) id (update_where (λ v. v.id == id) linked_row s.world.users)
        ≡ some (linked_row r)
  select-linked_own id r found =
      select-linked id id
      ∙ ap (updated (λ v. v.id == id) linked_row) found
      ∙ own_row (λ v. v.id) id linked_row r (select-key (λ v. v.id) id s.world.users r found)

  linked_row-IsLinked : (r : User) → IsLinked r (linked_row r)
  unfolding linked
  linked_row-IsLinked r = record { row = refl }

  links_only :
      (id : Uuid) (r : User)
      → select (λ v. v.id) id s.world.users ≡ some r
      → Replaces id (linked_row r) (update_user setup id (linked identity.external_idp_subject) s)
  links_only id r found = record {
    written = select-linked_own id r found;
    others = λ j ne.
        select-linked id j
        ∙ other_row (λ v. v.id) id linked_row j (select (λ v. v.id) j s.world.users)
            (select-key (λ v. v.id) j s.world.users) ne;
    rest = refl;
  }

  create_account :
      by_subject ≡ none
      → by_email ≡ none
      → Provisioned (db setup (Users.create setup (new_requester identity) none) s)
  unfolding Users.create Users.insert_row Users.get_by_id on_world new_v4 ◌>>=◌ map_error from_db
  create_account no_subject no_email =
      elim (Bool-cases (is_taken (λ u. u.id) fresh_id s.world.users)) [
        | inl c ↦ rw c (clashes no_subject no_email c)
        | inr c ↦
            rw
              (
                c,
                any-none (λ u. setup.same_text u.email identity.email) s.world.users no_email,
                any-none
                    (λ u.
                      subject_is setup.same_text identity.external_idp_subject
                        u.external_idp_subject)
                    s.world.users no_subject,
                select-fresh (λ u. u.id) new_account s.world.users c,
              )
              (creates no_subject no_email c)
      ]

  link_account :
      (u : User) (o : Option String)
      → u.external_idp_subject ≡ o
      → by_subject ≡ none
      → by_email ≡ some u
      → Provisioned (link setup u identity.external_idp_subject s)
  unfolding Users.link_external_idp_subject Users.write_subject Users.get_by_id ◌>>=◌ map_error
  link_account u (some subject) e no_subject found = rw e (other_method no_subject found e)
  link_account u none e no_subject found =
      let (r, row) = select-find _ s.world.users u found in
      rw
        (
          e,
          any_and-none
              (λ v. subject_is setup.same_text identity.external_idp_subject v.external_idp_subject)
              (λ v. not (v.id == u.id)) s.world.users no_subject,
          row,
        )
        (rw (select-linked_own u.id r row)
          (links no_subject found e row (linked_row-IsLinked r) (links_only u.id r row)))

  -- `provision_or_link_user` returns the account that has the subject. Without one, the account
  -- with the address is refused as a conflict if it has another subject, and otherwise gets this
  -- subject in its row, where the time of the update follows if a column changes; no other user and
  -- nothing else changes. Without either, a new active requester is stored with the address, the
  -- name and the subject, or the database fails on a UUID that is taken.
  pub provision_or_link_user_lem : Provisioned (provision_or_link_user setup identity s)
  unfolding provision_or_link_user Users.get_by_external_idp_subject Users.get_by_email ◌>>=◌
      map_error
  provision_or_link_user_lem = elim (Option-cases by_subject) [
    | inr (u, e) ↦ rw e (known e)
    | inl e ↦ elim (Option-cases by_email) [
      | inr (u, k) ↦ rw (e, k) (link_account u u.external_idp_subject refl e k)
      | inl k ↦ rw (e, k) (create_account e k)
    ]
  ]
