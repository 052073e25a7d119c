-- ===== src/Tables/Invitations/Frame.antt =====
-- The calls of `acceptInvitationTx` that write to users and identities only: they keep whatever does
-- not look at those tables.
use clinks.Prelude.{
  inl, inr, Bool, true, false, List, [], ◌∷◌, ◌++◌, Option, none, some, Bool-cases, Option-cases,
}
use clinks.Text.{Str, same}
use clinks.Errors.{validation, Err, Result}
use clinks.Validation.{valid_uuid}
use clinks.Exec.{require_that, pure, lift, Keeps, >>=-Keeps, require_that-Keeps}
use clinks.Sql.{any_where, first_where, update_where}
use clinks.Domain.{global_user, User, ExternalIdentity}
use clinks.Tables.{UserRow, rotated, Tables}
use clinks.Tables.Users.{insert_user, insert_identity, rotate, at_id, taken}
use clinks.Tables.Invitations.{
  stored_user, existing_identity, new_identity, accept_identity, link_identity, rotate_existing,
  rotation_failed,
}

module _ (P : Tables → Type 0)
    (blind : (db : Tables) (us : List UserRow) → P db → P (record db { users = us })) where
  insert_user-blind : (user : User) (hash : Option Str) → Keeps P (insert_user user hash)
  unfolding insert_user
  insert_user-blind user hash = record {
    keeps = λ db p. elim (Bool-cases (any_where (λ u. same u.user.email user.email) db.users)) [
      | inl t ↦ rw t p
      | inr f ↦ rw f (blind db (db.users ++ (record { user = user; password_hash = hash }) ∷ []) p)
    ];
  }

  rotate-blind : (missing : Err) (id : Str) → Keeps P (rotate missing id)
  unfolding rotate
  rotate-blind missing id = record {
    keeps = λ db p. elim (Option-cases (first_where (at_id id) db.users)) [
      | inl n ↦ rw (n, rotate) p
      | inr (row, e) ↦ rw (e, rotate) (blind db (update_where (at_id id) rotated db.users) p)
    ];
  }

  existing_identity-blind : (user : User) → Keeps P (existing_identity user)
  unfolding existing_identity
  existing_identity-blind user =
      >>=-Keeps P (require_that (valid_uuid user.id) validation)
        (λ u db. (stored_user user (first_where (at_id user.id) db.users), db))
        (require_that-Keeps P _ _) (λ u. record { keeps = λ db p. p })

  new_identity-blind :
      (user : User) (hash : Str) (uuid : Result Str) → Keeps P (new_identity user hash uuid)
  unfolding new_identity
  new_identity-blind user hash uuid =
      >>=-Keeps P (lift uuid) _ (record { keeps = λ db p. p })
        (λ id.
          let user' : User = record user { id = id; global_role = global_user } in
          >>=-Keeps P _ (λ u. pure user') (insert_user-blind user' _)
            (λ u. record { keeps = λ db p. p }))

  pub accept_identity-blind :
      (user : User) (hash : Str) (existing : Bool) (uuid : Result Str)
      → Keeps P (accept_identity user hash existing uuid)
  unfolding accept_identity
  accept_identity-blind user hash true uuid = existing_identity-blind user
  accept_identity-blind user hash false uuid = new_identity-blind user hash uuid

  pub rotate_existing-blind :
      (existing : Bool) (user : User) → Keeps P (rotate_existing existing user)
  unfolding rotate_existing
  rotate_existing-blind false user = record { keeps = λ db p. p }
  rotate_existing-blind true user =
      >>=-Keeps P _ (λ row. pure (record user { session_version = row.session_version }))
        (rotate-blind rotation_failed user.id) (λ row. record { keeps = λ db p. p })

module _ (P : Tables → Type 0)
    (blind : (db : Tables) (is : List ExternalIdentity)
      → P db
      → P (record db { identities = is })) where
  insert_identity-blind :
      (id : Str) (identity : ExternalIdentity) → Keeps P (insert_identity id identity)
  unfolding insert_identity
  insert_identity-blind id identity = record {
    keeps = λ db p.
        let row : ExternalIdentity = record identity { user_id = id } in
        elim (Bool-cases (any_where (taken row) db.identities)) [
          | inl t ↦ rw t p
          | inr f ↦ rw f (blind db (db.identities ++ row ∷ []) p)
        ];
  }

  pub link_identity-blind :
      (user : User) (o : Option ExternalIdentity) → Keeps P (link_identity user o)
  unfolding link_identity
  link_identity-blind user none = record { keeps = λ db p. p }
  link_identity-blind user (some identity) =
      >>=-Keeps P _ _ (require_that-Keeps P _ _) (λ u. insert_identity-blind user.id identity)
