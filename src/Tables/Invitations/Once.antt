-- ===== src/Tables/Invitations/Once.antt =====
-- No invitation is accepted twice, whatever is written in between.
use clinks.Prelude.{
  ◌≡◌, ◌≤◌, ◌⊎◌, refl, inl, inr, true, false, List, [], ◌∷◌, none, is_some, arith, Bool-cases,
  Option-cases,
}
use clinks.Text.{Str, is_empty}
use clinks.Errors.{Result, Err, ok, err, domain, invitation_used, invitation_invalid}
use clinks.Sql.{any_where, count_where, first_where}
use clinks.Sql.Rows.{first_where-passes, any_where-first_where}
use clinks.Domain.{User, Membership, Invitation}
use clinks.Tables.{Tables}
use clinks.Tables.Invitations.{
  InvitationAcceptance, Uuids, accept, accept_invitation_tx, locked_invitation, has_hash,
  usable_now, by_hash,
}
use clinks.Tables.Invitations.Settled.{accept-Settled}
use clinks.Tables.Invitations.Spent.{Writes, fresh, Spent, hash_given, Settled-Spent, Writes-Spent}

-- How an acceptance is refused: as used while a row has the hash, and as invalid when none has any more.
-- It changes nothing.
abbrev pub Refused : Str → Tables → Result (User × Membership) × Tables → Type 0
Refused hash db answer =
    ((any_where (has_hash hash) db.invitations ≡ true)
      × (answer ≡ (err (domain invitation_used), db)))
    ⊎ ((any_where (has_hash hash) db.invitations ≡ false)
        × (answer ≡ (err (domain invitation_invalid), db)))

first_where-none :
    (hash : Str) (rows : List Invitation)
    → first_where (has_hash hash) rows ≡ none
    → any_where (has_hash hash) rows ≡ false
first_where-none hash [] h = refl
first_where-none hash (x ∷ xs) h = elim (Bool-cases (has_hash hash x)) [
  | inl t ↦ absurd (ground arith)
  | inr n ↦ ground (arith, first_where-none hash xs)
]

locked_refused :
    (acceptance : InvitationAcceptance) (uuids : Uuids) (db : Tables) (e : Err)
    → usable_now db.now (by_hash acceptance.invitation.token_hash db) ≡ err e
    → accept acceptance uuids db ≡ (err e, db)
unfolding accept accept_invitation_tx locked_invitation
locked_refused acceptance uuids db e h = ground (arith, h)

Spent-Refused :
    (again : InvitationAcceptance) (uuids : Uuids) (db : Tables)
    → is_empty again.invitation.token_hash ≡ false
    → Spent again.invitation.token_hash db.invitations
    → Refused again.invitation.token_hash db (accept again uuids db)
Spent-Refused again uuids db ne s =
    let hash = again.invitation.token_hash in
    elim (Option-cases (first_where (has_hash hash) db.invitations)) [
      | inl n ↦ inr (
        first_where-none hash db.invitations n,
        locked_refused again uuids db (domain invitation_invalid) (rw (ne, n) refl),
      )
      | inr (row, e) ↦
          let has = first_where-passes (has_hash hash) db.invitations row e in
          let there =
            any_where-first_where (has_hash hash) (has_hash hash) db.invitations row e has in
          elim (Bool-cases (is_some row.used_at)) [
            | inr n ↦
                let yes : fresh hash row ≡ true = rw (has, n) refl in
                let some_fresh =
                  any_where-first_where (has_hash hash) (fresh hash) db.invitations row e yes in
                absurd (ground arith)
            | inl u ↦
                inl (
                  there,
                  locked_refused again uuids db (domain invitation_used) (rw (ne, e, u) refl),
                )
          ]
    ]

-- After an invitation whose hash no other has was accepted, and after any writes since, of which none
-- inserts an invitation with that hash, nobody can accept it again, by whichever of the two ways: the
-- call is refused, as used while a row has the hash and as invalid once it was anonymized, and changes
-- nothing.
pub accept_once :
    (acceptance again : InvitationAcceptance) (uuids uuids' : Uuids) (before after later : Tables)
    (user : User) (membership : Membership)
    → count_where (has_hash acceptance.invitation.token_hash) before.invitations ≤ 1
    → accept acceptance uuids before ≡ (ok (user, membership), after)
    → Writes acceptance.invitation.token_hash after later
    → again.invitation.token_hash ≡ acceptance.invitation.token_hash
    → Refused again.invitation.token_hash later (accept again uuids' later)
accept_once acceptance again uuids uuids' before after later user membership u h ws e =
    let hash = acceptance.invitation.token_hash in
    let email = acceptance.user.email in
    let a = accept-Settled acceptance uuids before after user membership h in
    let ne = hash_given hash email before user after a in
    let s = Writes-Spent hash ne (Settled-Spent hash email before user after a u) ws in
    Spent-Refused again uuids' later (rw e ne) (rw e s)
