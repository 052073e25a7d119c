-- ===== src/Tables/Invitations/Spent.antt =====
-- What writes leave of an invitation that was accepted.
use clinks.Prelude.{
  ◌≡◌, ◌≤◌, refl, inl, inr, ℕ, Bool, true, false, ◌&&◌, List, [], ◌∷◌, ◌++◌, some, is_some, not,
  arith, Bool-cases, Option-cases, if_either, if◌then◌else◌,
}
use clinks.Text.{Str, same, is_empty, same_refl}
use clinks.Errors.{Err, ok, err, Result-cases}
use clinks.Sql.{any_where, count_where, first_where, update_where}
use clinks.Sql.Rows.{transaction-rolled_back}
use clinks.Domain.{User, Invitation}
use clinks.Tables.{Tables}
use clinks.Tables.Invitations.{
  InvitationAcceptance, Uuids, accept, accept_invitation_tx, unused, used_row, has_hash,
}
use clinks.Tables.Invitations.Expiry.{anonymize_expired_invitations, expired, anonymized}
use clinks.Tables.Invitations.Settled.{Settled, accept-Settled}

-- One write of the program, as far as it concerns invitations. `elsewhere` is any write to other tables,
-- and the time that passes; `edits` is an update of other columns than the hash and `used_at`, such as
-- a revocation or the status of a delivery; `invites` is the insertion of an invitation whose hash is
-- another, as that of another random token is.
pub data Write (hash : Str) (db : Tables) : Tables → Type 0 where
  elsewhere : (db' : Tables) → db'.invitations ≡ db.invitations → Write hash db db'
  accepts :
      (acceptance : InvitationAcceptance) (uuids : Uuids)
      → Write hash db (accept acceptance uuids db).1
  anonymizes : (before : ℕ) → Write hash db (anonymize_expired_invitations before db).1
  edits :
      (p : Invitation → Bool) (f : Invitation → Invitation)
      → ((row : Invitation) → (f row).token_hash ≡ row.token_hash)
      → ((row : Invitation) → (f row).used_at ≡ row.used_at)
      → Write hash db (record db { invitations = update_where p f db.invitations })
  invites :
      (row : Invitation)
      → same row.token_hash hash ≡ false
      → Write hash db (record db { invitations = db.invitations ++ row ∷ [] })

-- Any number of them, one after the other.
pub data Writes (hash : Str) (start : Tables) : Tables → Type 0 where
  here : Writes hash start start
  next : {db db' : Tables} → Writes hash start db → Write hash db db' → Writes hash start db'

-- An invitation with the hash that could still be used.
abbrev pub fresh : Str → Invitation → Bool
fresh hash row = same row.token_hash hash && not (is_some row.used_at)

abbrev pub Spent : Str → List Invitation → Type 0
Spent hash rows = any_where (fresh hash) rows ≡ false

Spent-update :
    (hash : Str) (p : Invitation → Bool) (f : Invitation → Invitation) (rows : List Invitation)
    → ((row : Invitation) → fresh hash row ≡ false → fresh hash (f row) ≡ false)
    → Spent hash rows
    → Spent hash (update_where p f rows)
Spent-update hash p f [] s h = refl
Spent-update hash p f (x ∷ xs) s h =
    let later = Spent-update hash p f xs s (ground arith) in
    let old : fresh hash x ≡ false = ground arith in
    let changed : fresh hash (if p x then f x else x) ≡ false =
      if_either (λ y. fresh hash y ≡ false) (p x) (s x old) old in
    rw (changed, later) refl

Spent-append :
    (hash : Str) (row : Invitation) (rows : List Invitation)
    → same row.token_hash hash ≡ false
    → Spent hash rows
    → Spent hash (rows ++ row ∷ [])
Spent-append hash row [] n h = rw n refl
Spent-append hash row (x ∷ xs) n h = ground (arith, Spent-append hash row xs n)

absent-Spent :
    (hash : Str) (rows : List Invitation) → count_where (has_hash hash) rows ≡ 0 → Spent hash rows
absent-Spent hash [] h = refl
absent-Spent hash (x ∷ xs) h = elim (Bool-cases (has_hash hash x)) [
  | inl e ↦ absurd (ground arith)
  | inr n ↦ ground (arith, absent-Spent hash xs)
]

used-Spent :
    (hash id : Str) (now : ℕ) (rows : List Invitation) (row : Invitation)
    → count_where (has_hash hash) rows ≤ 1
    → first_where (has_hash hash) rows ≡ some row
    → unused id row ≡ true
    → Spent hash (update_where (unused id) (used_row now) rows)
used-Spent hash id now [] row u e h = refl
used-Spent hash id now (x ∷ xs) row u e h = elim (Bool-cases (has_hash hash x)) [
  | inr n ↦
      let later = used-Spent hash id now xs row (ground arith) (ground arith) h in
      elim (Bool-cases (unused id x)) [
        | inl k ↦ ground (arith, later)
        | inr k ↦ ground (arith, later)
      ]
  | inl t ↦
      let same_row : x ≡ row = ground arith in
      let usable : unused id x ≡ true = rw same_row h in
      let none_later : count_where (has_hash hash) xs ≡ 0 = ground arith in
      let later =
        Spent-update hash (unused id) (used_row now) xs (λ y k. ground arith)
          (absent-Spent hash xs none_later) in
      ground (arith, later, usable)
]

module _ (hash email : Str) (before : Tables) (user : User) (after : Tables)
    (a : Settled hash email before user after) where
  pub hash_given : is_empty hash ≡ false
  hash_given = elim (Bool-cases (is_empty hash)) [
    | inl e ↦ absurd (ground (arith, a.was_usable))
    | inr ne ↦ ne
  ]

  pub Settled-Spent :
      count_where (has_hash hash) before.invitations ≤ 1 → Spent hash after.invitations
  Settled-Spent u = elim (Option-cases (first_where (has_hash hash) before.invitations)) [
    | inl n ↦ absurd (ground (arith, a.was_usable, hash_given))
    | inr (row, e) ↦
        let usable : unused a.invitation.id row ≡ true =
          ground (arith, a.was_usable, hash_given, same_refl row.id) in
        rw a.is_used (used-Spent hash a.invitation.id before.now before.invitations row u e usable)
  ]

null_other :
    (hash : Str) (row : Invitation) → is_empty hash ≡ false → fresh hash (anonymized row) ≡ false
unfolding same
null_other [] row ne = absurd (ground arith)
null_other (b ∷ bs) row ne = refl

accept-rolled_back :
    (acceptance : InvitationAcceptance) (uuids : Uuids) (db : Tables) (e : Err)
    → (accept acceptance uuids db).0 ≡ err e
    → (accept acceptance uuids db).1 ≡ db
unfolding accept
accept-rolled_back acceptance uuids db e h =
    transaction-rolled_back (accept_invitation_tx acceptance uuids) db e h

accept-Spent :
    (hash : Str) (acceptance : InvitationAcceptance) (uuids : Uuids) (db : Tables)
    → Spent hash db.invitations
    → Spent hash (accept acceptance uuids db).1.invitations
accept-Spent hash acceptance uuids db s = elim (Result-cases (accept acceptance uuids db).0) [
  | inl ((user, membership), e) ↦
      let whole : accept acceptance uuids db
          ≡ (ok (user, membership), (accept acceptance uuids db).1) =
        ground arith in
      let a =
        accept-Settled acceptance uuids db (accept acceptance uuids db).1 user membership whole in
      rw a.is_used (
        Spent-update hash (unused a.invitation.id) (used_row db.now) db.invitations
          (λ y k. ground arith) s)
  | inr (x, e) ↦ rw (accept-rolled_back acceptance uuids db x e) s
]

Write-Spent :
    (hash : Str) {db db' : Tables}
    → is_empty hash ≡ false
    → Write hash db db'
    → Spent hash db.invitations
    → Spent hash db'.invitations
unfolding anonymize_expired_invitations
Write-Spent hash ne (elsewhere db' e) s = rw e s
Write-Spent hash ne (accepts acceptance uuids) s = accept-Spent hash acceptance uuids _ s
Write-Spent hash ne (anonymizes before) s =
    Spent-update hash (expired before) anonymized _ (λ y k. null_other hash y ne) s
Write-Spent hash ne (edits p f h u) s = Spent-update hash p f _ (λ y k. rw (h y, u y) k) s
Write-Spent hash ne (invites row n) s = Spent-append hash row _ n s

pub Writes-Spent :
    (hash : Str) {start db : Tables}
    → is_empty hash ≡ false
    → Spent hash start.invitations
    → Writes hash start db
    → Spent hash db.invitations
Writes-Spent hash ne s here = s
Writes-Spent hash ne s (next ws w) = Write-Spent hash ne w (Writes-Spent hash ne s ws)
