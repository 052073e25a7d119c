-- ===== src/Tables/Audits.antt =====
-- An audit event changes the table of audit events at most.
use clinks.Prelude.{◌&&◌, List, Option, Bool-cases, inl, inr}
use clinks.Text.{Str}
use clinks.Errors.{Result, ok, err}
use clinks.Exec.{Keeps}
use clinks.Domain.{AuditEvent}
use clinks.Tables.{Tables, audit, knows_user, knows_tenant}

pub audit-Keeps :
    (P : Tables → Type 0)
    → ((db : Tables) (audits : List AuditEvent) → P db → P (record db { audits = audits }))
    → (event_id : Result Str) (actor tenant : Option Str) (action target : Str)
    → Keeps P (audit event_id actor tenant action target)
audit-Keeps P closed (err e) actor tenant action target = record { keeps = λ db p. p }
audit-Keeps P closed (ok id) actor tenant action target = record {
  keeps = λ db p. elim (Bool-cases (knows_user db actor && knows_tenant db tenant)) [
    | inl k ↦ rw k (closed db _ p)
    | inr n ↦ rw n p
  ];
}
