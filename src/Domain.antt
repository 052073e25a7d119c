-- ===== src/Domain.antt =====
-- The data of the domain: tenant.go, role.go, user.go, membership.go, authentication.go (types),
-- invitation.go, audit.go (event) and localization.go (types). An identifier or an enumerated text is
-- the string that the source has. A nil pointer is `none`. A point in time is a number of nanoseconds
-- since the zero `time.Time`, 1 January of the year 1, so that `IsZero` is the test for 0.
pub mod Accounts
pub mod Invites
pub mod Texts
unfoldable pub use Accounts.*
unfoldable pub use Invites.*
pub use Texts.*
