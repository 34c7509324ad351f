-- ===== src/Invitation/Answered.antt =====
-- An invitation that has been answered: the methods that test `status` leave it alone.
use vnp_dbms_backend.Common.{◌≢◌}
use vnp_dbms_backend.Common.Prisma.{Prisma}
use vnp_dbms_backend.Invitation.Store
use vnp_dbms_backend.Invitation.Store.{Invitation, User, is_pending}
use vnp_dbms_backend.Invitation.Service.{Call, updates, deletes}

-- The call is not an update or a deletion of the invitation itself.
abbrev pub Spares : Call → Invitation → Type 0
Spares (updates id d) x = x.id ≢ id
Spares (deletes id) x = x.id ≢ id
Spares _ x = Unit
