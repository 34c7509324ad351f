-- ===== src/Invitation/Store.antt =====
-- The tables that src/modules/user-invitation works on (prisma/schema.prisma) and the methods of
-- its repository. Times are milliseconds; the present time and the ids of new documents are arguments.
use Prim.Native.Char.{Char, code}
use vnp_dbms_backend.Common.{
  ℕ, String, Bool, true, false, not, ◌&&◌, Option, some, List, [], ◌∷◌, str_eq, eqb, ltb, any,
  if◌then◌else◌, Exec, pure, raise, gets, modify, ◌>>=◌, ◌>>◌, internal, or_raise, when,
}
use vnp_dbms_backend.Common.Prisma.{Prisma}
use vnp_dbms_backend.Permission.Project.{ProjectType}
use vnp_dbms_backend.ProjectRole.Store.{
  ProjectRole, UserProjectRole, matching, has_key as has_project,
}

-- `toLowerCase`, on the letters of ASCII. (On other letters it is not modelled.)
abbrev letters : List (ℕ × Char)
letters =
    (b'A', "a")
    ∷ (b'B', "b")
    ∷ (b'C', "c")
    ∷ (b'D', "d")
    ∷ (b'E', "e")
    ∷ (b'F', "f")
    ∷ (b'G', "g")
    ∷ (b'H', "h")
    ∷ (b'I', "i")
    ∷ (b'J', "j")
    ∷ (b'K', "k")
    ∷ (b'L', "l")
    ∷ (b'M', "m")
    ∷ (b'N', "n")
    ∷ (b'O', "o")
    ∷ (b'P', "p")
    ∷ (b'Q', "q")
    ∷ (b'R', "r")
    ∷ (b'S', "s")
    ∷ (b'T', "t")
    ∷ (b'U', "u")
    ∷ (b'V', "v")
    ∷ (b'W', "w")
    ∷ (b'X', "x")
    ∷ (b'Y', "y")
    ∷ (b'Z', "z")
    ∷ []

unfoldable lowered : List (ℕ × Char) → Char → Char
lowered [] c = c
lowered ((upper, lower) ∷ rest) c = if eqb (code c) upper then lower else lowered rest c

unfoldable pub to_lower : String → String
unfolding lowered
to_lower String.[] = String.[]
to_lower (String.◌∷◌ c s) = String.◌∷◌ (lowered letters c) (to_lower s)

pub data InvitationStatus : Type 0 where
  pending accepted expired cancelled : InvitationStatus

pub data InvitationRole : Type 0 where
  admin partial : InvitationRole

abbrev pub same_status : InvitationStatus → InvitationStatus → Bool
same_status pending pending = true
same_status accepted accepted = true
same_status expired expired = true
same_status cancelled cancelled = true
same_status _ _ = false

-- `type ProjectRoleInvitation`
pub record ProjectRoleInvitation : Type 0 where
  pub project_type : ProjectType
  pub user_role_id : String
  pub portfolio_ids : List String
  pub subportfolio_ids : List String
  pub property_ids : List String

-- `model UserInvitation`
pub record Invitation : Type 0 where
  pub id : String
  pub email : String
  pub invited_by_id : String
  pub invited_user_id : Option String
  pub user_role_id : String
  pub invitation_token : String
  pub role : InvitationRole
  pub status : InvitationStatus
  pub expires_at : ℕ
  pub accepted_at : Option ℕ
  pub message : Option String
  pub portfolio_ids : List String
  pub subportfolio_ids : List String
  pub property_ids : List String
  pub project_roles : List ProjectRoleInvitation
  pub created_at : ℕ

-- `model User`, without the fields that nothing here reads or writes.
pub record User : Type 0 where
  pub id : String
  pub email : String
  pub first_name : String
  pub last_name : String
  pub language : String
  pub contact_number : Option String
  pub job_title : Option String
  pub phone_number : Option String
  pub user_role_id : String
  pub password : String
  pub is_verified : Bool
  pub invited_by_id : Option String
  pub invitation_sent_at : Option ℕ

-- `model UserFeatureAccessPermission`
pub record FeaturePermission : Type 0 where
  pub user_id : String
  pub portfolio_id : Option String
  pub subportfolio_id : Option String
  pub property_id : Option String

-- The mail of `sendTokenInvitationEmail`. The inviter's name in its text is left out.
pub data Mail : Type 0 where
  token_mail : (email token : String) (message : Option String) → Mail

pub record Db : Type 0 where
  pub users : List User
  pub invitations : List Invitation
  pub feature_permissions : List FeaturePermission
  pub project_roles : List ProjectRole
  pub user_project_roles : List UserProjectRole
  -- the mails that have been sent, the last one first
  pub sent : List Mail

abbrev pub has_id : String → Invitation → Bool
has_id id i = str_eq i.id id

abbrev pub has_token : String → Invitation → Bool
has_token token i = str_eq i.invitation_token token

-- The unique key `unique_pending_invitation` of the schema: `@@unique([email, status])`.
abbrev pub has_key : String → InvitationStatus → Invitation → Bool
has_key email s i = str_eq i.email email && same_status i.status s

-- The `where` of `findPendingByEmail`.
abbrev pub is_pending : String → ℕ → Invitation → Bool
is_pending email now i = has_key email pending i && ltb now i.expires_at

abbrev pub unique_failed : {S A : Type 0} → Exec S A
unique_failed = raise internal "Unique constraint failed"

module _ (prisma : Prisma) where
  -- A write that breaks the unique key is refused by the database.
  unfoldable pub create : Invitation → Exec Db Invitation
  create i = do
    taken ← gets (λ db. any (has_key i.email i.status) db.invitations)
    when taken unique_failed
    modify (λ db. record db { invitations = prisma.create i db.invitations })
    pure i

  unfoldable pub find_by_id : String → Exec Db (Option Invitation)
  find_by_id id = gets (λ db. prisma.find_first (has_id id) db.invitations)

  unfoldable pub find_by_token : String → Exec Db (Option Invitation)
  find_by_token token = gets (λ db. prisma.find_first (has_token token) db.invitations)

  unfoldable pub find_pending_by_email : String → ℕ → Exec Db (Option Invitation)
  find_pending_by_email email now =
      gets (λ db. prisma.find_first (is_pending email now) db.invitations)

  -- Another document with the key that `i` is to have.
  abbrev pub clashes : Invitation → Invitation → Bool
  clashes i x = not (has_id i.id x) && has_key i.email i.status x

  unfoldable pub update : String → (Invitation → Invitation) → Exec Db Invitation
  update id write = do
    found ← gets (λ db. prisma.find_first (has_id id) db.invitations)
    i ← or_raise found internal "No record was found for an update."
    taken ← gets (λ db. any (clashes (write i)) db.invitations)
    when taken unique_failed
    modify (λ db. record db { invitations = prisma.update (has_id id) write db.invitations })
    pure (write i)

  unfoldable pub delete : String → Exec Db Invitation
  delete id = do
    found ← gets (λ db. prisma.find_first (has_id id) db.invitations)
    i ← or_raise found internal "No record was found for a delete."
    modify (λ db. record db { invitations = prisma.delete (has_id id) db.invitations })
    pure i

  unfoldable pub mark_as_accepted : String → String → ℕ → Exec Db Invitation
  mark_as_accepted id user_id now =
      update id (λ i. record i {
        status = accepted;
        invited_user_id = some user_id;
        accepted_at = some now;
      })

  -- `prisma.user.findUnique` by email and by id, and `prisma.user.create`. (The services look for the
  -- email first, so its unique key is not broken.)
  unfoldable pub find_user_by_email : String → Exec Db (Option User)
  find_user_by_email email = gets (λ db. prisma.find_first (λ u. str_eq u.email email) db.users)

  unfoldable pub find_user : String → Exec Db (Option User)
  find_user id = gets (λ db. prisma.find_first (λ u. str_eq u.id id) db.users)

  unfoldable pub create_user : User → Exec Db User
  create_user u = do modify (λ db. record db { users = prisma.create u db.users }); pure u

  -- `userFeatureAccessPermission.createMany`
  unfoldable pub create_feature_permissions : List FeaturePermission → Exec Db Unit
  create_feature_permissions [] = pure tt
  create_feature_permissions (p ∷ ps) = do
    modify (λ db. record db { feature_permissions = prisma.create p db.feature_permissions })
    create_feature_permissions ps

  unfoldable pub find_project_role : ProjectType → String → Exec Db (Option ProjectRole)
  find_project_role t role_id = gets (λ db. prisma.find_first (matching t role_id) db.project_roles)

  -- `userProjectRole.create`, with its unique key of user and project
  unfoldable pub create_user_project_role : UserProjectRole → Exec Db Unit
  create_user_project_role r = do
    taken ← gets (λ db. any (has_project r.user_id r.project_type) db.user_project_roles)
    when taken unique_failed
    modify (λ db. record db { user_project_roles = prisma.create r db.user_project_roles })
