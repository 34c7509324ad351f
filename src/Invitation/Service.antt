-- ===== src/Invitation/Service.antt =====
-- src/modules/user-invitation/user-invitation.service.ts
use vnp_dbms_backend.Common.{
  ℕ, ◌+◌, ◌*◌, String, Bool, true, not, Option, none, some, List, [], ◌∷◌, ◌++◌, map, ltb, is_empty,
  is_some, if◌then◌else◌, get_or, ok, Exec, pure, raise, modify, ◌>>=◌, ◌>>◌, when, or_raise,
  bad_request, not_found, conflict,
}
use vnp_dbms_backend.Common.Prisma.{Prisma}
use vnp_dbms_backend.ProjectRole.Store.{ProjectRole}
use vnp_dbms_backend.Invitation.Store
use vnp_dbms_backend.Invitation.Store.{
  Invitation, InvitationStatus, pending, cancelled, InvitationRole, partial, ProjectRoleInvitation,
  User, FeaturePermission, Mail, token_mail, Db, to_lower, same_status,
}

pub record CreateInvitation : Type 0 where
  pub email : String
  pub user_role_id : String
  pub message : Option String
  pub portfolio_ids : Option (List String)
  pub subportfolio_ids : Option (List String)
  pub property_ids : Option (List String)
  pub role : Option InvitationRole
  pub project_roles : Option (List ProjectRoleInvitation)

pub record AcceptInvitation : Type 0 where
  pub first_name : String
  pub last_name : String
  pub password : String
  pub language : Option String
  pub contact_number : Option String
  pub job_title : Option String
  pub phone_number : Option String

pub record UpdateInvitation : Type 0 where
  pub status : Option InvitationStatus
  pub role : Option InvitationRole
  pub message : Option String
  pub user_role_id : Option String
  pub portfolio_ids : Option (List String)
  pub subportfolio_ids : Option (List String)
  pub property_ids : Option (List String)

-- Seven days, by `setDate`, where no clock change falls into them.
abbrev pub lifetime : ℕ
lifetime = 7 * 24 * 60 * 60 * 1000

-- `expires_at < new Date()`
abbrev pub is_over : ℕ → Invitation → Bool
is_over now i = ltb i.expires_at now

abbrev pub is_open : Invitation → Bool
is_open i = same_status i.status pending

-- What the update of the document writes: only the fields that are given.
abbrev pub updated : UpdateInvitation → Invitation → Invitation
updated d i = record i {
  status = get_or d.status i.status;
  role = get_or d.role i.role;
  message = elim d.message [ none ↦ i.message | some m ↦ some m ];
  user_role_id = get_or d.user_role_id i.user_role_id;
  portfolio_ids = get_or d.portfolio_ids i.portfolio_ids;
  subportfolio_ids = get_or d.subportfolio_ids i.subportfolio_ids;
  property_ids = get_or d.property_ids i.property_ids;
}

-- `message ?? invitation.message`
abbrev pub or_old : Option String → Option String → Option String
or_old none old = old
or_old (some m) old = some m

-- `data.language || 'en'`
abbrev pub language_or_en : Option String → String
language_or_en none = "en"
language_or_en (some l) = if is_empty l then "en" else l

-- `catch` that logs the error and goes on.
abbrev pub attempt : Exec Db (Unit {0}) → Exec Db (Unit {0})
attempt m db = let (r, db') = m db in (ok tt, db')

-- The entries that `createUserPermissions` collects, in the order of its three loops.
abbrev pub portfolio_entry : String → String → FeaturePermission
portfolio_entry user_id id = record {
  user_id = user_id;
  portfolio_id = some id;
  subportfolio_id = none;
  property_id = none;
}

abbrev pub subportfolio_entry : String → String → FeaturePermission
subportfolio_entry user_id id = record {
  user_id = user_id;
  portfolio_id = none;
  subportfolio_id = some id;
  property_id = none;
}

abbrev pub property_entry : String → String → FeaturePermission
property_entry user_id id = record {
  user_id = user_id;
  portfolio_id = none;
  subportfolio_id = none;
  property_id = some id;
}

unfoldable pub permission_entries : String → Invitation → List FeaturePermission
permission_entries user_id i =
    map (portfolio_entry user_id) i.portfolio_ids
    ++ map (subportfolio_entry user_id) i.subportfolio_ids
    ++ map (property_entry user_id) i.property_ids

-- `hash` is bcrypt's, with the salt that it draws, and `delivers` tells whether the mail server takes a mail.
module _ (prisma : Prisma) (hash : String → String → String) (delivers : Mail → Bool) where
  abbrev send : Mail → Exec Db (Unit {0})
  send m =
      if delivers m
      then modify (λ db. record db { sent = m ∷ db.sent })
      else raise bad_request "Failed to send invitation email"

  -- The document of a new invitation.
  abbrev pub invitation_of : CreateInvitation → (inviter_id id token : String) → ℕ → Invitation
  invitation_of d inviter_id id token now = record {
    id = id;
    email = to_lower d.email;
    invited_by_id = inviter_id;
    invited_user_id = none;
    user_role_id = d.user_role_id;
    invitation_token = token;
    role = get_or d.role partial;
    status = pending;
    expires_at = now + lifetime;
    accepted_at = none;
    message = d.message;
    portfolio_ids = get_or d.portfolio_ids [];
    subportfolio_ids = get_or d.subportfolio_ids [];
    property_ids = get_or d.property_ids [];
    project_roles = get_or d.project_roles [];
    created_at = now;
  }

  unfoldable pub create_invitation :
      (inviter_id : String) → CreateInvitation → (id token : String) (now : ℕ) → Exec Db Invitation
  create_invitation inviter_id d id token now = do
    existing_user ← Store.find_user_by_email prisma (to_lower d.email)
    when (is_some existing_user) (raise conflict "A user with this email already exists")
    existing ← Store.find_pending_by_email prisma (to_lower d.email) now
    when (is_some existing) (raise conflict "A pending invitation for this email already exists")
    inviter ← Store.find_user prisma inviter_id
    found ← or_raise inviter not_found "Inviter user not found"
    invitation ← Store.create prisma (invitation_of d inviter_id id token now)
    send (token_mail (to_lower d.email) token d.message)
    pure invitation

  unfoldable pub get_invitation_by_id : String → Exec Db Invitation
  get_invitation_by_id id = do
    found ← Store.find_by_id prisma id
    or_raise found not_found "Invitation not found"

  unfoldable pub get_invitation_by_token : String → (now : ℕ) → Exec Db Invitation
  get_invitation_by_token token now = do
    found ← Store.find_by_token prisma token
    i ← or_raise found not_found "Invitation not found"
    when (not (is_open i)) (raise bad_request "This invitation is no longer valid")
    when (is_over now i) (raise bad_request "This invitation has expired")
    pure i

  unfoldable pub update_invitation : String → UpdateInvitation → Exec Db Invitation
  unfolding get_invitation_by_id
  update_invitation id d = do found ← get_invitation_by_id id; Store.update prisma id (updated d)

  unfoldable pub delete_invitation : String → Exec Db Invitation
  unfolding get_invitation_by_id
  delete_invitation id = do found ← get_invitation_by_id id; Store.delete prisma id

  abbrev pub renewed : Option String → String → ℕ → Invitation → Invitation
  renewed message token now i = record i {
    invitation_token = token;
    expires_at = now + lifetime;
    message = or_old message i.message;
  }

  unfoldable pub resend_invitation :
      String → Option String → (token : String) (now : ℕ) → Exec Db Invitation
  unfolding get_invitation_by_id
  resend_invitation id message token now = do
    i ← get_invitation_by_id id
    when (not (is_open i)) (raise bad_request "Can only resend pending invitations")
    written ← Store.update prisma id (renewed message token now)
    send (token_mail i.email token (or_old message i.message))
    pure written

  abbrev pub account : Invitation → AcceptInvitation → (user_id salt : String) → User
  account i d user_id salt = record {
    id = user_id;
    email = to_lower i.email;
    first_name = d.first_name;
    last_name = d.last_name;
    language = language_or_en d.language;
    contact_number = d.contact_number;
    job_title = d.job_title;
    phone_number = d.phone_number;
    user_role_id = i.user_role_id;
    password = hash salt d.password;
    is_verified = true;
    invited_by_id = some i.invited_by_id;
    invitation_sent_at = some i.created_at;
  }

  unfoldable pub create_user_permissions : String → Invitation → Exec Db (Unit {0})
  create_user_permissions user_id i =
      attempt (Store.create_feature_permissions prisma (permission_entries user_id i))

  abbrev pub assign :
      Option ProjectRole → String → String → ProjectRoleInvitation → Exec Db (Unit {0})
  assign none user_id id p = pure tt
  assign (some r) user_id id p = Store.create_user_project_role prisma (record {
    id = id;
    user_id = user_id;
    project_role_id = r.id;
    project_type = p.project_type;
    user_role_id = p.user_role_id;
    portfolio_ids = p.portfolio_ids;
    subportfolio_ids = p.subportfolio_ids;
    property_ids = p.property_ids;
    is_active = true;
  })

  -- The loop over the project roles; an exception ends it. `ids` are those of the new documents.
  unfoldable pub assign_all :
      String → (ℕ → String) → ℕ → List ProjectRoleInvitation → Exec Db (Unit {0})
  assign_all user_id ids n [] = pure tt
  assign_all user_id ids n (p ∷ ps) = do
    project_role ← Store.find_project_role prisma p.project_type p.user_role_id
    assign project_role user_id (ids n) p
    assign_all user_id ids (n + 1) ps

  unfoldable pub create_project_role_assignments :
      String → (ℕ → String) → Invitation → Exec Db (Unit {0})
  create_project_role_assignments user_id ids i = attempt (assign_all user_id ids 0 i.project_roles)

  -- `user_id`, `ids` and `salt` are what the database and bcrypt draw. The user in the answer is the stored one.
  unfoldable pub accept_invitation :
      String
      → AcceptInvitation
      → (user_id salt : String) (ids : ℕ → String) (now : ℕ) → Exec Db (User × Invitation)
  accept_invitation token d user_id salt ids now = do
    i ← get_invitation_by_token token now
    existing ← Store.find_user_by_email prisma (to_lower i.email)
    when (is_some existing) (raise conflict "A user with this email already exists")
    user ← Store.create_user prisma (account i d user_id salt)
    create_user_permissions user.id i
    create_project_role_assignments user.id ids i
    written ← Store.mark_as_accepted prisma i.id user.id now
    pure (user, written)

  unfoldable pub cancel_invitation : String → Exec Db Invitation
  unfolding get_invitation_by_id
  cancel_invitation id = do
    i ← get_invitation_by_id id
    when (not (is_open i)) (raise bad_request "Can only cancel pending invitations")
    Store.update prisma id (λ x. record x { status = cancelled })

-- Every method that changes the tables, with its arguments, and the tables after it, whether it returns or throws.
pub data Call : Type 0 where
  creates : (inviter_id : String) → CreateInvitation → (id token : String) → Call
  updates : String → UpdateInvitation → Call
  deletes cancels : String → Call
  resends : String → Option String → (token : String) → Call
  accepts : (token : String) → AcceptInvitation → (user_id salt : String) → (ℕ → String) → Call

unfoldable pub run : Prisma → (String → String → String) → (Mail → Bool) → Call → ℕ → Db → Db
run prisma hash delivers (creates inviter_id d id token) now db =
    (create_invitation prisma hash delivers inviter_id d id token now db).1
run prisma hash delivers (updates id d) now db = (update_invitation prisma hash delivers id d db).1
run prisma hash delivers (deletes id) now db = (delete_invitation prisma hash delivers id db).1
run prisma hash delivers (cancels id) now db = (cancel_invitation prisma hash delivers id db).1
run prisma hash delivers (resends id message token) now db =
    (resend_invitation prisma hash delivers id message token now db).1
run prisma hash delivers (accepts token d user_id salt ids) now db =
    (accept_invitation prisma hash delivers token d user_id salt ids now db).1
