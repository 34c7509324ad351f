-- ===== src/Auth/Store.antt =====
-- The tables that src/modules/auth works on (prisma/schema.prisma) and the methods of
-- src/modules/auth/auth.repository.ts. Times are milliseconds since the epoch, and the present time is
-- an argument, as is the id that the database gives a new document. The joined documents that
-- `include` adds to a user are left out.
use Prim.Native.Char.{code}
use Prim.Native.String.{◌++◌ as append}
use vnp_dbms_backend.Common.{
  ℕ, String, Bool, false, true, not, ◌&&◌, Option, none, some, List, str_eq, eqb, leb,
  if◌then◌else◌, Exec, pure, gets, modify, ◌>>◌,
}
use vnp_dbms_backend.Common.Prisma.{Prisma}
use vnp_dbms_backend.Permission.Types.{UserRole}

-- `model User`, without the fields that nothing here reads or writes.
pub record User : Type 0 where
  pub id : String
  pub email : String
  pub first_name : String
  pub last_name : String
  pub language : String
  pub job_title : Option String
  pub phone_number : Option String
  pub user_role_id : String
  pub password : String
  pub is_verified : Bool
  pub temp_password : Option String
  pub invitation_sent_at : Option ℕ
  pub invited_by_id : Option String

-- `model Otp`. Its `purpose` and `ip_address` are never written or read.
pub record Otp : Type 0 where
  pub id : String
  pub user_id : String
  pub otp_code : String
  pub expires_at : ℕ
  pub is_used : Bool

-- `model UserAccessedProperty`
pub record AccessedProperties : Type 0 where
  pub user_id : String
  pub portfolio_id : List String
  pub property_id : List String

-- The mails of src/common/utils/email.util.ts that the service asks for.
pub data Mail : Type 0 where
  otp_mail reset_mail : (email otp : String) → Mail
  invitation_mail : (email temp_password role_name first_name : String) (is_external : Bool) → Mail

pub record Db : Type 0 where
  pub users : List User
  pub otps : List Otp
  pub user_roles : List UserRole
  pub accessed_properties : List AccessedProperties
  -- the mails that have been sent, the last one first
  pub sent : List Mail

-- `email.replace(/\+/g, '\\+')`
unfoldable pub escape_plus : String → String
escape_plus String.[] = ""
escape_plus (String.◌∷◌ c s) =
    let rest = escape_plus s in if eqb (code c) b'+' then append "\\+" rest else String.◌∷◌ c rest

-- How the database compares a stored email with the pattern of `equals` in the mode `insensitive`.
abbrev pub EmailMatch : Type 0
EmailMatch = String → String → Bool

-- The `where` of `findValidOtp`.
abbrev pub is_valid_otp : String → String → ℕ → Otp → Bool
is_valid_otp user_id otp now o =
    str_eq o.user_id user_id && (str_eq o.otp_code otp && (not o.is_used && leb now o.expires_at))

abbrev pub has_user_id : String → User → Bool
has_user_id id u = str_eq u.id id

module _ (prisma : Prisma) where
  -- The query includes the role, which the schema requires; it is not in the answer here. The tables are taken to be such
  -- that every user's role is in them: for one whose role is missing, as `inviteUser` leaves one when it throws for an
  -- unknown role, the client throws.
  unfoldable pub find_user_by_email : EmailMatch → String → Exec Db (Option User)
  find_user_by_email matches email =
      gets (λ db. prisma.find_first (λ u. matches u.email (escape_plus email)) db.users)

  unfoldable pub create_otp : String → String → String → ℕ → Exec Db Unit
  create_otp id user_id otp expires_at = modify (λ db. record db {
    otps =
        prisma.create
          (record {
            id = id;
            user_id = user_id;
            otp_code = otp;
            expires_at = expires_at;
            is_used = false;
          })
          db.otps;
  })

  unfoldable pub find_valid_otp : String → String → ℕ → Exec Db (Option Otp)
  find_valid_otp user_id otp now =
      gets (λ db. prisma.find_first (is_valid_otp user_id otp now) db.otps)

  -- The updates below address a document that a query has just returned.
  unfoldable pub mark_otp_as_used : String → Exec Db Unit
  mark_otp_as_used id = modify (λ db. record db {
    otps = prisma.update (λ o. str_eq o.id id) (λ o. record o { is_used = true }) db.otps;
  })

  unfoldable pub create_user : User → Exec Db User
  create_user u = do modify (λ db. record db { users = prisma.create u db.users }); pure u

  unfoldable pub update_user_password : String → String → Exec Db Unit
  update_user_password id password = modify (λ db. record db {
    users = prisma.update (has_user_id id) (λ u. record u { password = password }) db.users;
  })

  unfoldable pub clear_temp_password : String → Exec Db Unit
  clear_temp_password id = modify (λ db. record db {
    users =
        prisma.update (has_user_id id) (λ u. record u { temp_password = none; is_verified = true })
          db.users;
  })

  unfoldable pub update_invitation_sent_at : String → ℕ → Exec Db Unit
  update_invitation_sent_at id now = modify (λ db. record db {
    users =
        prisma.update (has_user_id id) (λ u. record u { invitation_sent_at = some now }) db.users;
  })

  unfoldable pub create_user_accessed_properties : String → List String → List String → Exec Db Unit
  create_user_accessed_properties user_id portfolio_ids property_ids = modify (λ db. record db {
    accessed_properties =
        prisma.create
          (record { user_id = user_id; portfolio_id = portfolio_ids; property_id = property_ids })
          db.accessed_properties;
  })

  -- The query `prisma.userRole.findUnique` of the service.
  unfoldable pub find_role : String → Exec Db (Option UserRole)
  find_role id = gets (λ db. prisma.find_first (λ r. str_eq r.id id) db.user_roles)

  -- `prisma.user.update` of `resendInvitation`
  unfoldable pub renew_temp_password : String → String → ℕ → Exec Db Unit
  renew_temp_password id temp_password now = modify (λ db. record db {
    users =
        prisma.update (has_user_id id)
          (λ u. record u { temp_password = some temp_password; invitation_sent_at = some now })
          db.users;
  })
