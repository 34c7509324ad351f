-- ===== src/Invitation/Examples.antt =====
-- The theorems at concrete inputs.
use vnp_dbms_backend.Common.{
  ℕ, ◌≤◌, String, ◌≡◌, ◌⊎◌, refl, Bool, true, false, none, some, ◌≢◌, not_found, [], ◌∷◌, ◌++◌, map,
  ok, err, error, internal, bad_request, In, here, there, not-In-nil, any, str_eq, if◌then◌else◌,
}
use vnp_dbms_backend.Common.Prisma.{scanning}
use vnp_dbms_backend.Permission.Project.{dashboard}
use vnp_dbms_backend.Invitation.Store.{
  Invitation, pending, accepted, cancelled, partial, User, Mail, Db, has_id, has_key, is_pending,
  to_lower, clashes,
}
use vnp_dbms_backend.Invitation.Service.{
  AcceptInvitation, CreateInvitation, account, accept_invitation, create_invitation,
  cancel_invitation,
}
use vnp_dbms_backend.Invitation.Accept.{
  Acceptable, accepted_by, mark, assigned, accept_invitation-cases,
}
use vnp_dbms_backend.Invitation.Granted.{ComesFrom}
use vnp_dbms_backend.Invitation.Roles.{AreDistinct, HasNone, rows_for, accept_invitation-assigns}
use vnp_dbms_backend.ProjectRole.Store.{UserProjectRole}
use vnp_dbms_backend.Invitation.Once.{
  OnlyToken, accept_invitation-once, create_invitation-expired, cancel_invitation-cases,
}

abbrev plain_hash : String → String → String
plain_hash salt p = p

abbrev all_taken : Mail → Bool
all_taken m = true

abbrev boss : User
boss = record {
  id = "u0";
  email = "boss@vnp.com";
  first_name = "B";
  last_name = "O";
  language = "en";
  contact_number = none;
  job_title = none;
  phone_number = none;
  user_role_id = "r0";
  password = "pw";
  is_verified = true;
  invited_by_id = none;
  invitation_sent_at = none;
}

abbrev waiting : Invitation
waiting = record {
  id = "i1";
  email = "dan@vnp.com";
  invited_by_id = "u0";
  invited_user_id = none;
  user_role_id = "r1";
  invitation_token = "t1";
  role = partial;
  status = pending;
  expires_at = 9000;
  accepted_at = none;
  message = none;
  portfolio_ids = "p1" ∷ [];
  subportfolio_ids = [];
  property_ids = [];
  created_at = 1000;
  project_roles =
      record {
        project_type = dashboard;
        user_role_id = "r1";
        portfolio_ids = [];
        subportfolio_ids = [];
        property_ids = [];
      }
      ∷ [];
}

abbrev one_invitation : Db
one_invitation = record {
  users = boss ∷ [];
  invitations = waiting ∷ [];
  feature_permissions = [];
  user_project_roles = [];
  sent = [];
  project_roles = record { id = "pr1"; project_type = dashboard; base_user_role_id = "r1" } ∷ [];
}

abbrev dan : AcceptInvitation
dan = record {
  first_name = "Dan";
  last_name = "D";
  password = "pw";
  language = none;
  contact_number = none;
  job_title = none;
  phone_number = none;
}

abbrev new_ids : ℕ → String
new_ids n = "x"

no_dan : scanning.find_first (λ u. str_eq u.email (to_lower "dan@vnp.com")) (boss ∷ []) ≡ none
unfolding to_lower
no_dan = refl

dan_may :
    Acceptable scanning plain_hash all_taken "t1" dan "u1" "salt" new_ids 5000 waiting
      one_invitation
dan_may = record { found = refl; waiting = refl; in_time = refl; free = no_dan }

accept_invitation-cases_example :
    (db' : Db) × (db'.users
      ≡ one_invitation.users ++ account scanning plain_hash all_taken waiting dan "u1" "salt" ∷ [])
    × (db'.feature_permissions
        ≡ record {
          user_id = "u1";
          portfolio_id = some "p1";
          subportfolio_id = none;
          property_id = none;
        }
          ∷ [])
    × (db'.user_project_roles
        ≡ assigned scanning plain_hash all_taken "t1" dan "u1" "salt" new_ids 5000 waiting
            one_invitation)
    × ((w : UserProjectRole)
        → In w (
            assigned scanning plain_hash all_taken "t1" dan "u1" "salt" new_ids 5000 waiting
              one_invitation)
        → ComesFrom scanning "u1" new_ids one_invitation.project_roles waiting.project_roles w)
    × (((any (clashes scanning (accepted_by "u1" 5000 waiting)) (waiting ∷ []) ≡ false)
          × (accept_invitation scanning plain_hash all_taken "t1" dan "u1" "salt" new_ids 5000
                one_invitation
              ≡ (
                ok (
                  account scanning plain_hash all_taken waiting dan "u1" "salt",
                  accepted_by "u1" 5000 waiting,
                ),
                db',
              ))
          × (db'.invitations ≡ map (mark "i1" "u1" 5000) (waiting ∷ [])))
        ⊎ ((any (clashes scanning (accepted_by "u1" 5000 waiting)) (waiting ∷ []) ≡ true)
            × (accept_invitation scanning plain_hash all_taken "t1" dan "u1" "salt" new_ids 5000
                  one_invitation
                ≡ (err (error internal "Unique constraint failed"), db'))
            × (db'.invitations ≡ waiting ∷ [])))
accept_invitation-cases_example =
    accept_invitation-cases scanning plain_hash all_taken "t1" dan "u1" "salt" new_ids 5000 waiting
      one_invitation dan_may refl

waiting_distinct : AreDistinct waiting.project_roles
waiting_distinct = (λ q at. absurd (not-In-nil at), tt)

none_yet : HasNone "u1" one_invitation.user_project_roles
none_yet w at = absurd (not-In-nil at)

accept_invitation-assigns_example :
    (accept_invitation scanning plain_hash all_taken "t1" dan "u1" "salt" new_ids 5000
      one_invitation).1.user_project_roles
    ≡ [] ++ rows_for scanning "u1" new_ids one_invitation.project_roles 0 waiting.project_roles
accept_invitation-assigns_example =
    accept_invitation-assigns scanning plain_hash all_taken "t1" dan "u1" "salt" new_ids 5000
      waiting one_invitation dan_may refl waiting_distinct none_yet

only_waiting : OnlyToken "t1" waiting (waiting ∷ [])
only_waiting x here h = refl
only_waiting x (there i) h = absurd (not-In-nil i)

accept_invitation-once_example :
    (db' : Db) × (w : Invitation) × (accept_invitation scanning plain_hash all_taken "t1" dan "u1"
        "salt" new_ids 5000 one_invitation
      ≡ (ok (account scanning plain_hash all_taken waiting dan "u1" "salt", w), db'))
    × (w.status ≡ accepted)
    × (accept_invitation scanning plain_hash all_taken "t1" dan "u2" "salt" new_ids 6000 db'
        ≡ (err (error bad_request "This invitation is no longer valid"), db'))
accept_invitation-once_example =
    accept_invitation-once scanning plain_hash all_taken "t1" dan "u1" "salt" new_ids 5000 waiting
      one_invitation dan "u2" "salt" new_ids 6000 dan_may refl only_waiting refl

abbrev dan_again : CreateInvitation
dan_again = record {
  email = "Dan@vnp.com";
  user_role_id = "r1";
  message = none;
  portfolio_ids = none;
  subportfolio_ids = none;
  property_ids = none;
  role = none;
  project_roles = none;
}

key_of_dan : has_key (to_lower "Dan@vnp.com") pending waiting ≡ true
unfolding to_lower
key_of_dan = refl

none_pending : scanning.find_first (is_pending (to_lower "Dan@vnp.com") 9500) (waiting ∷ []) ≡ none
unfolding to_lower
none_pending = refl

no_user : scanning.find_first (λ u. str_eq u.email (to_lower "Dan@vnp.com")) (boss ∷ []) ≡ none
unfolding to_lower
no_user = refl

create_invitation-expired_example :
    (9000 ≤ 9500)
    × (create_invitation scanning plain_hash all_taken "u0" dan_again "i2" "t2" 9500 one_invitation
        ≡ (err (error internal "Unique constraint failed"), one_invitation))
create_invitation-expired_example =
    create_invitation-expired scanning plain_hash all_taken "u0" "i2" "t2" dan_again 9500 waiting
      boss one_invitation here key_of_dan none_pending no_user refl

cancel_invitation-cases_example :
    let found = scanning.find_first (has_id "i1") (waiting ∷ []) in
    let call = cancel_invitation scanning plain_hash all_taken "i1" one_invitation in
    ((found ≡ none) × (call ≡ (err (error not_found "Invitation not found"), one_invitation)))
    ⊎ ((i : Invitation) × (found ≡ some i)
        × (((i.status ≢ pending)
              × (call ≡ (
                err (error bad_request "Can only cancel pending invitations"),
                one_invitation,
              )))
            ⊎ ((i.status ≡ pending)
                × ((x : Invitation) × In x (waiting ∷ [])
                    × (x.id ≢ "i1")
                    × (x.email ≡ i.email)
                    × (x.status ≡ cancelled))
                × (call ≡ (err (error internal "Unique constraint failed"), one_invitation)))
            ⊎ ((i.status ≡ pending)
                × ((x : Invitation)
                    → In x (waiting ∷ [])
                    → x.id ≢ "i1"
                    → x.email ≡ i.email
                    → x.status ≢ cancelled)
                × (call ≡ (
                  ok (record i { status = cancelled }),
                  record one_invitation {
                    invitations =
                        map
                          (λ x. if has_id "i1" x then record x { status = cancelled } else x)
                          (waiting ∷ []);
                  },
                )))))
cancel_invitation-cases_example =
    cancel_invitation-cases scanning plain_hash all_taken "i1" one_invitation

abbrev done : Invitation
done = record waiting { status = accepted }

abbrev one_done : Db
one_done = record one_invitation { invitations = done ∷ [] }
