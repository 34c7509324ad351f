-- ===== src/Invitation/Runs.antt =====
-- Every call of the service keeps the unique keys of the table of invitations.
use vnp_dbms_backend.Common.{
  ℕ, String, ◌≡◌, ◌≢◌, refl, sym, subst, inl, inr, Bool, not, Option, arith, Option-cases,
  Bool-cases, In, any, str_eq, eq_iff,
}
use vnp_dbms_backend.Common.Prisma.{Prisma}
use vnp_dbms_backend.Invitation.Store
use vnp_dbms_backend.Invitation.Store.{
  Invitation, cancelled, User, Mail, Db, has_id, has_token, has_key, clashes, is_pending, to_lower,
}
use vnp_dbms_backend.Invitation.Service.{
  AcceptInvitation, CreateInvitation, UpdateInvitation, is_open, is_over, updated, renewed,
  invitation_of, get_invitation_by_id, get_invitation_by_token, create_invitation,
  update_invitation, delete_invitation, resend_invitation, cancel_invitation, accept_invitation,
  Call, creates, updates, deletes, cancels, resends, accepts, run,
}
use vnp_dbms_backend.Invitation.Accept.{accepted_by, granted, granted-rows, accepts-rows}
use vnp_dbms_backend.Invitation.Keys.{
  Consistent, create-Consistent, update-Consistent, delete-Consistent,
}

module _ (prisma : Prisma) (db : Db) (c : Consistent db.invitations) where
  written-Consistent :
      (id : String) (f : Invitation → Invitation)
      → ((x : Invitation) → (f x).id ≡ x.id)
      → Consistent (Store.update prisma id f db).1.invitations
  unfolding Store.update
  written-Consistent id f keeps =
      elim (Option-cases (prisma.find_first (has_id id) db.invitations)) [
        | inl e ↦ rw e c
        | inr (r, e) ↦ elim (Bool-cases (any (clashes prisma (f r)) db.invitations)) [
          | inl taken ↦ rw (e, taken) c
          | inr free ↦
              let (r_in, hit) = prisma.found_in (has_id id) db.invitations e in
              rw (e, free, prisma.rows_update (has_id id))
                (update-Consistent prisma id f keeps db.invitations r r_in ((eq_iff r.id id).0 hit)
                  free c)
        ]
      ]

  removed-Consistent : (id : String) → Consistent (Store.delete prisma id db).1.invitations
  unfolding Store.delete
  removed-Consistent id = elim (Option-cases (prisma.find_first (has_id id) db.invitations)) [
    | inl e ↦ rw e c
    | inr (r, e) ↦
        rw (e, prisma.rows_delete (has_id id))
          (delete-Consistent (λ x. not (has_id id x)) db.invitations c)
  ]

  added-Consistent :
      (r : Invitation)
      → ((x : Invitation) → In x db.invitations → x.id ≢ r.id)
      → Consistent (Store.create prisma r db).1.invitations
  unfolding Store.create
  added-Consistent r new = elim (Bool-cases (any (has_key r.email r.status) db.invitations)) [
    | inl taken ↦ rw taken c
    | inr free ↦ rw (free, prisma.rows_create r) (create-Consistent r db.invitations new free c)
  ]

-- The id that the database gives a new invitation is in no other one.
abbrev pub IsFresh : Call → Db → Type 0
IsFresh (creates inviter_id d id token) db = (x : Invitation) → In x db.invitations → x.id ≢ id
IsFresh _ db = Unit

module _ (prisma : Prisma) (hash : String → String → String) (delivers : Mail → Bool) (now : ℕ)
    (db : Db) (c : Consistent db.invitations) where
  create_call :
      (inviter_id : String) (d : CreateInvitation) (id token : String)
      → ((x : Invitation) → In x db.invitations → x.id ≢ id)
      → Consistent
          (create_invitation prisma hash delivers inviter_id d id token now db).1.invitations
  unfolding create_invitation Store.find_user_by_email Store.find_pending_by_email Store.find_user
  create_call inviter_id d id token new = ground (
    arith,
    added-Consistent prisma db c (invitation_of prisma hash delivers d inviter_id id token now) new,
  )

  update_call :
      (id : String) (d : UpdateInvitation)
      → Consistent (update_invitation prisma hash delivers id d db).1.invitations
  unfolding update_invitation get_invitation_by_id Store.find_by_id
  update_call id d = ground (arith, written-Consistent prisma db c id (updated d) (λ x. refl))

  delete_call :
      (id : String) → Consistent (delete_invitation prisma hash delivers id db).1.invitations
  unfolding delete_invitation get_invitation_by_id Store.find_by_id
  delete_call id = ground (arith, removed-Consistent prisma db c id)

  cancel_call :
      (id : String) → Consistent (cancel_invitation prisma hash delivers id db).1.invitations
  unfolding cancel_invitation get_invitation_by_id Store.find_by_id
  cancel_call id =
      ground (
        arith,
        written-Consistent prisma db c id (λ x. record x { status = cancelled }) (λ x. refl),
      )

  resend_call :
      (id : String) (message : Option String) (token : String)
      → Consistent (resend_invitation prisma hash delivers id message token now db).1.invitations
  unfolding resend_invitation get_invitation_by_id Store.find_by_id
  resend_call id message token = ground (
    arith,
    written-Consistent prisma db c id (renewed prisma hash delivers message token now) (λ x. refl),
  )

  accept_call :
      (token : String) (d : AcceptInvitation) (user_id salt : String) (ids : ℕ → String)
      → Consistent
          (accept_invitation prisma hash delivers token d user_id salt ids now db).1.invitations
  unfolding accept_invitation get_invitation_by_token Store.find_by_token Store.find_user_by_email
      Store.mark_as_accepted
  accept_call token d user_id salt ids =
      elim (Option-cases (prisma.find_first (has_token token) db.invitations)) [
        | inl lost ↦ rw lost c
        | inr (i, found) ↦ elim (Bool-cases (is_open i)) [
          | inr shut ↦ rw (found, shut) c
          | inl waiting ↦ elim (Bool-cases (is_over now i)) [
            | inl over ↦ rw (found, waiting, over) c
            | inr in_time ↦
                elim (Option-cases
                  (prisma.find_first (λ u. str_eq u.email (to_lower i.email)) db.users)) [
                    | inr (u, taken) ↦ rw (found, waiting, in_time, taken) c
                    | inl free ↦
                        let after =
                          granted prisma hash delivers token d user_id salt ids now i db in
                        let rows : after.invitations ≡ db.invitations =
                          granted-rows prisma hash delivers token d user_id salt ids now i db in
                        subst Consistent
                          (sym (
                            accepts-rows prisma hash delivers token d user_id salt ids now i db
                              (record {
                                found = found;
                                waiting = waiting;
                                in_time = in_time;
                                free = free;
                              })))
                          (written-Consistent prisma after (subst Consistent (sym rows) c) i.id
                            (accepted_by user_id now) (λ x. refl))
                  ]
          ]
        ]
      ]

module _ (prisma : Prisma) (hash : String → String → String) (delivers : Mail → Bool) where
  -- Every call of the service that changes the tables, whether it returns or throws, keeps the unique keys of the
  -- table of invitations: if no two have the same id, nor the same email and status, before the
  -- call, none have after it. The id that the database gives a new invitation is in no other one.
  pub run-Consistent :
      (c : Call) (now : ℕ) (db : Db)
      → IsFresh c db
      → Consistent db.invitations
      → Consistent (run prisma hash delivers c now db).invitations
  unfolding run
  run-Consistent (creates inviter_id d id token) now db new k =
      create_call prisma hash delivers now db k inviter_id d id token new
  run-Consistent (updates id d) now db new k = update_call prisma hash delivers now db k id d
  run-Consistent (deletes id) now db new k = delete_call prisma hash delivers now db k id
  run-Consistent (cancels id) now db new k = cancel_call prisma hash delivers now db k id
  run-Consistent (resends id message token) now db new k =
      resend_call prisma hash delivers now db k id message token
  run-Consistent (accepts token d user_id salt ids) now db new k =
      accept_call prisma hash delivers now db k token d user_id salt ids
