-- ===== src/Invitation/Once.antt =====
-- An invitation is accepted once; what the unique key of email and status refuses.
use vnp_dbms_backend.Common.{
  ℕ, ◌≤◌, String, ◌≡◌, ◌≢◌, ◌↔◌, not_found, Option-cases, eq_iff, ne_of_eq-false, refl, sym, ap,
  ◌∙◌, inl, inr, ◌⊎◌, Bool, true, false, none, some, List, map, arith, Bool-cases, In, In-map,
  map-In, any, any_iff, str_eq, eq_self, if◌then◌else◌, ok, err, error, internal, bad_request,
  All-In,
}
use vnp_dbms_backend.Common.Prisma.{Prisma}
use vnp_dbms_backend.Auth.Accounts.{find_first-total}
use vnp_dbms_backend.Invitation.Store
use vnp_dbms_backend.Invitation.Store.{
  Invitation, InvitationStatus, expired, accepted, cancelled, pending, User, Mail, Db, has_id,
  has_token, has_key, is_pending, to_lower, clashes, same_status,
}
use vnp_dbms_backend.Invitation.Service.{
  AcceptInvitation, CreateInvitation, is_open, account, get_invitation_by_token,
  get_invitation_by_id, accept_invitation, create_invitation, cancel_invitation,
}
use vnp_dbms_backend.Invitation.Accept.{Acceptable, accepted_by, mark, accept_invitation-cases}

-- No other invitation has the token: it is unique in the schema.
abbrev pub OnlyToken : String → Invitation → List Invitation → Type 0
OnlyToken token i rows = (x : Invitation) → In x rows → has_token token x ≡ true → x ≡ i

mark-token :
    (id user_id token : String) (now : ℕ) (x : Invitation)
    → has_token token (mark id user_id now x) ≡ has_token token x
mark-token id user_id token now x = ground arith

-- `status !== 'Pending'`
is_pending_of_open : (i : Invitation) → is_open i ≡ true → i.status ≡ pending
is_pending_of_open i h = ground (arith, h)

not_pending : (i : Invitation) → is_open i ≡ false → i.status ≢ pending
not_pending i h e = cc (h, ap (λ s. same_status s pending) e)

same_cancelled : (s : InvitationStatus) → (same_status s cancelled ≡ true) ↔ (s ≡ cancelled)
same_cancelled pending = (λ h. cc h, λ e. cc e)
same_cancelled accepted = (λ h. cc h, λ e. cc e)
same_cancelled expired = (λ h. cc h, λ e. cc e)
same_cancelled cancelled = (λ h. refl, λ e. refl)

-- A clash with `i` once it is cancelled is another cancelled invitation for its email.
clash_iff :
    (prisma : Prisma) (id : String) (i x : Invitation)
    → i.id ≡ id
    → (clashes prisma (record i { status = cancelled }) x ≡ true)
      ↔ ((x.id ≢ id) × (x.email ≡ i.email) × (x.status ≡ cancelled))
clash_iff prisma id i x is = elim (Bool-cases (has_id i.id x)) [
  | inl same ↦ (λ h. cc (h, same), λ k. absurd (k.0 ((eq_iff x.id i.id).0 same ∙ is)))
  | inr other ↦ elim (Bool-cases (str_eq x.email i.email)) [
    | inr apart ↦
        (λ h. cc (h, other, apart), λ k. absurd (ne_of_eq-false x.email i.email apart k.1))
    | inl email ↦ (
      λ h. (
        λ e. ne_of_eq-false x.id i.id other (e ∙ sym is),
        (eq_iff x.email i.email).0 email,
        (same_cancelled x.status).0 (rw (other, email) at h),
      ),
      λ k. rw (other, email) ((same_cancelled x.status).1 k.2),
    )
  ]
]

other_cancelled :
    (prisma : Prisma) (id : String) (i : Invitation) (db : Db)
    → i.id ≡ id
    → any (clashes prisma (record i { status = cancelled })) db.invitations ≡ true
    → (x : Invitation) × In x db.invitations
      × (x.id ≢ id)
      × (x.email ≡ i.email)
      × (x.status ≡ cancelled)
other_cancelled prisma id i db is taken =
    let (x, at, hit) =
      (any_iff (clashes prisma (record i { status = cancelled })) db.invitations).0 taken in
    let (apart, email, status) = (clash_iff prisma id i x is).0 hit in (x, at, apart, email, status)

none_cancelled :
    (prisma : Prisma) (id : String) (i : Invitation) (db : Db)
    → i.id ≡ id
    → any (clashes prisma (record i { status = cancelled })) db.invitations ≡ false
    → (x : Invitation) → In x db.invitations
    → x.id ≢ id
    → x.email ≡ i.email
    → x.status ≢ cancelled
none_cancelled prisma id i db is free x at apart email status = cc (
  free,
  (any_iff (clashes prisma (record i { status = cancelled })) db.invitations).1
      (x, at, (clash_iff prisma id i x is).1 (apart, email, status)),
)

module _ (prisma : Prisma) (hash : String → String → String) (delivers : Mail → Bool) where
  module _ (token : String) (d : AcceptInvitation) (user_id salt : String) (ids : ℕ → String)
      (now : ℕ) (i : Invitation) (db : Db) where
    -- Where no other invitation for its email is accepted already, an acceptable invitation with a token of its own is
    -- accepted, and from then on the token is refused at any time: the second call changes nothing.
    pub accept_invitation-once :
        (d' : AcceptInvitation) (user_id' salt' : String) (ids' : ℕ → String) (later : ℕ)
        → Acceptable prisma hash delivers token d user_id salt ids now i db
        → prisma.find_first (has_id i.id) db.invitations ≡ some i
        → OnlyToken token i db.invitations
        → any (clashes prisma (accepted_by user_id now i)) db.invitations ≡ false
        → (db' : Db) × (w : Invitation) × (accept_invitation prisma hash delivers token d user_id
              salt ids now db
            ≡ (ok (account prisma hash delivers i d user_id salt, w), db'))
          × (w.status ≡ accepted)
          × (accept_invitation prisma hash delivers token d' user_id' salt' ids' later db'
              ≡ (err (error bad_request "This invitation is no longer valid"), db'))
    unfolding accept_invitation get_invitation_by_token Store.find_by_token
    accept_invitation-once d' user_id' salt' ids' later a by_id only free =
        let (db', users, permissions, roles, from, result) =
          accept_invitation-cases prisma hash delivers token d user_id salt ids now i db a by_id in
        elim result [
          | inr (taken, _, _) ↦ cc (taken, free)
          | inl (_, accepts, rows) ↦
              let (i_in, i_hit) = prisma.found_in (has_token token) db.invitations a.found in
              let (x, e, at, hit) =
                find_first-total prisma (has_token token)
                  (map (mark i.id user_id now) db.invitations)
                  (map-In (mark i.id user_id now) db.invitations i_in)
                  (mark-token i.id user_id token now i ∙ i_hit) in
              let (y, y_in, same) = In-map (mark i.id user_id now) db.invitations at in
              let is_i : y ≡ i = only y y_in (
                sym (mark-token i.id user_id token now y)
                ∙ ap (has_token token) (sym same)
                ∙ hit) in
              let shut : x.status ≡ accepted =
                ap (λ z. z.status) (same ∙ ap (mark i.id user_id now) is_i) ∙ rw (eq_self i.id) in
              (db', accepted_by user_id now i, accepts, refl, rw (rows, e, shut))
        ]

  -- Once an invitation has expired without being answered, its email cannot be invited again: the invitation is still
  -- stored as pending, which `findPendingByEmail` does not count, but the unique key does; so
  -- `createInvitation` throws the database's error, and changes nothing.
  pub create_invitation-expired :
      (inviter_id id token : String) (d : CreateInvitation) (now : ℕ) (i : Invitation)
      (inviter : User) (db : Db)
      → In i db.invitations
      → has_key (to_lower d.email) pending i ≡ true
      → prisma.find_first (is_pending (to_lower d.email) now) db.invitations ≡ none
      → prisma.find_first (λ u. str_eq u.email (to_lower d.email)) db.users ≡ none
      → prisma.find_first (λ u. str_eq u.id inviter_id) db.users ≡ some inviter
      → (i.expires_at ≤ now)
        × (create_invitation prisma hash delivers inviter_id d id token now db
            ≡ (err (error internal "Unique constraint failed"), db))
  unfolding create_invitation Store.find_user_by_email Store.find_pending_by_email Store.find_user
      Store.create
  create_invitation-expired inviter_id id token d now i inviter db i_in key none_pending free
        found =
      let missed : is_pending (to_lower d.email) now i ≡ false =
        All-In (λ x. is_pending (to_lower d.email) now x ≡ false) db.invitations
          (prisma.none_found _ db.invitations none_pending) i_in in
      let taken : any (has_key (to_lower d.email) pending) db.invitations ≡ true =
        (any_iff (has_key (to_lower d.email) pending) db.invitations).1 (i, i_in, key) in
      (ground arith, rw (free, none_pending, found, taken))

  -- How `cancelInvitation` ends. If the id finds no invitation, it throws that; if the invitation found is not pending, it
  -- throws that only pending ones can be cancelled; if it is, and another invitation for its email is
  -- cancelled already, it throws the database's error; none of these changes anything. In the case that is left
  -- it returns the invitation, cancelled, and exactly the documents with its id change, and only their status.
  pub cancel_invitation-cases :
      (id : String) (db : Db)
      → let found = prisma.find_first (has_id id) db.invitations in
        let call = cancel_invitation prisma hash delivers id db in
        ((found ≡ none) × (call ≡ (err (error not_found "Invitation not found"), db)))
        ⊎ ((i : Invitation) × (found ≡ some i)
            × (((i.status ≢ pending)
                  × (call ≡ (err (error bad_request "Can only cancel pending invitations"), db)))
                ⊎ ((i.status ≡ pending)
                    × ((x : Invitation) × In x db.invitations
                        × (x.id ≢ id)
                        × (x.email ≡ i.email)
                        × (x.status ≡ cancelled))
                    × (call ≡ (err (error internal "Unique constraint failed"), db)))
                ⊎ ((i.status ≡ pending)
                    × ((x : Invitation)
                        → In x db.invitations
                        → x.id ≢ id
                        → x.email ≡ i.email
                        → x.status ≢ cancelled)
                    × (call ≡ (
                      ok (record i { status = cancelled }),
                      record db {
                        invitations =
                            map
                              (λ x. if has_id id x then record x { status = cancelled } else x)
                              db.invitations;
                      },
                    )))))
  unfolding cancel_invitation get_invitation_by_id Store.find_by_id Store.update
  cancel_invitation-cases id db =
      elim (Option-cases (prisma.find_first (has_id id) db.invitations)) [
        | inl lost ↦ inl (lost, rw lost refl)
        | inr (i, found) ↦ inr (
          i,
          found,
          elim (Bool-cases (is_open i)) [
            | inr shut ↦ inl (not_pending i shut, rw (found, shut) refl)
            | inl waiting ↦
                let is_id : i.id ≡ id =
                  (eq_iff i.id id).0 (prisma.found_in (has_id id) db.invitations found).1 in
                elim (Bool-cases
                  (any (clashes prisma (record i { status = cancelled })) db.invitations)) [
                    | inl taken ↦ inr (
                        inl (
                          is_pending_of_open i waiting,
                          other_cancelled prisma id i db is_id taken,
                          rw (found, waiting, found, taken),
                        ))
                    | inr free ↦ inr (
                        inr (
                          is_pending_of_open i waiting,
                          none_cancelled prisma id i db is_id free,
                          rw (found, waiting, found, free, prisma.rows_update (has_id id)),
                        ))
                  ]
          ],
        )
      ]
