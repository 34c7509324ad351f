-- ===== src/Invitation/Keys.antt =====
-- The unique keys of the table of invitations: ids, and email and status.
use vnp_dbms_backend.Common.{
  String, ◌≡◌, ◌≢◌, refl, sym, subst, ap, ◌∙◌, inl, inr, ◌⊎◌, Bool, true, false, List, [], ◌∷◌,
  ◌++◌, map, Bool-cases, In, In-cases, not-In-nil, In-map, In-append, In-filter, filter, any,
  any_iff, eq_self, eq_iff, eq-false_of_ne, if◌then◌else◌,
}
use vnp_dbms_backend.Common.Prisma.{Prisma}
use vnp_dbms_backend.Invitation.Store.{
  Invitation, InvitationStatus, pending, accepted, expired, cancelled, has_id, has_key, clashes,
  same_status,
}

same_status_self : (s : InvitationStatus) → same_status s s ≡ true
same_status_self pending = refl
same_status_self accepted = refl
same_status_self expired = refl
same_status_self cancelled = refl

-- No two documents have the same id, nor the same email and status.
pub record Consistent (rows : List Invitation) : Type 0 where
  pub ids : (x y : Invitation) → In x rows → In y rows → x.id ≡ y.id → x ≡ y
  pub keys :
      (x y : Invitation)
      → In x rows
      → In y rows
      → x.email ≡ y.email
      → x.status ≡ y.status
      → x.id ≡ y.id

has_key-same :
    (x y : Invitation) → x.email ≡ y.email → x.status ≡ y.status → has_key x.email x.status y ≡ true
has_key-same x y e s = rw (e, s, eq_self y.email, same_status_self y.status)

pub delete-Consistent :
    (p : Invitation → Bool) (rows : List Invitation) → Consistent rows → Consistent (filter p rows)
delete-Consistent p rows c = record {
  ids = λ x y i j. c.ids x y (In-filter p rows i).0 (In-filter p rows j).0;
  keys = λ x y i j. c.keys x y (In-filter p rows i).0 (In-filter p rows j).0;
}

In-snoc :
    (rows : List Invitation) (r : Invitation) {x : Invitation}
    → In x (rows ++ r ∷ [])
    → In x rows ⊎ (x ≡ r)
In-snoc rows r i = elim ((In-append rows (r ∷ [])).0 i) [
  | inl old ↦ inl old
  | inr last ↦ elim (In-cases last) [ inl e ↦ inr e | inr j ↦ absurd (not-In-nil j) ]
]

pub create-Consistent :
    (r : Invitation) (rows : List Invitation)
    → ((x : Invitation) → In x rows → x.id ≢ r.id)
    → any (has_key r.email r.status) rows ≡ false
    → Consistent rows
    → Consistent (rows ++ r ∷ [])
create-Consistent r rows new free c = record { ids = ids; keys = keys }
  where
    taken :
        (x z : Invitation)
        → In x rows
        → z ≡ r
        → z.email ≡ x.email
        → z.status ≡ x.status
        → any (has_key r.email r.status) rows ≡ true
    taken x z i is_r e s =
        (any_iff (has_key r.email r.status) rows).1
          (x, i, subst (λ w. has_key w.email w.status x ≡ true) is_r (has_key-same z x e s))

    ids : (x y : Invitation) → In x (rows ++ r ∷ []) → In y (rows ++ r ∷ []) → x.id ≡ y.id → x ≡ y
    ids x y i j e = elim (In-snoc rows r i) [
      | inl a ↦ elim (In-snoc rows r j) [
        | inl b ↦ c.ids x y a b e
        | inr same ↦ absurd (new x a (e ∙ ap (λ z. z.id) same))
      ]
      | inr first ↦ elim (In-snoc rows r j) [
        | inl b ↦ absurd (new y b (sym e ∙ ap (λ z. z.id) first))
        | inr same ↦ first ∙ sym same
      ]
    ]

    keys :
        (x y : Invitation)
        → In x (rows ++ r ∷ [])
        → In y (rows ++ r ∷ [])
        → x.email ≡ y.email
        → x.status ≡ y.status
        → x.id ≡ y.id
    keys x y i j e s = elim (In-snoc rows r i) [
      | inl a ↦ elim (In-snoc rows r j) [
        | inl b ↦ c.keys x y a b e s
        | inr same ↦ cc (taken x y a same (sym e) (sym s), free)
      ]
      | inr first ↦ elim (In-snoc rows r j) [
        | inl b ↦ cc (taken y x b first e s, free)
        | inr same ↦ ap (λ z. z.id) (first ∙ sym same)
      ]
    ]

abbrev rewritten : String → (Invitation → Invitation) → Invitation → Invitation
rewritten id f x = if has_id id x then f x else x

-- What `rewritten` has done to a document.
rewritten-cases :
    (id : String) (f : Invitation → Invitation) (x : Invitation)
    → ((x.id ≡ id) × (rewritten id f x ≡ f x)) ⊎ ((x.id ≢ id) × (rewritten id f x ≡ x))
rewritten-cases id f x = elim (Bool-cases (has_id id x)) [
  | inl hit ↦ inl ((eq_iff x.id id).0 hit, rw hit)
  | inr miss ↦ inr (λ e. cc (miss, (eq_iff x.id id).1 e), rw miss)
]

module _ (prisma : Prisma) (id : String) (f : Invitation → Invitation)
    (keeps : (x : Invitation) → (f x).id ≡ x.id) where
  rewritten-id : (x : Invitation) → (rewritten id f x).id ≡ x.id
  rewritten-id x = elim (rewritten-cases id f x) [
    | inl (_, e) ↦ ap (λ z. z.id) e ∙ keeps x
    | inr (_, e) ↦ ap (λ z. z.id) e
  ]

  module _ (rows : List Invitation) (r : Invitation) (r_in : In r rows) (r_id : r.id ≡ id)
      (free : any (clashes prisma (f r)) rows ≡ false) (c : Consistent rows) where
    -- The rewritten document against another one.
    apart :
        (x y : Invitation)
        → In x rows
        → In y rows
        → x.id ≡ id
        → y.id ≢ id
        → (f x).email ≡ y.email
        → (f x).status ≡ y.status
        → x.id ≡ y.id
    apart x y i j hit miss e s =
        let same : f x ≡ f r = ap f (c.ids x r i r_in (hit ∙ sym r_id)) in
        let key : has_key (f r).email (f r).status y ≡ true =
          subst (λ w. has_key w.email w.status y ≡ true) same (has_key-same (f x) y e s) in
        let other : has_id (f r).id y ≡ false =
          eq-false_of_ne y.id (f r).id (λ k. miss (k ∙ keeps r ∙ r_id)) in
        let clash : clashes prisma (f r) y ≡ true = rw (other, key) in
        cc ((any_iff (clashes prisma (f r)) rows).1 (y, j, clash), free)

    pub update-Consistent : Consistent (map (rewritten id f) rows)
    update-Consistent = record { ids = ids'; keys = keys' }
      where
        ids' :
            (x y : Invitation)
            → In x (map (rewritten id f) rows)
            → In y (map (rewritten id f) rows)
            → x.id ≡ y.id
            → x ≡ y
        ids' x y i j e =
            let (v, v_in, v_same) = In-map (rewritten id f) rows i in
            let (w, w_in, w_same) = In-map (rewritten id f) rows j in
            let same_id : v.id ≡ w.id =
              sym (rewritten-id v)
              ∙ ap (λ z. z.id) (sym v_same)
              ∙ e
              ∙ ap (λ z. z.id) w_same
              ∙ rewritten-id w in
            v_same ∙ ap (rewritten id f) (c.ids v w v_in w_in same_id) ∙ sym w_same

        old_ids :
            (v w : Invitation)
            → In v rows
            → In w rows
            → (rewritten id f v).email ≡ (rewritten id f w).email
            → (rewritten id f v).status ≡ (rewritten id f w).status
            → v.id ≡ w.id
        old_ids v w v_in w_in e s = elim (rewritten-cases id f v) [
          | inl (v_hit, p) ↦ elim (rewritten-cases id f w) [
            | inl (w_hit, q) ↦ v_hit ∙ sym w_hit
            | inr (w_miss, q) ↦ apart v w v_in w_in v_hit w_miss (rw (p, q) at e) (rw (p, q) at s)
          ]
          | inr (v_miss, p) ↦ elim (rewritten-cases id f w) [
            | inl (w_hit, q) ↦
                sym (apart w v w_in v_in w_hit v_miss (sym (rw (p, q) at e)) (sym (rw (p, q) at s)))
            | inr (w_miss, q) ↦ c.keys v w v_in w_in (rw (p, q) at e) (rw (p, q) at s)
          ]
        ]

        keys' :
            (x y : Invitation)
            → In x (map (rewritten id f) rows)
            → In y (map (rewritten id f) rows)
            → x.email ≡ y.email
            → x.status ≡ y.status
            → x.id ≡ y.id
        keys' x y i j e s =
            let (v, v_in, v_same) = In-map (rewritten id f) rows i in
            let (w, w_in, w_same) = In-map (rewritten id f) rows j in
            ap (λ z. z.id) v_same
            ∙ rewritten-id v
            ∙ old_ids v w v_in w_in (ap (λ z. z.email) (sym v_same) ∙ e ∙ ap (λ z. z.email) w_same)
                (ap (λ z. z.status) (sym v_same) ∙ s ∙ ap (λ z. z.status) w_same)
            ∙ sym (rewritten-id w)
            ∙ ap (λ z. z.id) (sym w_same)
