-- ===== src/Auth/Accounts.antt =====
-- Finding users by their email, before and after the writes of the repository.
use vnp_dbms_backend.Common.{
  String, ◌≡◌, refl, subst, ap, ap₂, ◌∙◌, inl, inr, Bool, true, false, some, List, [], ◌∷◌, map,
  arith, Option-cases, Bool-cases, In, All-In, In-map, map-In, eq_self, if◌then◌else◌,
}
use vnp_dbms_backend.Common.Prisma.{Prisma}
use vnp_dbms_backend.Auth.Store.{User, has_user_id, EmailMatch, escape_plus}

module _ (prisma : Prisma) where
  -- A query that some document meets finds one.
  pub find_first-total :
      {R : Type 0} (p : R → Bool) (rows : List R) {x : R}
      → In x rows
      → p x ≡ true
      → (r : R) × (prisma.find_first p rows ≡ some r) × In r rows × (p r ≡ true)
  find_first-total p rows {x} i holds = elim (Option-cases (prisma.find_first p rows)) [
    | inl e ↦ cc (All-In (λ r. p r ≡ false) rows (prisma.none_found p rows e) i, holds)
    | inr (r, e) ↦ let (at, hit) = prisma.found_in p rows e in (r, e, at, hit)
  ]

-- No other user's email meets the pattern.
abbrev pub OnlyMatch : EmailMatch → String → User → List User → Type 0
OnlyMatch matches email u users =
    (x : User) → In x users → matches x.email (escape_plus email) ≡ true → x ≡ u

-- What `update` by a user's id does to a document.
abbrev pub rewritten : String → (User → User) → User → User
rewritten id f x = if has_user_id id x then f x else x

abbrev pub KeepsEmail : (User → User) → Type 0
KeepsEmail f = (x : User) → (f x).email ≡ x.email

rewritten-email :
    (id : String) (f : User → User) (x : User) → KeepsEmail f → (rewritten id f x).email ≡ x.email
rewritten-email id f x keeps = ground (arith, keeps x)

rewritten_self : (u : User) (f : User → User) → rewritten u.id f u ≡ f u
rewritten_self u f = rw (eq_self u.id)

-- Two updates of the same user are one.
pub rewritten-rewritten :
    (id : String) (f g : User → User)
    → ((x : User) → (g x).id ≡ x.id)
    → (xs : List User)
    → map (rewritten id f) (map (rewritten id g) xs) ≡ map (rewritten id (λ x. f (g x))) xs
rewritten-rewritten id f g keeps [] = refl
rewritten-rewritten id f g keeps (x ∷ xs) = ap₂ ◌∷◌ (once x) (rewritten-rewritten id f g keeps xs)
  where
    once : (y : User) → rewritten id f (rewritten id g y) ≡ rewritten id (λ z. f (g z)) y
    once y = elim (Bool-cases (has_user_id id y)) [
      | inl hit ↦ rw (hit, keeps y, hit)
      | inr miss ↦ rw (miss, miss)
    ]

module _ (prisma : Prisma) (matches : EmailMatch) (email : String) (u : User)
    (users : List User) where
  -- After an update of the one user that the email finds, the email finds the updated document.
  pub find-rewritten :
      (f : User → User)
      → KeepsEmail f
      → OnlyMatch matches email u users
      → prisma.find_first (λ x. matches x.email (escape_plus email)) users ≡ some u
      → prisma.find_first (λ x. matches x.email (escape_plus email)) (map (rewritten u.id f) users)
        ≡ some (f u)
  find-rewritten f keeps only found =
      let (u_in, u_hit) = prisma.found_in (λ x. matches x.email (escape_plus email)) users found in
      let hit : matches (rewritten u.id f u).email (escape_plus email) ≡ true =
        rw (rewritten-email u.id f u keeps) u_hit in
      let (r, e, at, r_hit) =
        find_first-total prisma (λ x. matches x.email (escape_plus email))
          (map (rewritten u.id f) users) (map-In (rewritten u.id f) users u_in) hit in
      let (x, x_in, same) = In-map (rewritten u.id f) users at in
      let x_hit : matches x.email (escape_plus email) ≡ true =
        subst (λ m. matches m (escape_plus email) ≡ true)
          (ap (λ y. y.email) same ∙ rewritten-email u.id f x keeps) r_hit in
      e ∙ ap some (same ∙ ap (rewritten u.id f) (only x x_in x_hit) ∙ rewritten_self u f)
