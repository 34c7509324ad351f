-- ===== src/Settings/References.antt =====
-- What `remove` does to the columns that refer to items.
use vnp_dbms_backend.Common.{
  String, ◌≡◌, ◌≢◌, sym, ap, ◌∙◌, ◌⊎◌, inl, inr, some, List, [], ◌∷◌, map, In, In-cases, Bool-cases,
  eq_self, str_eq, if◌then◌else◌,
}
use vnp_dbms_backend.Common.Prisma.{Prisma}
use vnp_dbms_backend.Settings.Service.{Referrer, refers, repointed, repoint}
use vnp_dbms_backend.Settings.Reorder.{map-map, map_self}

module _ (id replacement : String) where
  abbrev pub redirected_in : String → Referrer → Referrer
  redirected_in c p = if refers c id p then repointed c replacement p else p

  -- A property or a portfolio with one column after the other redirected to the replacement
  unfoldable pub redirected : List String → Referrer → Referrer
  redirected [] p = p
  redirected (c ∷ cs) p = redirected cs (redirected_in c p)

  pub repoint-eq-map :
      (prisma : Prisma) (columns : List String) (rows : List Referrer)
      → repoint prisma id replacement columns rows ≡ map (redirected columns) rows
  unfolding repoint redirected
  repoint-eq-map prisma [] rows = sym (map_self rows)
  repoint-eq-map prisma (c ∷ cs) rows =
      repoint-eq-map prisma cs _
      ∙ ap (map (redirected cs)) (prisma.rows_update (refers c id) (repointed c replacement) rows)
      ∙ map-map (redirected cs) (redirected_in c) rows

  ref-redirected_in :
      (c : String) (p : Referrer) (d : String) {x : String}
      → (redirected_in c p).ref d ≡ some x
      → (x ≡ replacement) ⊎ (p.ref d ≡ some x)
  ref-redirected_in c p d {x} e = elim (Bool-cases (refers c id p)) [
    | inr miss ↦ inr (rw (miss, redirected_in) at e)
    | inl hit ↦ elim (Bool-cases (str_eq d c)) [
      | inl same ↦ inl (cc (rw (hit, same) at e))
      | inr other ↦ inr (rw (hit, other) at e)
    ]
  ]

  -- The column that is redirected no longer refers to the item.
  cleared : id ≢ replacement → (c : String) (p : Referrer) → (redirected_in c p).ref c ≢ some id
  cleared apart c p e = elim (Bool-cases (refers c id p)) [
    | inl hit ↦ apart (cc (rw (hit, eq_self c) at e))
    | inr miss ↦
        let held : p.ref c ≡ some id = rw miss at e in cc (eq_self id, rw (held, refers) at miss)
  ]

  pub ref-redirected :
      (columns : List String) (p : Referrer) (d : String) {x : String}
      → (redirected columns p).ref d ≡ some x
      → (x ≡ replacement) ⊎ (p.ref d ≡ some x)
  unfolding redirected
  ref-redirected [] p d e = inr e
  ref-redirected (c ∷ cs) p d e = elim (ref-redirected cs (redirected_in c p) d e) [
    | inl new ↦ inl new
    | inr old ↦ ref-redirected_in c p d old
  ]

  pub redirected-clears :
      (columns : List String)
      → id ≢ replacement
      → (p : Referrer) (c : String) → In c columns
      → (redirected columns p).ref c ≢ some id
  unfolding redirected
  redirected-clears [] apart p c at e = elim at [ ]
  redirected-clears (c' ∷ cs) apart p c at e = elim (In-cases at) [
    | inl is ↦ elim (ref-redirected cs (redirected_in c' p) c e) [
      | inl new ↦ apart new
      | inr old ↦ cleared apart c' p (ap (redirected_in c' p).ref (sym is) ∙ old)
    ]
    | inr later ↦ redirected-clears cs apart (redirected_in c' p) c later e
  ]
