-- ===== src/Rbac/Manage/Others.antt =====
-- What the writes of PrismaRolesRepository to one role leave of the others.
use base_api_nest_js.Base.{
  ℕ, String, ◌≡◌, ◌≢◌, refl, List, arith, not, Option-cases, Bool-cases, inl, inr, ◌⊎◌, ◌==◌, Has,
  ◌||◌, filter, filter-Has, Has-append, Has-map, length, is_some,
}
use base_api_nest_js.Prisma.{Prisma, written}
use base_api_nest_js.Prisma.Laws.{update_rows}
use base_api_nest_js.World.{World, Role, RolePermission, Result, ok, err, Result-cases}
use base_api_nest_js.Rbac.Roles
use base_api_nest_js.Rbac.Roles.{
  UpdateRoleData, Saved, done, unknown_permissions, committed, renamed, grants, known_permissions,
  given,
}

-- The rows of every other role are still there.
abbrev pub OthersStay : ℕ → World → World → Type 0
OthersStay id w w' =
    ((r : Role) → Has r w.roles → r.id ≢ id → Has r w'.roles)
    × ((g : RolePermission) → Has g w.role_permissions → g.role_id ≢ id → Has g w'.role_permissions)

stay :
    (id : ℕ) (w w' : World)
    → w'.roles ≡ w.roles
    → w'.role_permissions ≡ w.role_permissions
    → OthersStay id w w'
stay id w w' roles granted = ((λ r m off. rw roles m), (λ g m off. rw granted m))

committed_either :
    (r : Result Saved) (w w' : World) → ((committed r w w').1 ≡ w) ⊎ ((committed r w w').1 ≡ w')
committed_either (ok (done role)) w w' = inr refl
committed_either (ok (unknown_permissions missing)) w w' = inl refl
committed_either (err e) w w' = inl refl

module _ ⦃p : Prisma⦄ where
  granted_stay :
      (id : ℕ) (g : RolePermission) (rows : List RolePermission)
      → Has g rows
      → g.role_id ≢ id
      → Has g (p.delete_many (λ rp. rp.role_id == id) rows)
  granted_stay id g rows m off =
      rw (p.delete_many_lem (λ (rp : RolePermission). rp.role_id == id) rows)
        (filter-Has (λ (rp : RolePermission). not (rp.role_id == id)) g rows m (ground arith))

  set_fields_stay :
      (id : ℕ) (d : UpdateRoleData) (w : World) → OthersStay id w (Roles.set_fields id d w).1
  unfolding Roles.set_fields
  set_fields_stay id d w =
      let test = λ (r : Role). r.id == id in
      let w' = (Roles.set_fields id d w).1 in
      elim (Bool-cases (given d.name || is_some d.description)) [
        | inr nothing ↦ stay id w w' (ground arith) (ground arith)
        | inl asked ↦ elim (Option-cases (p.update test (renamed d) w.roles)) [
          | inl missing ↦ stay id w w' (ground arith) (ground arith)
          | inr (rows, e) ↦
              let left : w'.roles ≡ rows = ground arith in
              let granted : w'.role_permissions ≡ w.role_permissions = ground arith in
              (
                (λ r m off.
                    let same : written test (renamed d) r ≡ r = ground arith in
                    rw (left, update_rows test (renamed d) w.roles rows e)
                      (rw same at (Has-map (written test (renamed d)) r w.roles m))),
                (λ g m off. rw granted m),
              )
        ]
      ]

  set_permissions_stay :
      (id : ℕ) (keys : List String) (w : World)
      → OthersStay id w (Roles.set_permissions id keys w).1
  unfolding Roles.set_permissions Roles.replace_permissions Roles.reread
  set_permissions_stay id keys w =
      let w' = (Roles.set_permissions id keys w).1 in
      elim (Option-cases (p.find (λ (r : Role). r.id == id) w.roles)) [
        | inl missing ↦ stay id w w' (ground arith) (ground arith)
        | inr (target, found) ↦
            let perms = known_permissions keys target.workspace_id w in
            elim (Bool-cases (length perms == length keys)) [
              | inr differ ↦ stay id w w' (ground arith) (ground arith)
              | inl equal ↦
                  let roles : w'.roles ≡ w.roles = ground arith in
                  let granted : w'.role_permissions
                      ≡ p.create_many (grants id perms)
                          (p.delete_many (λ rp. rp.role_id == id) w.role_permissions) =
                    ground arith in
                  (
                    (λ r m off. rw roles m),
                    (λ g m off.
                        rw (granted, p.create_many_lem)
                          (Has-append g _ (grants id perms)
                            (granted_stay id g w.role_permissions m off))),
                  )
            ]
      ]

  pub update_stay :
      (id : ℕ) (d : UpdateRoleData) (w : World) → OthersStay id w (Roles.update id d w).1
  unfolding Roles.update Roles.reread
  update_stay id d w =
      let w1 = (Roles.set_fields id d w).1 in
      let first = set_fields_stay id d w in
      let w' = (Roles.update id d w).1 in
      elim (Result-cases (Roles.set_fields id d w).0) [
        | inr (x, failed) ↦ let same : w' ≡ w = ground arith in rw same (stay id w w refl refl)
        | inl (nothing, passed) ↦ elim (Option-cases d.permission_keys) [
          | inl no_keys ↦ elim (committed_either (Roles.reread id w1).0 w (Roles.reread id w1).1) [
            | inl back ↦ let same : w' ≡ w = ground arith in rw same (stay id w w refl refl)
            | inr kept ↦ let same : w' ≡ w1 = ground arith in rw same first
          ]
          | inr (keys, has) ↦
              let second = set_permissions_stay id keys w1 in
              let m = Roles.set_permissions id keys w1 in
              elim (committed_either m.0 w m.1) [
                | inl back ↦ let same : w' ≡ w = ground arith in rw same (stay id w w refl refl)
                | inr kept ↦
                    let same : w' ≡ m.1 = ground arith in
                    rw same (
                      (λ r h off. second.0 r (first.0 r h off) off),
                      (λ g h off. second.1 g (first.1 g h off) off),
                    )
              ]
        ]
      ]

  pub delete_stay : (id : ℕ) (w : World) → OthersStay id w (Roles.delete id w).1
  unfolding Roles.delete
  delete_stay id w =
      let test = λ (r : Role). r.id == id in
      let w' = (Roles.delete id w).1 in
      elim (Option-cases (p.delete test w.roles)) [
        | inl missing ↦ stay id w w' (ground arith) (ground arith)
        | inr (rows, e) ↦
            let left : w'.roles ≡ filter (λ r. not (test r)) w.roles =
              ground (arith, p.delete_lem test w.roles) in
            let granted : w'.role_permissions
                ≡ p.delete_many (λ rp. rp.role_id == id) w.role_permissions =
              ground arith in
            (
              (λ r m off. rw left (filter-Has (λ r. not (test r)) r w.roles m (ground arith))),
              (λ g m off. rw granted (granted_stay id g w.role_permissions m off)),
            )
      ]
