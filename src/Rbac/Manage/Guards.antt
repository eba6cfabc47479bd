-- ===== src/Rbac/Manage/Guards.antt =====
-- What the operations on an existing role refuse: system roles, roles of another workspace, and
-- roles in use.
use base_api_nest_js.Base.{
  ℕ, String, ◌≡◌, ◌≢◌, true, false, none, some, List, arith, not, Option-cases, inl, inr, ◌==◌, Has,
  All, All-Has, ◌&&◌, length, filter, All-of_Has, All-filter_test, filter-Has, length-Has,
}
use base_api_nest_js.Prisma.{Prisma}
use base_api_nest_js.Prisma.Laws.{find_Has, find_test, find_nothing}
use base_api_nest_js.World.{World, Role, WorkspaceMember, ok, err, not_found}
use base_api_nest_js.Rbac.Roles
use base_api_nest_js.Rbac.Roles.{UpdateRoleData}
use base_api_nest_js.Rbac.Manage.{update_role, delete_role, assign_permission_to_role}

module _ ⦃p : Prisma⦄ where
  -- A role of another workspace is answered 404 by an update, a deletion and an assignment of a
  -- permission, and none of them writes anything.
  foreign_role_hidden :
      (id workspace_id : ℕ) (d : UpdateRoleData) (key : String) (w : World)
      → All (λ (r : Role). r.id ≡ id → r.workspace_id ≢ workspace_id) w.roles
      → (update_role id workspace_id d w ≡ (err (not_found "Role not found in this workspace"), w))
        × (delete_role id workspace_id w ≡ (err (not_found "Role not found in this workspace"), w))
        × (assign_permission_to_role id workspace_id key w
            ≡ (err (not_found "Role not found in this workspace"), w))
  unfolding update_role delete_role assign_permission_to_role Roles.find_by_id_in_workspace
  foreign_role_hidden id workspace_id d key w foreign =
      let test = λ (r : Role). r.id == id && r.workspace_id == workspace_id in
      let hidden : p.find test w.roles ≡ none = find_nothing test w.roles (
        All-of_Has (λ (r : Role). test r ≡ false) w.roles
          (λ r m.
            let other =
              All-Has (λ (s : Role). s.id ≡ id → s.workspace_id ≢ workspace_id) r w.roles foreign
                m in
            ground arith)) in
      (ground arith, ground arith, ground arith)

  none_left :
      (id : ℕ) (members : List WorkspaceMember)
      → length (p.find_many (λ (m : WorkspaceMember). m.role_id == id) members) ≡ 0
      → All (λ (m : WorkspaceMember). m.role_id ≢ id) members
  none_left id members e =
      All-of_Has (λ (m : WorkspaceMember). m.role_id ≢ id) members
        (λ m has same.
          let some_left =
            filter-Has (λ (m : WorkspaceMember). m.role_id == id) m members has (ground arith) in
          let none_found : length (filter (λ (m : WorkspaceMember). m.role_id == id) members) ≡ 0 =
            rw (p.find_many_lem (λ (m : WorkspaceMember). m.role_id == id) members) at e in
          absurd (length-Has m _ some_left none_found))

  deleted-All :
      (id : ℕ) (roles rows : List Role)
      → p.delete (λ r. r.id == id) roles ≡ some rows
      → All (λ (r : Role). r.id ≢ id) rows
  deleted-All id roles rows e =
      let kept : rows ≡ filter (λ (r : Role). not (r.id == id)) roles =
        ground (arith, p.delete_lem (λ (r : Role). r.id == id) roles) in
      rw kept (
        All-of_Has (λ (r : Role). r.id ≢ id) (filter (λ (r : Role). not (r.id == id)) roles)
          (λ r m same.
            let other =
              All-Has (λ (r : Role). not (r.id == id) ≡ true) r _
                (All-filter_test (λ (r : Role). not (r.id == id)) roles) m in
            ground arith))

  -- A role that was deleted was no system role and belonged to the workspace; no member had it, and
  -- no role has its id any more.
  pub delete_role_ok :
      (id workspace_id : ℕ) (w : World)
      → (delete_role id workspace_id w).0 ≡ ok tt
      → ((role : Role) × Has role w.roles
          × (role.id ≡ id)
          × (role.workspace_id ≡ workspace_id)
          × (role.is_system ≡ false))
        × All (λ (m : WorkspaceMember). m.role_id ≢ id) (delete_role id workspace_id w).1.members
        × All (λ (r : Role). r.id ≢ id) (delete_role id workspace_id w).1.roles
  unfolding delete_role Roles.find_by_id_in_workspace Roles.count_members_using_role Roles.delete
  delete_role_ok id workspace_id w e =
      let test = λ (r : Role). r.id == id && r.workspace_id == workspace_id in
      let at_id = λ (r : Role). r.id == id in
      elim (Option-cases (p.find test w.roles)) [
        | inl missing ↦ absurd (ground arith)
        | inr (role, found) ↦ elim (Option-cases (p.delete at_id w.roles)) [
          | inl gone ↦ absurd (ground arith)
          | inr (rows, er) ↦
              let fits = find_test test w.roles role found in
              let unused : length (p.find_many (λ (m : WorkspaceMember). m.role_id == id) w.members)
                  ≡ 0 =
                ground arith in
              let left : (delete_role id workspace_id w).1.roles ≡ rows = ground arith in
              let kept : (delete_role id workspace_id w).1.members ≡ w.members = ground arith in
              (
                (role, find_Has test w.roles role found, ground arith, ground arith, ground arith),
                rw kept (none_left id w.members unused),
                rw left (deleted-All id w.roles rows er),
              )
        ]
      ]
