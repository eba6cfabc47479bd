-- ===== src/Workspaces.antt =====
-- Workspaces and their members: src/modules/workspaces. A read that the source caches is the query
-- behind the cache.
pub mod Members
pub mod Manage
pub mod Ownership
pub mod Create
use base_api_nest_js.Base.{
  ℕ, String, Bool, true, false, Option, none, some, List, not, ◌&&◌, ◌||◌, ◌==◌, str_eq, is_some,
  map, filter,
}
use base_api_nest_js.Prisma.{Prisma}
use base_api_nest_js.World.{
  World, Workspace, WorkspaceMember, M, Result, ok, err, ◌>>=◌, ◌>>◌, pure, gets, saved, throw_if,
  or_throw, not_found, forbidden,
}

abbrev pub admin_workspace_slug : String
admin_workspace_slug = "__admin__"

abbrev pub put_workspaces : List Workspace → World → World
put_workspaces rows w = record w { workspaces = rows }

-- TransferOwnershipData
pub record TransferOwnershipData : Type 0 where
  pub workspace_id : ℕ
  pub from_user_id : ℕ
  pub to_user_id : ℕ
  pub owner_role_id : ℕ
  pub admin_role_id : ℕ

abbrev pub put_members : List WorkspaceMember → World → World
put_members rows w = record w { members = rows }

-- A transaction takes back its writes when a step throws.
abbrev pub undone : {A : Type 0} → World → Result A × World → Result A × World
undone w (ok a, w') = (ok a, w')
undone w (err e, w') = (err e, w)

abbrev pub atomically : {A : Type 0} → M A → M A
atomically m w = undone w (m w)

-- PrismaWorkspacesRepository
module _ ⦃p : Prisma⦄ where
  unfoldable pub find_by_id : ℕ → M (Option Workspace)
  find_by_id id = gets (λ w. p.find (λ ws. ws.id == id && not (is_some ws.deleted_at)) w.workspaces)

  unfoldable pub find_by_user_id : ℕ → M (List Workspace)
  find_by_user_id user_id = gets (λ w.
      p.find_many
        (λ ws.
          not (is_some ws.deleted_at)
          && is_some (
              p.find (λ (m : WorkspaceMember). m.user_id == user_id && m.workspace_id == ws.id)
                w.members))
        w.workspaces)

  unfoldable pub update : ℕ → (Workspace → Workspace) → M (Unit {0})
  update id change = do
    rows ← gets (λ w. p.update (λ ws. ws.id == id) change w.workspaces)
    saved put_workspaces rows

  unfoldable pub soft_delete : ℕ → ℕ → M (Unit {0})
  unfolding update
  soft_delete now id = update id (λ ws. record ws { deleted_at = some now })

  -- The update of the member with the unique pair of user and workspace.
  unfoldable pub set_role : ℕ → ℕ → ℕ → M (Unit {0})
  set_role user_id workspace_id role_id = do
    rows ← gets (λ w.
        p.update (λ m. m.user_id == user_id && m.workspace_id == workspace_id)
          (λ m. record m { role_id = role_id }) w.members)
    saved put_members rows

  unfoldable pub transfer_ownership : TransferOwnershipData → M (Unit {0})
  unfolding set_role update
  transfer_ownership d = atomically (do
    set_role d.from_user_id d.workspace_id d.admin_role_id
    set_role d.to_user_id d.workspace_id d.owner_role_id
    update d.workspace_id (λ ws. record ws { owner_id = d.to_user_id }))

  -- GetWorkspaceUseCase
  unfoldable pub get_workspace : ℕ → M Workspace
  unfolding find_by_id
  get_workspace id = do found ← find_by_id id; or_throw (not_found "Workspace not found") found

  -- ListWorkspacesUseCase
  unfoldable pub list_workspaces : ℕ → M (List Workspace)
  unfolding find_by_user_id
  list_workspaces user_id = do
    rows ← find_by_user_id user_id
    pure (filter (λ ws. not (str_eq ws.slug admin_workspace_slug)) rows)

  -- UpdateWorkspaceUseCase: `none` is an absent name.
  unfoldable pub update_workspace : ℕ → Option String → M (Unit {0})
  unfolding find_by_id update
  update_workspace id name = do
    found ← find_by_id id
    ws ← or_throw (not_found "Workspace not found") found
    throw_if (str_eq ws.slug admin_workspace_slug)
        (forbidden "The admin workspace cannot be modified")
    update id (λ ws. record ws { name = elim name [ none ↦ ws.name | some n ↦ n ] })

  -- DeleteWorkspaceUseCase
  unfoldable pub delete_workspace : ℕ → ℕ → M (Unit {0})
  unfolding find_by_id soft_delete
  delete_workspace now id = do
    found ← find_by_id id
    ws ← or_throw (not_found "Workspace not found") found
    throw_if (str_eq ws.slug admin_workspace_slug)
        (forbidden "The admin workspace cannot be deleted")
    throw_if ws.is_personal (forbidden "Personal workspaces cannot be deleted")
    soft_delete now id
