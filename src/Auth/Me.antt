-- ===== src/Auth/Me.antt =====
-- The signed-in user's own view: src/modules/auth/use-cases/get-me.use-case.ts.
use base_api_nest_js.Base.{
  ℕ, ap, sym, ◌∙◌, ◌==◌, ◌&&◌, ◌≡◌, inl, inr, arith, Option-cases, String, Bool, Option, none, some,
  List, map, filter, not, str_eq, is_some,
}
use base_api_nest_js.Prisma.{Prisma}
use base_api_nest_js.World.{
  World, User, Workspace, WorkspaceMember, M, ok, is_ok, ◌>>=◌, pure, or_throw, not_found,
}
use base_api_nest_js.Access.{workspace_guard}
use base_api_nest_js.Users
use base_api_nest_js.Workspaces
use base_api_nest_js.Workspaces.{admin_workspace_slug}
use base_api_nest_js.Workspaces.Members
use base_api_nest_js.Workspaces.Members.{MemberWithRelations}

pub record MeWorkspace : Type 0 where
  pub id : ℕ
  pub name : String
  pub slug : String
  pub is_personal : Bool

pub record MeResponse : Type 0 where
  pub id : ℕ
  pub email : String
  pub name : String
  pub two_factor_enabled : Bool
  pub is_super_admin : Bool
  pub workspaces : List MeWorkspace

abbrev pub shown_workspace : Workspace → MeWorkspace
shown_workspace ws = record {
  id = ws.id;
  name = ws.name;
  slug = ws.slug;
  is_personal = ws.is_personal;
}

abbrev pub me_response : User → List Workspace → Bool → MeResponse
me_response user workspaces is_super_admin = record {
  id = user.id;
  email = user.email;
  name = user.name;
  two_factor_enabled = user.two_factor_enabled;
  is_super_admin = is_super_admin;
  workspaces =
      map shown_workspace (filter (λ ws. not (str_eq ws.slug admin_workspace_slug)) workspaces);
}

module _ ⦃p : Prisma⦄ where
  unfoldable pub get_me : ℕ → M MeResponse
  unfolding Users.find_by_id Workspaces.find_by_user_id Members.find_super_admin_membership
  get_me user_id = do
    found ← Users.find_by_id user_id
    user ← or_throw (not_found "User not found") found
    workspaces ← Workspaces.find_by_user_id user_id
    membership ← Members.find_super_admin_membership user_id
    pure (me_response user workspaces (is_some membership))

  super_answers :
      (user_id : ℕ) (w : World)
      → (o : Option MemberWithRelations) × (Members.find_super_admin_membership user_id w
          ≡ (ok o, w))
  unfolding Members.find_super_admin_membership Members.find_by_user_and_workspace
  super_answers user_id w =
      let test = λ (ws : Workspace). str_eq ws.slug admin_workspace_slug in
      elim (Option-cases (p.find test w.workspaces)) [
        | inl missing ↦ (none, rw missing)
        | inr (ws, found) ↦ (
          Members.with_relations w (
              p.find (λ (m : WorkspaceMember). m.user_id == user_id && m.workspace_id == ws.id)
                w.members),
          rw found,
        )
      ]

  -- What the query of the workspaces answers.
  abbrev workspaces_of : ℕ → World → List Workspace
  workspaces_of user_id w =
      p.find_many
        (λ ws.
          not (is_some ws.deleted_at)
          && is_some (
              p.find (λ (m : WorkspaceMember). m.user_id == user_id && m.workspace_id == ws.id)
                w.members))
        w.workspaces

  -- The view of a user whom the table has.
  get_me_found :
      (user_id : ℕ) (w : World) (u : User) (o : Option MemberWithRelations)
      → p.find (λ (v : User). v.id == user_id && not (is_some v.deleted_at)) w.users ≡ some u
      → Members.find_super_admin_membership user_id w ≡ (ok o, w)
      → (ws : List Workspace) × (get_me user_id w ≡ (ok (me_response u ws (is_some o)), w))
  unfolding get_me Users.find_by_id Workspaces.find_by_user_id
  get_me_found user_id w u o found answer =
      let ws = workspaces_of user_id w in
      (
        ws,
        rw (found, answer)
            (ap (λ (v : World). (ok (me_response u ws (is_some o)), v)) (ap (λ r. r.1) answer)),
      )

  own_answers :
      (user_id workspace_id : ℕ) (w : World)
      → (Members.find_by_user_and_workspace user_id workspace_id w).0 ≡ ok none
      → Members.find_by_user_and_workspace user_id workspace_id w ≡ (ok none, w)
  unfolding Members.find_by_user_and_workspace
  own_answers user_id workspace_id w e = ap (λ r. (r, w)) e

  guard_outside :
      (user_id workspace_id : ℕ) (w : World) (o : Option MemberWithRelations)
      → (Members.find_by_user_and_workspace user_id workspace_id w).0 ≡ ok none
      → Members.find_super_admin_membership user_id w ≡ (ok o, w)
      → (is_ok (workspace_guard user_id (some workspace_id) w).0 ≡ is_some o)
        × ((workspace_guard user_id (some workspace_id) w).1 ≡ w)
  unfolding workspace_guard
  guard_outside user_id workspace_id w none outside answer =
      let own = own_answers user_id workspace_id w outside in (ground arith, ground arith)
  guard_outside user_id workspace_id w (some m) outside answer =
      let own = own_answers user_id workspace_id w outside in (ground arith, ground arith)

  -- To a user who is signed in, `isSuperAdmin` says whether the workspace guard admits the user to a
  -- workspace that the user is no member of. The view and the guard write nothing.
  pub get_me-workspace_guard :
      (user_id workspace_id : ℕ) (w : World) {me : MeResponse}
      → (get_me user_id w).0 ≡ ok me
      → (Members.find_by_user_and_workspace user_id workspace_id w).0 ≡ ok none
      → (is_ok (workspace_guard user_id (some workspace_id) w).0 ≡ me.is_super_admin)
        × ((get_me user_id w).1 ≡ w)
        × ((workspace_guard user_id (some workspace_id) w).1 ≡ w)
  unfolding get_me
  get_me-workspace_guard user_id workspace_id w {me} e outside =
      let test = λ (v : User). v.id == user_id && not (is_some v.deleted_at) in
      let (o, answer) = super_answers user_id w in
      elim (Option-cases (p.find test w.users)) [
        | inl missing ↦ absurd (ground arith)
        | inr (u, found) ↦
            let (ws, view) = get_me_found user_id w u o found answer in
            let (admits, kept) = guard_outside user_id workspace_id w o outside answer in
            let seen = sym (ap (λ r. r.0) view) ∙ e in
            (admits ∙ ground arith, ap (λ r. r.1) view, kept)
      ]
