-- ===== src/Users/Listed.antt =====
-- The list of a workspace's users: findManyByWorkspace of prisma-users.repository.ts, and
-- list-users.use-case.ts. `ilike` is the database's test that a text contains another in any case.
use base_api_nest_js.Base.{
  ℕ, ◌≤◌, ◌≡◌, refl, inl, inr, arith, String, Bool, true, false, Option, none, some, map, length,
  not, ◌&&◌, ◌||◌, ◌==◌, str_eq, is_some, if◌then◌else◌, Has, All, All-map, Option-cases,
}
use base_api_nest_js.Prisma.{Prisma}
use base_api_nest_js.World.{World, User, WorkspaceMember, M, ◌>>=◌, pure, gets, ok}
use base_api_nest_js.Pages.{PaginatedResponse, FindManyResult, skip_of, meta_of}
use base_api_nest_js.Pages.Shape.{IsPage, answer_IsPage}

pub record ListUsersInput : Type 0 where
  pub workspace_id : ℕ
  pub page : ℕ
  pub limit : ℕ
  pub search : Option String

-- UserResponseDto
pub record UserResponse : Type 0 where
  pub id : ℕ
  pub email : String
  pub name : String
  pub two_factor_enabled : Bool
  pub created_at : ℕ

abbrev pub to_response : User → UserResponse
to_response user = record {
  id = user.id;
  email = user.email;
  name = user.name;
  two_factor_enabled = user.two_factor_enabled;
  created_at = user.created_at;
}

-- The `OR` of the search; an empty text is no search.
unfoldable pub found_by : (String → String → Bool) → Option String → User → Bool
found_by ilike none u = true
found_by ilike (some search) u =
    if str_eq search "" then true else ilike u.name search || ilike u.email search

is_none : (o : Option ℕ) → is_some o ≡ false → o ≡ none
is_none none h = refl
is_none (some x) h = absurd (cc h)

module _ ⦃p : Prisma⦄ (ilike : String → String → Bool) where
  -- The `where` of the query.
  abbrev pub is_listed : World → ListUsersInput → User → Bool
  is_listed w input u =
      not (is_some u.deleted_at)
      && is_some (
          p.find
            (λ (m : WorkspaceMember). m.user_id == u.id && m.workspace_id == input.workspace_id)
            w.members)
      && found_by ilike input.search u

  unfoldable pub find_many_by_workspace : ListUsersInput → M (FindManyResult User)
  unfolding skip_of found_by
  find_many_by_workspace input = gets (λ w. record {
    items =
        p.page (is_listed w input) (λ u. u.created_at) (skip_of input.page input.limit) input.limit
          w.users;
    total = p.count (is_listed w input) w.users;
  })

  unfoldable pub list_users : ListUsersInput → M (PaginatedResponse UserResponse)
  unfolding find_many_by_workspace meta_of
  list_users input = do
    found ← find_many_by_workspace input
    pure (record {
      items = map to_response found.items;
      meta = meta_of input.page input.limit found.total;
    })

  -- A row of the list is of a user of the workspace whom nobody deleted, and whom the search finds.
  pub record IsShown (w : World) (input : ListUsersInput) (row : UserResponse) : Type 0 where
    pub user : User
    pub stored : Has user w.users
    pub shown : row ≡ to_response user
    pub live : user.deleted_at ≡ none
    pub member : WorkspaceMember
    pub membership : Has member w.members
    pub of_user : member.user_id ≡ user.id
    pub of_workspace : member.workspace_id ≡ input.workspace_id
    pub found : found_by ilike input.search user ≡ true

  is_listed-IsShown :
      (w : World) (input : ListUsersInput) (u : User)
      → Has u w.users
      → is_listed w input u ≡ true
      → IsShown w input (to_response u)
  is_listed-IsShown w input u stored h =
      let is_mine =
        λ (m : WorkspaceMember). m.user_id == u.id && m.workspace_id == input.workspace_id in
      elim (Option-cases (p.find is_mine w.members)) [
        | inl nobody ↦ absurd (ground arith)
        | inr (m, found) ↦
            let (has, fits) = p.find_some is_mine w.members m found in
            record {
              user = u;
              stored = stored;
              shown = refl;
              live = is_none u.deleted_at (ground arith);
              member = m;
              membership = has;
              of_user = ground arith;
              of_workspace = ground arith;
              found = ground arith;
            }
      ]

  -- The list of users answers, and writes nothing. Each row is of a user of the workspace whom nobody deleted and whom the search finds. A page before the last has as many rows as the
  -- limit, the last has the rest of the total, and a page beyond it has none.
  pub list_users-IsPage :
      (input : ListUsersInput) (w : World)
      → 1 ≤ input.page
      → 1 ≤ input.limit
      → (answer : PaginatedResponse UserResponse) × (list_users input w ≡ (ok answer, w))
        × All (IsShown w input) answer.items
        × IsPage (length answer.items) answer.meta
  unfolding list_users skip_of
  list_users-IsPage input w h k =
      let test = is_listed w input in
      let items =
        p.page test (λ u. u.created_at) (skip_of input.page input.limit) input.limit w.users in
      (
        record {
          items = map to_response items;
          meta = meta_of input.page input.limit (p.count test w.users);
        },
        refl,
        All-map (IsShown w input) to_response items (λ u m.
            let (stored, fits) =
              p.page_Has test (λ u. u.created_at) (skip_of input.page input.limit) input.limit
                w.users u m in
            is_listed-IsShown w input u stored fits),
        answer_IsPage to_response test (λ u. u.created_at) w.users input.page input.limit h k,
      )
