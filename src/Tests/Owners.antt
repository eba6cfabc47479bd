-- ===== src/Tests/Owners.antt =====
-- The owners of the workspaces after a few use cases on the small database.
use base_api_nest_js.Base.{refl, arith, inl, [], ◌∷◌}
use base_api_nest_js.World.{World}
use base_api_nest_js.Auth.Register.{RegisterInput, RegisterDraw, register}
use base_api_nest_js.Workspaces.{delete_workspace}
use base_api_nest_js.Workspaces.Manage.{RemoveMemberInput, remove_member}
use base_api_nest_js.Workspaces.Ownership.{HasOwners, HasUniqueIds}
use base_api_nest_js.Owners.Reached.{here, next, removed, registered, deleted, Reached-HasOwners}
use base_api_nest_js.Tests.Rows.{rows}
use base_api_nest_js.Tests.Providers.{some_ids}
use base_api_nest_js.Tests.{plain, world, member_of}

abbrev removal : RemoveMemberInput
removal = record {
  workspace_id = 1;
  member_id = 2;
  caller_user_id = 1;
  caller_permissions = "workspace:remove_member" ∷ [];
}

abbrev dave : RegisterInput
dave = record { email = "dave@example.com"; name = "Dave"; password = "secret" }

abbrev daves : RegisterDraw
daves = record { user = 40; token = 41; raw_token = 42; workspace = some_ids; slug = "dave-abc" }

world-HasUniqueIds : HasUniqueIds world
world-HasUniqueIds = record {
  workspaces = (((λ e. refl), tt), tt);
  members = (
    ((λ e. refl), ((λ e. absurd (ground arith)), tt)),
    (((λ e. absurd (ground arith)), ((λ e. refl), tt)), tt),
  );
}

-- Bob leaves, Dave registers, and the team is deleted.
abbrev after_three : World
after_three =
    (delete_workspace 200 1 (register plain 100 daves dave (remove_member removal world).1).1).1

Reached-HasOwners_example : HasOwners after_three
Reached-HasOwners_example =
    Reached-HasOwners ((λ _. (member_of 1 1 1, inl refl, refl, refl)), tt)
      (next
        (next (next here (removed removal world-HasUniqueIds refl))
          (registered plain 100 daves dave refl))
        (deleted 200 1 refl))
