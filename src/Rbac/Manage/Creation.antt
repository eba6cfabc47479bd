-- ===== src/Rbac/Manage/Creation.antt =====
-- What a created role may do, the check of the requested permission keys, and the transaction
-- around an update.
use base_api_nest_js.Base.{
  ◌||◌, ◌+◌, ◌≤◌, ◌⊎◌, eq_iff, Bool-cases, sym, ℕ, String, ◌≡◌, refl, Bool, true, false, none, List,
  [], ◌∷◌, arith, ◌<◌, inl, inr, ◌==◌, All, ◌&&◌, length, filter, any, str_eq,
}
use base_api_nest_js.Prisma.{Prisma}
use base_api_nest_js.World.{World, Role, Permission, is_ok, Result, ok, err, bad_request}
use base_api_nest_js.Rbac.Permissions.{includes, in_scope}
use base_api_nest_js.Rbac.Roles
use base_api_nest_js.Rbac.Roles.{
  UpdateRoleData, Saved, done, unknown_permissions, known_permissions, missing_keys,
  unknown_message, committed, new_role, CreateRoleData,
}
use base_api_nest_js.Rbac.Manage.{CreateRoleInput, create_role, update_role}

-- What the input hands to the repository.
abbrev pub creation : CreateRoleInput → CreateRoleData
creation input = record {
  id = input.id;
  workspace_id = input.workspace_id;
  name = input.name;
  description = input.description;
  permission_keys = input.permission_keys;
  is_system = false;
}

-- The row of the role that the input asks for.
abbrev pub requested : ℕ → CreateRoleInput → Role
requested now input = new_role now (creation input)

-- Some key stands twice in the list.
abbrev pub Repeats : List String → Type 0
Repeats [] = ⊥
Repeats (k ∷ keys) = (includes keys k ≡ true) ⊎ Repeats keys

abbrev pub HasOnePerKey : ℕ → List Permission → Type 0
HasOnePerKey workspace_id rows =
    (k : String)
    → length (filter (λ (perm : Permission). str_eq k perm.key && in_scope workspace_id perm) rows)
      ≤ 1

abbrev is_done : Result Saved → Bool
is_done (ok (done role)) = true
is_done _ = false

module _ ⦃p : Prisma⦄ where
  none_missing :
      (keys : List String) (perms : List Permission)
      → All (λ k. any (λ (perm : Permission). str_eq perm.key k) perms ≡ true) keys
      → missing_keys keys perms ≡ []
  none_missing [] perms h = refl
  none_missing (k ∷ keys) perms h = ground (arith, none_missing keys perms h.1)

  -- How many rows pass either of two tests.
  count-or :
      {R : Type 0} (f g : R → Bool) (rows : List R)
      → length (filter (λ r. f r || g r) rows) ≤ length (filter f rows) + length (filter g rows)
  count-or f g [] = ground arith
  count-or f g (r ∷ rows) = let rest = count-or f g rows in ground arith

  count-same :
      {R : Type 0} (f g : R → Bool) (rows : List R)
      → ((r : R) → f r ≡ g r)
      → length (filter f rows) ≡ length (filter g rows)
  count-same f g [] same = refl
  count-same f g (r ∷ rows) same =
      let rest = count-same f g rows same in let here = same r in ground arith

  count-none : (rows : List Permission) → length (filter (λ perm. false) rows) ≡ 0
  count-none [] = refl
  count-none (r ∷ rows) = count-none rows

  -- The keys name no more permissions than there are keys, and fewer if one is repeated.
  count_known :
      (keys : List String) (workspace_id : ℕ) (rows : List Permission)
      → HasOnePerKey workspace_id rows
      → length (
          filter (λ (perm : Permission). includes keys perm.key && in_scope workspace_id perm) rows)
        ≤ length keys
  count_known [] workspace_id rows one = let nothing = count-none rows in ground arith
  count_known (k ∷ keys) workspace_id rows one =
      let rest = count_known keys workspace_id rows one in
      let f = λ (perm : Permission). str_eq k perm.key && in_scope workspace_id perm in
      let g = λ (perm : Permission). includes keys perm.key && in_scope workspace_id perm in
      let split = count-or f g rows in
      let same =
        count-same
          (λ (perm : Permission). includes (k ∷ keys) perm.key && in_scope workspace_id perm)
          (λ perm. f perm || g perm) rows (λ perm. ground arith) in
      let single = one k in ground arith

  count_repeated :
      (keys : List String) (workspace_id : ℕ) (rows : List Permission)
      → HasOnePerKey workspace_id rows
      → Repeats keys
      → length (
          filter (λ (perm : Permission). includes keys perm.key && in_scope workspace_id perm) rows)
        < length keys
  count_repeated [] workspace_id rows one again = absurd again
  count_repeated (k ∷ keys) workspace_id rows one (inl again) =
      let rest = count_known keys workspace_id rows one in
      let same =
        count-same
          (λ (perm : Permission). includes (k ∷ keys) perm.key && in_scope workspace_id perm)
          (λ (perm : Permission). includes keys perm.key && in_scope workspace_id perm) rows
          (λ perm. elim (Bool-cases (str_eq k perm.key)) [
            | inr other ↦ rw other refl
            | inl key ↦
                let asked : includes keys perm.key ≡ true =
                  rw (sym ((eq_iff k perm.key).0 key)) again in
                rw asked (ground arith)
          ]) in
      ground arith
  count_repeated (k ∷ keys) workspace_id rows one (inr again) =
      let rest = count_repeated keys workspace_id rows one again in
      let f = λ (perm : Permission). str_eq k perm.key && in_scope workspace_id perm in
      let g = λ (perm : Permission). includes keys perm.key && in_scope workspace_id perm in
      let split = count-or f g rows in
      let same =
        count-same
          (λ (perm : Permission). includes (k ∷ keys) perm.key && in_scope workspace_id perm)
          (λ perm. f perm || g perm) rows (λ perm. ground arith) in
      let single = one k in ground arith

  -- A request that names one key twice is refused with 400 and an empty list of unknown permissions, and
  -- nothing is written, although the name is free and every key is that of a permission in scope. No two
  -- permissions in scope have one key.
  pub create_role_repeated_key :
      (now : ℕ) (input : CreateRoleInput) (w : World)
      → Repeats input.permission_keys
      → HasOnePerKey input.workspace_id w.permissions
      → p.find (λ r. r.workspace_id == input.workspace_id && str_eq r.name input.name) w.roles
        ≡ none
      → All
          (λ k.
            any
              (λ (perm : Permission). str_eq perm.key k)
              (known_permissions input.permission_keys input.workspace_id w)
            ≡ true)
          input.permission_keys
      → create_role now input w ≡ (err (bad_request (unknown_message [])), w)
  unfolding create_role Roles.create Roles.find_by_name_in_workspace
  create_role_repeated_key now input w again one free known =
      let perms = known_permissions input.permission_keys input.workspace_id w in
      let nothing = none_missing input.permission_keys perms known in
      let fewer = count_repeated input.permission_keys input.workspace_id w.permissions one again in
      let test = λ (perm : Permission).
        includes input.permission_keys perm.key && in_scope input.workspace_id perm in
      let more : length perms < length input.permission_keys =
        rw (p.find_many_lem test w.permissions) fewer in
      let differ : (length perms == length input.permission_keys) ≡ false = ground arith in
      let made : Roles.create now (creation input) w ≡ (ok (unknown_permissions []), w) =
        rw (differ, nothing) in
      ground arith

  committed_atomic :
      (r : Result Saved) (w w' : World)
      → is_done (committed r w w').0 ≡ false
      → (committed r w w').1 ≡ w
  committed_atomic (ok (done role)) w w' h = cc
  committed_atomic (ok (unknown_permissions missing)) w w' h = refl
  committed_atomic (err e) w w' h = refl

  update_atomic :
      (id : ℕ) (d : UpdateRoleData) (w : World)
      → is_done (Roles.update id d w).0 ≡ false
      → (Roles.update id d w).1 ≡ w
  unfolding Roles.update
  update_atomic id d w h = committed_atomic _ w _ h

  -- An update of a role that fails leaves the database as it was, however far it got: the transaction
  -- takes back a rename when a permission key is unknown.
  pub update_role_atomic :
      (id workspace_id : ℕ) (d : UpdateRoleData) (w : World)
      → is_ok (update_role id workspace_id d w).0 ≡ false
      → (update_role id workspace_id d w).1 ≡ w
  unfolding update_role Roles.find_by_id_in_workspace Roles.find_by_name_in_workspace
  update_role_atomic id workspace_id d w h = ground (arith, update_atomic id d w)
