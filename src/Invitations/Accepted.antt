-- ===== src/Invitations/Accepted.antt =====
-- Accepting an invitation: who joins, and that a token works once.
use base_api_nest_js.Base.{
  ℕ, ◌≡◌, true, false, none, some, List, [], ◌∷◌, ◌++◌, arith, Option-cases, inl, inr, ◌==◌, ◌&&◌,
  str_eq, Has, All, All-Has, All-map, ==_iff, eq_iff, is_some, not, ltb,
}
use base_api_nest_js.Prisma.{Prisma, written}
use base_api_nest_js.Prisma.Laws.{find_Has, find_test, update_rows, create_rows}
use base_api_nest_js.Crypto.{Crypto}
use base_api_nest_js.World.{World, User, Invitation, ok, is_ok, Result-cases, bind_ok, bind_err}
use base_api_nest_js.Users
use base_api_nest_js.Workspaces.Members
use base_api_nest_js.Invitations.{
  AcceptInvitationResult, check_accept, write_accept, accept_invitation, find_by_token_hash,
  mark_as_accepted, accepted, new_member,
}

-- No two rows share a token hash: the unique index of the table.
abbrev pub HasUniqueHashes : List Invitation → Type 0
HasUniqueHashes rows =
    All
      (λ (a : Invitation). All (λ (b : Invitation). b.token_hash ≡ a.token_hash → b.id ≡ a.id) rows)
      rows

-- What an accepted token went by.
pub record MayJoin (c : Crypto) (now raw user_id : ℕ) (w : World) (i : Invitation) (u : User)
    : Type 0 where
  pub row : Has i w.invitations
  pub token : i.token_hash ≡ c.hash_token raw
  pub fresh : i.accepted_at ≡ none
  pub in_time : ltb i.expires_at now ≡ false
  pub user_row : Has u w.users
  pub id : u.id ≡ user_id
  pub active : u.deleted_at ≡ none
  pub email : u.email ≡ i.email

module _ ⦃p : Prisma⦄ where
  check_accept_ok :
      (c : Crypto) (now raw user_id : ℕ) (w : World) {i : Invitation}
      → (check_accept c now raw user_id w).0 ≡ ok i
      → (u : User) × MayJoin c now raw user_id w i u
  unfolding check_accept find_by_token_hash Users.find_by_id Members.find_by_user_and_workspace
  check_accept_ok c now raw user_id w {i} e =
      let by_hash = λ (i : Invitation). i.token_hash == c.hash_token raw in
      let by_id = λ (u : User). u.id == user_id && not (is_some u.deleted_at) in
      elim (Option-cases (p.find by_hash w.invitations)) [
        | inl missing ↦ absurd (ground arith)
        | inr (i', ei) ↦ elim (Option-cases (p.find by_id w.users)) [
          | inl gone ↦ absurd (ground arith)
          | inr (u, eu) ↦
              let fits = find_test by_id w.users u eu in
              let same : i' ≡ i = ground arith in
              let mine : str_eq u.email i'.email ≡ true = ground arith in
              (
                u,
                rw (← same) (record {
                  row = find_Has by_hash w.invitations i' ei;
                  token = (==_iff _ _).0 (find_test by_hash w.invitations i' ei);
                  fresh = ground arith;
                  in_time = ground arith;
                  user_row = find_Has by_id w.users u eu;
                  id = ground arith;
                  active = ground arith;
                  email = (eq_iff u.email i'.email).0 mine;
                }),
              )
        ]
      ]

  check_accept_keeps :
      (c : Crypto) (now raw user_id : ℕ) (w : World) → (check_accept c now raw user_id w).1 ≡ w
  unfolding check_accept find_by_token_hash Users.find_by_id Members.find_by_user_and_workspace
  check_accept_keeps c now raw user_id w = ground arith

  write_accept_ok :
      (now member_id user_id : ℕ) (i : Invitation) (w : World) {r : AcceptInvitationResult}
      → (write_accept now member_id user_id i w).0 ≡ ok r
      → let w' = (write_accept now member_id user_id i w).1 in
        (r ≡ record { workspace_id = i.workspace_id; role_id = i.role_id })
        × (w'.members ≡ w.members ++ new_member now member_id user_id i ∷ [])
        × (p.update (λ r. r.id == i.id) (accepted now) w.invitations ≡ some w'.invitations)
  unfolding write_accept mark_as_accepted Members.create
  write_accept_ok now member_id user_id i w e =
      elim (Option-cases
        (p.create Members.same_key (new_member now member_id user_id i) w.members)) [
          | inl clash ↦ absurd (ground arith)
          | inr (rows, er) ↦
              let added =
                create_rows Members.same_key (new_member now member_id user_id i) w.members rows
                  er in
              elim (Option-cases (p.update (λ r. r.id == i.id) (accepted now) w.invitations)) [
                | inl lost ↦ absurd (ground arith)
                | inr (rows', er') ↦ (ground arith, ground arith, ground arith)
              ]
        ]

  accept_invitation_split :
      (c : Crypto) (now member_id raw user_id : ℕ) (w : World) {r : AcceptInvitationResult}
      → (accept_invitation c now member_id raw user_id w).0 ≡ ok r
      → (i : Invitation) × ((check_accept c now raw user_id w).0 ≡ ok i)
        × (accept_invitation c now member_id raw user_id w ≡ write_accept now member_id user_id i w)
  unfolding accept_invitation
  accept_invitation_split c now member_id raw user_id w e =
      let rest = λ (i : Invitation). write_accept now member_id user_id i in
      let kept = check_accept_keeps c now raw user_id w in
      elim (Result-cases (check_accept c now raw user_id w).0) [
        | inr (x, refused) ↦
            absurd (ground (arith, bind_err (check_accept c now raw user_id) rest w x refused))
        | inl (i, checked) ↦
            (i, checked, bind_ok (check_accept c now raw user_id) rest w i checked kept)
      ]

  -- An accepted invitation: the token's row was neither accepted nor expired, the user exists, was
  -- not deleted and has the email that was invited. One member is added, the user in the
  -- invitation's workspace with the invitation's role, and the answer names those two.
  pub accept_invitation_joins :
      (c : Crypto) (now member_id raw user_id : ℕ) (w : World) {r : AcceptInvitationResult}
      → (accept_invitation c now member_id raw user_id w).0 ≡ ok r
      → (i : Invitation) × (u : User) × MayJoin c now raw user_id w i u
        × (r ≡ record { workspace_id = i.workspace_id; role_id = i.role_id })
        × ((accept_invitation c now member_id raw user_id w).1.members
            ≡ w.members ++ new_member now member_id user_id i ∷ [])
  accept_invitation_joins c now member_id raw user_id w e =
      let (i, checked, taken) = accept_invitation_split c now member_id raw user_id w e in
      let (u, may) = check_accept_ok c now raw user_id w checked in
      let (answer, joined, _) = write_accept_ok now member_id user_id i w (rw taken at e) in
      (i, u, may, answer, rw taken joined)

  check_accept_used :
      (c : Crypto) (now raw user_id : ℕ) (w : World)
      → All
          (λ (i : Invitation). i.token_hash ≡ c.hash_token raw → is_some i.accepted_at ≡ true)
          w.invitations
      → is_ok (check_accept c now raw user_id w).0 ≡ false
  unfolding check_accept find_by_token_hash
  check_accept_used c now raw user_id w spent =
      let test = λ (i : Invitation). i.token_hash == c.hash_token raw in
      elim (Option-cases (p.find test w.invitations)) [
        | inl missing ↦ ground arith
        | inr (i, ef) ↦
            let gone : is_some i.accepted_at ≡ true =
              All-Has
                (λ (i : Invitation). i.token_hash ≡ c.hash_token raw → is_some i.accepted_at ≡ true)
                i w.invitations spent (find_Has test w.invitations i ef)
                ((==_iff _ _).0 (find_test test w.invitations i ef)) in
            rw (ef, gone)
      ]

  accepted_used :
      (now h : ℕ) (i : Invitation) (rows rows' : List Invitation)
      → HasUniqueHashes rows
      → Has i rows
      → i.token_hash ≡ h
      → p.update (λ r. r.id == i.id) (accepted now) rows ≡ some rows'
      → All (λ (i : Invitation). i.token_hash ≡ h → is_some i.accepted_at ≡ true) rows'
  accepted_used now h i rows rows' unique m own e =
      let same =
        All-Has
          (λ (a : Invitation).
            All (λ (b : Invitation). b.token_hash ≡ a.token_hash → b.id ≡ a.id) rows)
          i rows unique m in
      rw (update_rows (λ r. r.id == i.id) (accepted now) rows rows' e) (
        All-map (λ (i : Invitation). i.token_hash ≡ h → is_some i.accepted_at ≡ true)
          (written (λ (r : Invitation). r.id == i.id) (accepted now)) rows
          (λ r mr.
            let at =
              All-Has (λ (b : Invitation). b.token_hash ≡ i.token_hash → b.id ≡ i.id) r rows same
                mr in
            ground arith))

  -- A token with which an invitation was accepted is refused from then on, for every user. The token
  -- hashes of the table are unique to begin with.
  pub accept_invitation_single_use :
      (c : Crypto) (now later member_id member_id' raw user_id user_id' : ℕ) (w : World)
      {r : AcceptInvitationResult}
      → HasUniqueHashes w.invitations
      → (accept_invitation c now member_id raw user_id w).0 ≡ ok r
      → is_ok
          (accept_invitation c later member_id' raw user_id'
            (accept_invitation c now member_id raw user_id w).1).0
        ≡ false
  accept_invitation_single_use c now later member_id member_id' raw user_id user_id' w unique e =
      let w' = (accept_invitation c now member_id raw user_id w).1 in
      let (i, checked, taken) = accept_invitation_split c now member_id raw user_id w e in
      let (u, may) = check_accept_ok c now raw user_id w checked in
      let (_, _, marked) = write_accept_ok now member_id user_id i w (rw taken at e) in
      let spent =
        accepted_used now (c.hash_token raw) i w.invitations
          (write_accept now member_id user_id i w).1.invitations unique may.row may.token marked in
      let refused = check_accept_used c later raw user_id' w' (rw taken spent) in
      elim (Result-cases (accept_invitation c later member_id' raw user_id' w').0) [
        | inr (x, failed) ↦ rw failed
        | inl (r', done) ↦
            let (j, again, _) = accept_invitation_split c later member_id' raw user_id' w' done in
            absurd (ground arith)
      ]
