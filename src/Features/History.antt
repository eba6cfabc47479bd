-- ===== src/Features/History.antt =====
-- The overrides of src/modules/feature-flags as a map from workspaces and keys.
use base_api_nest_js.Base.{
  ℕ, ◌≡◌, refl, sym, ◌∙◌, inl, inr, arith, Bool, true, false, not, ◌&&◌, ◌==◌, String, Option, none,
  some, List, [], ◌∷◌, ◌++◌, if◌then◌else◌, filter, any, map, str_eq, eq_iff, Bool-cases, ==_iff,
}
use base_api_nest_js.Prisma.{Prisma, written}
use base_api_nest_js.Features.{WorkspaceFeatureFlag, override_of, is_flag, new_flag, upsert, delete}

-- The override of a key in a workspace.
abbrev pub setting : ℕ → String → List WorkspaceFeatureFlag → Option Bool
setting ws key t = override_of key (filter (λ r. r.workspace_id == ws) t)

module _ (ws v : ℕ) (key k : String) where
  setting-removed :
      (t : List WorkspaceFeatureFlag)
      → setting v k (filter (λ r. not (is_flag ws key r)) t)
        ≡ (if ws == v && str_eq key k then none else setting v k t)
  unfolding override_of
  setting-removed [] = ground arith
  setting-removed (r ∷ t) =
      let ih = setting-removed t in
      let same = eq_iff key k in
      let mine = eq_iff r.key key in let theirs = eq_iff r.key k in ground arith

-- A later entry, or the first one if it is of the key.
abbrev or_first : Option Bool → Bool → Bool → Option Bool
or_first none hit enabled = if hit then some enabled else none
or_first (some later) hit enabled = some later

or_first_miss : (o : Option Bool) (d e : Bool) → or_first o false d ≡ or_first o false e
or_first_miss none d e = refl
or_first_miss (some later) d e = refl

or_first_kept : (o : Option Bool) (e : Bool) → or_first o false e ≡ o
or_first_kept none e = refl
or_first_kept (some later) e = refl

or_first_hit : (b e : Bool) → or_first (if b then some e else none) true e ≡ some e
or_first_hit true e = refl
or_first_hit false e = refl

setting-cons :
    (v : ℕ) (k : String) (r : WorkspaceFeatureFlag) (t : List WorkspaceFeatureFlag)
    → setting v k (r ∷ t) ≡ or_first (setting v k t) (is_flag v k r) r.enabled
unfolding override_of
setting-cons v k r t = ground arith

-- A row is of one workspace and key.
is_flag_other :
    (ws v : ℕ) (key k : String) (r : WorkspaceFeatureFlag)
    → (ws == v && str_eq key k) ≡ false
    → is_flag ws key r ≡ true
    → is_flag v k r ≡ false
is_flag_other ws v key k r h e =
    let same = eq_iff key k in
    let mine = eq_iff r.key key in let theirs = eq_iff r.key k in ground arith

module _ (ws now : ℕ) (key : String) (enabled : Bool) where
  -- The update of an upsert.
  abbrev updated : WorkspaceFeatureFlag → WorkspaceFeatureFlag
  updated r = written (is_flag ws key) (λ q. record q { enabled = enabled; updated_at = now }) r

  setting-updated_same :
      (t : List WorkspaceFeatureFlag)
      → setting ws key (map updated t) ≡ (if any (is_flag ws key) t then some enabled else none)
  unfolding override_of
  setting-updated_same [] = refl
  setting-updated_same (r ∷ t) =
      let ih = setting-updated_same t in
      let cons = setting-cons ws key (updated r) (map updated t) in
      elim (Bool-cases (is_flag ws key r)) [
        | inl hit ↦ cons ∙ rw (ih, hit, hit) (or_first_hit (any (is_flag ws key) t) enabled)
        | inr miss ↦ cons ∙ rw (ih, miss, miss) (or_first_kept _ r.enabled)
      ]

  setting-updated_other :
      (v : ℕ) (k : String) (t : List WorkspaceFeatureFlag)
      → (ws == v && str_eq key k) ≡ false
      → setting v k (map updated t) ≡ setting v k t
  setting-updated_other v k [] other = refl
  setting-updated_other v k (r ∷ t) other =
      let ih = setting-updated_other v k t other in
      let new = setting-cons v k (updated r) (map updated t) in
      let old = setting-cons v k r t in
      elim (Bool-cases (is_flag ws key r)) [
        | inl hit ↦
            new
            ∙ rw (ih, hit, is_flag_other ws v key k r other hit)
                (or_first_miss (setting v k t) enabled r.enabled)
            ∙ sym old
        | inr miss ↦ new ∙ rw (ih, miss) (sym old)
      ]

module _ (ws v now : ℕ) (key k : String) (enabled : Bool) where
  setting-append :
      (id : ℕ) (t : List WorkspaceFeatureFlag)
      → setting v k (t ++ new_flag id now ws key enabled ∷ [])
        ≡ (if ws == v && str_eq key k then some enabled else setting v k t)
  unfolding override_of
  setting-append id [] = ground arith
  setting-append id (r ∷ t) =
      let ih = setting-append id t in
      let same = eq_iff key k in let theirs = eq_iff r.key k in ground arith

module _ ⦃p : Prisma⦄ (ws v : ℕ) (key k : String) where
  setting-update :
      (now : ℕ) (enabled : Bool) (t : List WorkspaceFeatureFlag)
      → any (is_flag ws key) t ≡ true
      → setting v k (map (updated ws now key enabled) t)
        ≡ (if ws == v && str_eq key k then some enabled else setting v k t)
  setting-update now enabled t old = elim (Bool-cases (ws == v && str_eq key k)) [
    | inl same ↦
        let this = setting-updated_same ws now key enabled t in
        let ids = (==_iff ws v).0 (ground arith) in
        let keys = (eq_iff key k).0 (ground arith) in rw (same, ← ids, ← keys, this, old)
    | inr other ↦ rw other (setting-updated_other ws now key enabled v k t other)
  ]

  pub setting-upsert :
      (id now : ℕ) (enabled : Bool) (t : List WorkspaceFeatureFlag)
      → setting v k (upsert id now ws key enabled t)
        ≡ (if ws == v && str_eq key k then some enabled else setting v k t)
  unfolding upsert
  setting-upsert id now enabled t = elim (Bool-cases (any (is_flag ws key) t)) [
    | inl old ↦ rw (p.upsert_lem, old) (setting-update now enabled t old)
    | inr new ↦ rw (p.upsert_lem, new) (setting-append ws v now key k enabled id t)
  ]

  pub setting-delete :
      (t : List WorkspaceFeatureFlag)
      → setting v k (delete ws key t) ≡ (if ws == v && str_eq key k then none else setting v k t)
  unfolding delete
  setting-delete t = rw (p.delete_many_lem) (setting-removed ws v key k t)
