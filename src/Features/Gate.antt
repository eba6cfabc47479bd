-- ===== src/Features/Gate.antt =====
-- The gate of src/modules/feature-flags/guards/feature.guard.ts after any calls of the service.
use base_api_nest_js.Base.{
  ℕ, ◌≡◌, refl, sym, ap, ◌∙◌, inl, inr, arith, Bool, true, false, ◌&&◌, ◌||◌, ◌==◌, String, Option,
  none, some, List, [], ◌∷◌, if◌then◌else◌, find, map, str_eq, eq_iff, Bool-cases, is_some,
  Option-cases, filter,
}
use base_api_nest_js.Prisma.{Prisma}
use base_api_nest_js.World.{ok, err, forbidden}
use base_api_nest_js.Features.{
  FeatureDefinition, WorkspaceFeatureFlag, feature_by_key, is_known_feature_key, all_features,
  merge, override_of, enabled_or, enabled_of, is_enabled_in, set_override, clear_override,
  is_enabled, can_activate, get_effective, find_by_workspace,
}
use base_api_nest_js.Features.History.{setting, setting-upsert, setting-delete}

-- Calls of the service, each with the draw of an id and the clock where it needs them.
pub data FlagCall : Type 0 where
  set : (id now workspace_id : ℕ) (key : String) (enabled : Bool) → FlagCall
  clear : (workspace_id : ℕ) (key : String) → FlagCall

-- The override that a call decides on, and for which workspace and key.
abbrev pub decision : FlagCall → Option Bool
decision (set id now ws key enabled) = some enabled
decision (clear ws key) = none

abbrev pub concerns : ℕ → String → FlagCall → Bool
concerns v k (set id now ws key enabled) = ws == v && str_eq key k
concerns v k (clear ws key) = ws == v && str_eq key k

-- The latest call that concerns the workspace and the key decides, and without one the start.
abbrev pub override_after : ℕ → String → Option Bool → List FlagCall → Option Bool
override_after v k start [] = start
override_after v k start (c ∷ cs) =
    override_after v k (if concerns v k c then decision c else start) cs

-- What is promised: a key that is not registered is off, and any other follows its override, or else
-- its default.
abbrev pub is_on : Option FeatureDefinition → Option Bool → Bool
is_on none override = false
is_on (some def) override = enabled_or def.default_enabled override

module _ (key : String) (overrides : List WorkspaceFeatureFlag) where
  -- The list that getEffective maps, searched for the key.
  enabled_found :
      (defs : List FeatureDefinition) (def : FeatureDefinition)
      → find (λ d. str_eq d.key key) defs ≡ some def
      → enabled_of def
          (find (λ f. str_eq f.key key) (map (λ d. merge d (override_of d.key overrides)) defs))
        ≡ enabled_or def.default_enabled (override_of key overrides)
  unfolding merge
  enabled_found [] def e = absurd (cc e)
  enabled_found (d ∷ defs) def e = elim (Bool-cases (str_eq d.key key)) [
    | inl hit ↦
        let found : some d ≡ some def = rw hit at e in
        let is_def : d ≡ def = cc found in
        let is_key = (eq_iff d.key key).0 hit in rw (hit, ← is_def, is_key)
    | inr miss ↦
        let found : find (λ d. str_eq d.key key) defs ≡ some def = rw miss at e in
        rw miss (enabled_found defs def found)
  ]

feature_by_key-find : (k : String) → feature_by_key k ≡ find (λ d. str_eq d.key k) all_features
unfolding feature_by_key
feature_by_key-find k = refl

is_enabled_in-is_on :
    (k : String) (overrides : List WorkspaceFeatureFlag) (o : Option FeatureDefinition)
    → feature_by_key k ≡ o
    → is_enabled_in k (map (λ d. merge d (override_of d.key overrides)) all_features) o
      ≡ is_on o (override_of k overrides)
is_enabled_in-is_on k overrides none e = refl
is_enabled_in-is_on k overrides (some def) e =
    enabled_found k overrides all_features def (sym (feature_by_key-find k) ∙ e)

-- A key that is registered is no key that is not.
other_key :
    (key k : String) (b : Bool)
    → is_known_feature_key key ≡ false
    → is_known_feature_key k ≡ true
    → (b && str_eq key k) ≡ false
other_key key k b other known = elim (Bool-cases (str_eq key k)) [
  | inl same ↦ absurd (cc (other, known, (eq_iff key k).0 same))
  | inr differ ↦ ground arith
]

module _ ⦃p : Prisma⦄ where
  abbrev pub call : FlagCall → List WorkspaceFeatureFlag → List WorkspaceFeatureFlag
  call (set id now ws key enabled) t = (set_override id now ws key enabled t).1
  call (clear ws key) t = (clear_override ws key t).1

  abbrev pub calls : List FlagCall → List WorkspaceFeatureFlag → List WorkspaceFeatureFlag
  calls [] t = t
  calls (c ∷ cs) t = calls cs (call c t)

  is_enabled-setting :
      (v : ℕ) (k : String) (t : List WorkspaceFeatureFlag)
      → is_enabled v k t ≡ is_on (feature_by_key k) (setting v k t)
  unfolding is_enabled get_effective find_by_workspace
  is_enabled-setting v k t =
      rw (p.find_many_lem)
        (is_enabled_in-is_on k (filter (λ r. r.workspace_id == v) t) (feature_by_key k) refl)

  -- A call on a key that is not registered changes nothing, and is of another key.
  setting-set :
      (v id now ws : ℕ) (k key : String) (enabled : Bool) (t : List WorkspaceFeatureFlag)
      → is_known_feature_key k ≡ true
      → setting v k (set_override id now ws key enabled t).1
        ≡ (if ws == v && str_eq key k then some enabled else setting v k t)
  unfolding set_override
  setting-set v id now ws k key enabled t known = elim (Bool-cases (is_known_feature_key key)) [
    | inl listed ↦ rw listed (setting-upsert ws v key k id now enabled t)
    | inr other ↦ rw (other, other_key key k (ws == v) other known)
  ]

  setting-clear :
      (v ws : ℕ) (k key : String) (t : List WorkspaceFeatureFlag)
      → is_known_feature_key k ≡ true
      → setting v k (clear_override ws key t).1
        ≡ (if ws == v && str_eq key k then none else setting v k t)
  unfolding clear_override
  setting-clear v ws k key t known = elim (Bool-cases (is_known_feature_key key)) [
    | inl listed ↦ rw listed (setting-delete ws v key k t)
    | inr other ↦ rw (other, other_key key k (ws == v) other known)
  ]

  setting-calls :
      (v : ℕ) (k : String) (cs : List FlagCall) (t : List WorkspaceFeatureFlag)
      → is_known_feature_key k ≡ true
      → setting v k (calls cs t) ≡ override_after v k (setting v k t) cs
  setting-calls v k [] t known = refl
  setting-calls v k (set id now ws key enabled ∷ cs) t known =
      setting-calls v k cs (set_override id now ws key enabled t).1 known
      ∙ ap (λ o. override_after v k o cs) (setting-set v id now ws k key enabled t known)
  setting-calls v k (clear ws key ∷ cs) t known =
      setting-calls v k cs (clear_override ws key t).1 known
      ∙ ap (λ o. override_after v k o cs) (setting-clear v ws k key t known)

  is_known :
      (k : String) (o : Option FeatureDefinition)
      → feature_by_key k ≡ o
      → is_known_feature_key k ≡ is_some o
  unfolding is_known_feature_key
  is_known k o e = rw e

  is_enabled-calls :
      (cs : List FlagCall) (t : List WorkspaceFeatureFlag) (v : ℕ) (k : String)
      → is_enabled v k (calls cs t)
        ≡ is_on (feature_by_key k) (override_after v k (setting v k t) cs)
  is_enabled-calls cs t v k =
      is_enabled-setting v k (calls cs t) ∙ elim (Option-cases (feature_by_key k)) [
        | inl none_such ↦ rw none_such
        | inr (def, found) ↦
            ap (λ o. is_on (feature_by_key k) o)
              (setting-calls v k cs t (is_known k (some def) found))
      ]

  -- After any calls of the service, in any order and for any workspaces, a feature is on for a workspace just if its key is
  -- registered, and the latest call that concerned this workspace and key switched it on, or cleared it and its default is on;
  -- without such a call it is as it was; and the guard of a route that requires the feature lets a request through exactly then, or if the
  -- key is empty.
  pub can_activate-calls :
      (cs : List FlagCall) (t : List WorkspaceFeatureFlag) (v : ℕ) (k : String)
      → (is_enabled v k (calls cs t)
          ≡ is_on (feature_by_key k) (override_after v k (setting v k t) cs))
        × (can_activate (some k) (some v) (calls cs t) ≡ (
            if str_eq k "" || is_on (feature_by_key k) (override_after v k (setting v k t) cs)
            then ok true
            else err (forbidden "Feature is not enabled for this workspace")))
  unfolding can_activate
  can_activate-calls cs t v k = (
    is_enabled-calls cs t v k,
    elim (Bool-cases (str_eq k "")) [
      | inl empty ↦ rw empty refl
      | inr named ↦ rw (named, is_enabled-calls cs t v k) refl
    ],
  )
