-- ===== src/Features.antt =====
-- Feature flags: src/modules/feature-flags. The table stands alone; the cached list of a workspace is the
-- query behind it, since each write invalidates the cache.
pub mod History
pub mod Gate
use base_api_nest_js.Base.{
  ℕ, Bool, true, false, ◌&&◌, ◌==◌, String, Option, none, some, List, [], ◌∷◌, if◌then◌else◌, find,
  map, str_eq, is_some,
}
use base_api_nest_js.Prisma.{Prisma}
use base_api_nest_js.World.{Result, ok, err, forbidden, not_found}

pub record FeatureDefinition : Type 0 where
  pub key : String
  pub description : String
  pub default_enabled : Bool

abbrev feature : String → String → Bool → FeatureDefinition
feature key description default_enabled = record {
  key = key;
  description = description;
  default_enabled = default_enabled;
}

-- ALL_FEATURES, the values of FEATURES
abbrev pub all_features : List FeatureDefinition
all_features =
    feature "billing" "Billing module and invoice endpoints" false
    ∷ feature "beta:usage-graphs" "Beta usage analytics dashboards" false
    ∷ feature "advanced:audit-export" "Advanced audit log export (CSV/SIEM stream)" false
    ∷ []

-- FEATURE_BY_KEY.get, for the keys of ALL_FEATURES, which are distinct
unfoldable pub feature_by_key : String → Option FeatureDefinition
feature_by_key key = find (λ def. str_eq def.key key) all_features

unfoldable pub is_known_feature_key : String → Bool
unfolding feature_by_key
is_known_feature_key key = is_some (feature_by_key key)

pub record WorkspaceFeatureFlag : Type 0 where
  pub id : ℕ
  pub workspace_id : ℕ
  pub key : String
  pub enabled : Bool
  pub created_at : ℕ
  pub updated_at : ℕ

pub record EffectiveFeature : Type 0 where
  pub key : String
  pub description : String
  pub enabled : Bool
  pub default_enabled : Bool
  pub overridden : Bool

-- `override ?? def.defaultEnabled`
abbrev pub enabled_or : Bool → Option Bool → Bool
enabled_or d none = d
enabled_or d (some b) = b

unfoldable pub merge : FeatureDefinition → Option Bool → EffectiveFeature
merge def override = record {
  key = def.key;
  description = def.description;
  default_enabled = def.default_enabled;
  enabled = enabled_or def.default_enabled override;
  overridden = is_some override;
}

-- `new Map(overrides.map((o) => [o.key, o.enabled])).get(key)`: a later entry replaces an earlier one.
unfoldable pub override_of : String → List WorkspaceFeatureFlag → Option Bool
override_of key [] = none
override_of key (o ∷ overrides) = elim (override_of key overrides) [
  | some later ↦ some later
  | none ↦ if str_eq o.key key then some o.enabled else none
]

-- `where: { workspaceId_key: { workspaceId, key } }`
abbrev pub is_flag : ℕ → String → WorkspaceFeatureFlag → Bool
is_flag workspace_id key r = r.workspace_id == workspace_id && str_eq r.key key

abbrev pub new_flag : ℕ → ℕ → ℕ → String → Bool → WorkspaceFeatureFlag
new_flag id now workspace_id key enabled = record {
  id = id;
  workspace_id = workspace_id;
  key = key;
  enabled = enabled;
  created_at = now;
  updated_at = now;
}

-- `effective.find((f) => f.key === key)?.enabled ?? def.defaultEnabled`
abbrev pub enabled_of : FeatureDefinition → Option EffectiveFeature → Bool
enabled_of def none = def.default_enabled
enabled_of def (some f) = f.enabled

abbrev pub is_enabled_in : String → List EffectiveFeature → Option FeatureDefinition → Bool
is_enabled_in key effective none = false
is_enabled_in key effective (some def) = enabled_of def (find (λ f. str_eq f.key key) effective)

module _ ⦃p : Prisma⦄ where
  -- PrismaFeatureFlagsRepository
  unfoldable pub find_by_workspace : ℕ → List WorkspaceFeatureFlag → List WorkspaceFeatureFlag
  find_by_workspace workspace_id t = p.find_many (λ r. r.workspace_id == workspace_id) t

  unfoldable pub find_one : ℕ → String → List WorkspaceFeatureFlag → Option WorkspaceFeatureFlag
  find_one workspace_id key t = p.find (is_flag workspace_id key) t

  unfoldable pub upsert :
      ℕ → ℕ → ℕ → String → Bool → List WorkspaceFeatureFlag → List WorkspaceFeatureFlag
  upsert id now workspace_id key enabled t =
      p.upsert (is_flag workspace_id key) (λ r. record r { enabled = enabled; updated_at = now })
        (new_flag id now workspace_id key enabled) t

  unfoldable pub delete : ℕ → String → List WorkspaceFeatureFlag → List WorkspaceFeatureFlag
  delete workspace_id key t = p.delete_many (is_flag workspace_id key) t

  -- FeatureFlagsService
  unfoldable pub get_effective : ℕ → List WorkspaceFeatureFlag → List EffectiveFeature
  unfolding find_by_workspace merge override_of
  get_effective workspace_id t =
      let overrides = find_by_workspace workspace_id t in
      map (λ def. merge def (override_of def.key overrides)) all_features

  unfoldable pub is_enabled : ℕ → String → List WorkspaceFeatureFlag → Bool
  unfolding feature_by_key get_effective
  is_enabled workspace_id key t =
      is_enabled_in key (get_effective workspace_id t) (feature_by_key key)

  -- What an upsert answers is the row of the unique index.
  unfoldable pub set_override :
      ℕ
      → ℕ
      → ℕ
      → String
      → Bool
      → List WorkspaceFeatureFlag
      → Result (Option WorkspaceFeatureFlag) × List WorkspaceFeatureFlag
  unfolding is_known_feature_key find_one upsert
  set_override id now workspace_id key enabled t =
      if is_known_feature_key key
      then (let t' = upsert id now workspace_id key enabled t in
          (ok (find_one workspace_id key t'), t'))
      else (err (not_found "Unknown feature key"), t)

  unfoldable pub clear_override :
      ℕ → String → List WorkspaceFeatureFlag → Result (Unit {0}) × List WorkspaceFeatureFlag
  unfolding is_known_feature_key delete
  clear_override workspace_id key t =
      if is_known_feature_key key
      then (ok tt, delete workspace_id key t)
      else (err (not_found "Unknown feature key"), t)

  -- FeatureGuard, with the key of the handler's metadata and the workspace of the request.
  unfoldable pub can_activate : Option String → Option ℕ → List WorkspaceFeatureFlag → Result Bool
  unfolding is_enabled
  can_activate none workspace_id t = ok true
  can_activate (some required) none t =
      if str_eq required ""
      then ok true
      else err (forbidden "Feature-gated route requires a workspace context")
  can_activate (some required) (some workspace_id) t =
      if str_eq required ""
      then ok true
      else if is_enabled workspace_id required t
      then ok true
      else err (forbidden "Feature is not enabled for this workspace")
