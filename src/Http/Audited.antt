-- ===== src/Http/Audited.antt =====
-- The audit interceptor: src/shared/interceptors/audit.interceptor.ts. `S` is the state that the handler
-- and the audit service work on.
pub mod Agreement
pub mod Redacted
use base_api_nest_js.Base.{
  ℕ, ◌+◌, Bool, true, false, ◌||◌, String, Option, none, some, List, [], ◌∷◌, ◌++◌, if◌then◌else◌,
  any, map, codes, includes, length, take, leb, between, list_eq,
}
use base_api_nest_js.World.{Result, ok, err}
use base_api_nest_js.Http.Json.{
  Json, Items, Fields, undefined, null, boolean, number, string, array, object, nil, cons, end,
  field, lookup,
}

-- The alternatives of SENSITIVE_FIELD_PATTERN.
abbrev pub sensitive_words : List String
sensitive_words =
    "pass" ∷ "secret" ∷ "token" ∷ "key" ∷ "credential" ∷ "auth" ∷ "cookie" ∷ "cvv" ∷ "pin" ∷ "otp"
    ∷ "hash" ∷ "salt" ∷ "nonce" ∷ "ssn" ∷ "cpf" ∷ "cnpj" ∷ "rg" ∷ "birth" ∷ "dob" ∷ "phone"
    ∷ "address" ∷ "card" ∷ []

-- The flag `i` of the pattern, whose words are ASCII: no other character folds to an ASCII letter.
abbrev pub fold_case : ℕ → ℕ
fold_case c = if between 65 90 c then c + 32 else c

-- SENSITIVE_FIELD_PATTERN.test
unfoldable pub is_sensitive : List ℕ → Bool
is_sensitive key = any (λ word. includes (codes word) (map fold_case key)) sensitive_words

abbrev pub max_value_length : ℕ
max_value_length = 200

abbrev pub truncation_suffix : String
truncation_suffix = "...[truncated]"

unfoldable pub truncate : List ℕ → List ℕ
truncate value =
    if leb (length value) max_value_length
    then value
    else take max_value_length value ++ codes truncation_suffix

abbrev pub redacted : Json
redacted = string (codes "[REDACTED]")

-- An assignment to `__proto__` sets the clone's prototype, and no field of its own.
abbrev pub is_proto : List ℕ → Bool
is_proto key = list_eq key (codes "__proto__")

-- One round of the loop over the fields: what it leaves of the field, before the later ones.
abbrev pub add_field : List ℕ → Json → Fields → Fields
add_field key val clone =
    if is_sensitive key
    then field key redacted clone
    else if is_proto key
    then clone
    else field key val clone

unfoldable mutual
  unfolding truncate

  pub sanitize : Json → Json
  sanitize undefined = undefined
  sanitize null = null
  sanitize (boolean b) = boolean b
  sanitize (number n) = number n
  sanitize (string s) = string (truncate s)
  sanitize (array xs) = array (sanitize_items xs)
  sanitize (object fs) = object (sanitize_fields fs)

  pub sanitize_items : Items → Items
  sanitize_items nil = nil
  sanitize_items (cons x xs) = cons (sanitize x) (sanitize_items xs)

  pub sanitize_fields : Fields → Fields
  sanitize_fields end = end
  sanitize_fields (field key val fs) = add_field key (sanitize val) (sanitize_fields fs)

pub data IdSource : Type 0 where
  from_response from_param : IdSource

pub record AuditMetadata : Type 0 where
  pub action : String
  pub resource : Option String
  pub resource_id_from : Option IdSource
  pub resource_id_field : Option (List ℕ)

pub record Request : Type 0 where
  pub user : Option ℕ
  pub workspace : Option ℕ
  pub method : String
  pub route_path : Option (List ℕ)
  pub url : List ℕ
  pub params : Fields
  pub query : Json
  pub body : Json
  pub ip : Option String
  pub user_agent : Option String

-- The argument of AuditService.log, with the metadata's five fields.
pub record RequestLog : Type 0 where
  pub user_id : Option ℕ
  pub workspace_id : Option ℕ
  pub action : String
  pub resource : Option String
  pub resource_id : Option (List ℕ)
  pub method : String
  pub path : List ℕ
  pub params : Json
  pub query : Json
  pub body : Json
  pub ip_address : Option String
  pub user_agent : Option String

-- A parameter of the path is a text, or several.
unfoldable pub param_id : Option Json → Option (List ℕ)
param_id (some (string value)) = some value
param_id (some (array (cons (string value) values))) = some value
param_id other = none

unfoldable pub value_id : Option Json → Option (List ℕ)
value_id (some (string value)) = some value
value_id (some (number value)) = some value
value_id other = none

unfoldable pub response_id : List ℕ → Json → Option (List ℕ)
unfolding value_id lookup
response_id key (object fs) = value_id (lookup key fs)
response_id key other = none

abbrev pub get_or {ℓ} : {A : Type ℓ} → A → Option A → A
get_or d none = d
get_or d (some a) = a

abbrev pub id_from : IdSource → List ℕ → Fields → Json → Option (List ℕ)
id_from from_param key params response = param_id (lookup key params)
id_from from_response key params response = response_id key response

unfoldable pub extract_resource_id : AuditMetadata → Request → Json → Option (List ℕ)
unfolding param_id response_id lookup
extract_resource_id meta req response =
    id_from (get_or from_response meta.resource_id_from)
      (get_or (codes "id") meta.resource_id_field) req.params response

unfoldable pub record_log : AuditMetadata → Request → Json → RequestLog
unfolding extract_resource_id sanitize
record_log meta req response = record {
  user_id = req.user;
  workspace_id = req.workspace;
  action = meta.action;
  resource = meta.resource;
  resource_id = extract_resource_id meta req response;
  method = req.method;
  path = get_or req.url req.route_path;
  params = sanitize (object req.params);
  query = sanitize req.query;
  body = sanitize req.body;
  ip_address = req.ip;
  user_agent = req.user_agent;
}

module _ {S : Type 0} (log : RequestLog → S → S) (next : S → Result Json × S) where
  -- AuditService.log never throws; a handler that throws is not recorded.
  abbrev pub after_handler : AuditMetadata → Request → Result Json × S → Result Json × S
  after_handler meta req (ok response, s) = (ok response, log (record_log meta req response) s)
  after_handler meta req (err e, s) = (err e, s)

  unfoldable pub intercept : Option AuditMetadata → Request → S → Result Json × S
  intercept none req s = next s
  intercept (some meta) req s = after_handler meta req (next s)
