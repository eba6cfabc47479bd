-- ===== src/Http/Audited/Agreement.antt =====
-- Requests that differ under sensitive keys only, beside src/shared/interceptors/audit.interceptor.ts.
use base_api_nest_js.Base.{
  ℕ, ◌≡◌, refl, ap, true, List, map, String, codes, includes, Has, any-true,
}
use base_api_nest_js.Password.Parts.{IsWithin, includes_iff}
use base_api_nest_js.Http.Json.{Json, Items, Fields, object, array, nil, cons, end, field}
use base_api_nest_js.Http.Audited.{
  sensitive_words, fold_case, is_sensitive, sanitize, sanitize_items, sanitize_fields,
  AuditMetadata, Request, record_log, extract_resource_id, get_or,
}

-- The key has one of the listed words as a part, in whatever case.
abbrev pub IsSecret : List ℕ → Type 0
IsSecret key =
    (word : String) × Has word sensitive_words × IsWithin (codes word) (map fold_case key)

pub is_sensitive-IsSecret : (key : List ℕ) → IsSecret key → is_sensitive key ≡ true
unfolding is_sensitive
is_sensitive-IsSecret key (word, listed, part) =
    any-true (λ w. includes (codes w) (map fold_case key)) word sensitive_words listed
      ((includes_iff (codes word) (map fold_case key)).1 part)

-- Two values agree where no key on the way is sensitive.
mutual
  pub data Agree : Json → Json → Type 0 where
    same : (v : Json) → Agree v v
    arrays : {xs ys : Items} → AgreeItems xs ys → Agree (array xs) (array ys)
    objects : {fs gs : Fields} → AgreeFields fs gs → Agree (object fs) (object gs)

  pub data AgreeItems : Items → Items → Type 0 where
    no_items : AgreeItems nil nil
    items :
        {v w : Json} {xs ys : Items}
        → Agree v w
        → AgreeItems xs ys
        → AgreeItems (cons v xs) (cons w ys)

  pub data AgreeFields : Fields → Fields → Type 0 where
    no_fields : AgreeFields end end
    shown :
        (key : List ℕ) {v w : Json} {fs gs : Fields}
        → Agree v w
        → AgreeFields fs gs
        → AgreeFields (field key v fs) (field key w gs)
    secret :
        (key : List ℕ) (v w : Json) {fs gs : Fields}
        → IsSecret key
        → AgreeFields fs gs
        → AgreeFields (field key v fs) (field key w gs)

mutual
  unfolding sanitize

  sanitize-Agree : {v w : Json} → Agree v w → sanitize v ≡ sanitize w
  sanitize-Agree (same v) = refl
  sanitize-Agree (arrays h) = ap array (items-Agree h)
  sanitize-Agree (objects h) = ap object (fields-Agree h)

  items-Agree : {xs ys : Items} → AgreeItems xs ys → sanitize_items xs ≡ sanitize_items ys
  items-Agree no_items = refl
  items-Agree (items h t) = rw (sanitize-Agree h, items-Agree t)

  fields-Agree : {fs gs : Fields} → AgreeFields fs gs → sanitize_fields fs ≡ sanitize_fields gs
  fields-Agree no_fields = refl
  fields-Agree (shown key h t) = rw (sanitize-Agree h, fields-Agree t)
  fields-Agree (secret key v w s t) = rw (is_sensitive-IsSecret key s, fields-Agree t)

-- Two requests by the same user to the same route, whose parameters, query and body differ at most in
-- what stands under sensitive keys.
pub record Alike (r q : Request) : Type 0 where
  pub user : r.user ≡ q.user
  pub workspace : r.workspace ≡ q.workspace
  pub method : r.method ≡ q.method
  pub path : get_or r.url r.route_path ≡ get_or q.url q.route_path
  pub ip : r.ip ≡ q.ip
  pub user_agent : r.user_agent ≡ q.user_agent
  pub params : AgreeFields r.params q.params
  pub query : Agree r.query q.query
  pub body : Agree r.body q.body

-- Two such requests are recorded alike, if the same id of the resource is read from both: what stands
-- under a key that has one of the listed words as a part, in whatever case and at whatever depth, has
-- no influence on the entry.
pub record_log-Alike :
    (meta : AuditMetadata) (r q : Request) (response : Json)
    → Alike r q
    → extract_resource_id meta r response ≡ extract_resource_id meta q response
    → record_log meta r response ≡ record_log meta q response
unfolding record_log sanitize
record_log-Alike meta r q response h id =
    let params = fields-Agree h.params in
    let query = sanitize-Agree h.query in
    let body = sanitize-Agree h.body in
    rw (h.user, h.workspace, h.method, h.path, h.ip, h.user_agent, id, params, query, body)
