-- ===== src/Http/Errors/Discreet.antt =====
-- What src/shared/filters/all-exceptions.filter.ts answers in production.
use base_api_nest_js.Base.{ℕ, ◌≤◌, ◌≡◌, ◌↔◌, refl, sym, ap, ◌∙◌, true, none, String, leb, arith}
use base_api_nest_js.Http.Errors.{
  Exception, HttpResponse, http_exception, prisma_known, prisma_validation, other_error,
  other_value, FailedRequest, catch, normalize,
}

-- What the class of an exception lets a client see: of an HttpException what its author wrote, of an
-- error of the database its code, of anything else nothing.
pub data View : Type 0 where
  written : ℕ → HttpResponse → String → View
  database : String → View
  invalid_query : View
  unexpected : View

abbrev pub view : Exception → View
view (http_exception status response message stack) = written status response message
view (prisma_known code message stack) = database code
view (prisma_validation message stack) = invalid_query
view (other_error message stack) = unexpected
view (other_value value) = unexpected

-- An exception of the same view, with an empty message and no stack.
abbrev bare : View → Exception
bare (written status response message) = http_exception status response message none
bare (database code) = prisma_known code "" none
bare invalid_query = prisma_validation "" none
bare unexpected = other_value ""

leb_iff : (a b : ℕ) → (leb a b ≡ true) ↔ (a ≤ b)
leb_iff a b = ground arith

catch-bare :
    (now : ℕ) (request : FailedRequest) (e : Exception)
    → catch true now request e ≡ catch true now request (bare (view e))
unfolding catch
catch-bare now request (http_exception status response message stack) = refl
catch-bare now request (prisma_known code message stack) = refl
catch-bare now request (prisma_validation message stack) = refl
catch-bare now request (other_error message stack) = refl
catch-bare now request (other_value value) = refl

logged :
    (now : ℕ) (request : FailedRequest) (e : Exception)
    → ((catch true now request e).1 ≡ true) ↔ (500 ≤ (catch true now request e).0.status_code)
unfolding catch
logged now request e = leb_iff 500 (normalize e).status_code

-- In production two exceptions of one view are answered and logged alike: neither the message
-- of an unexpected or a database error nor any stack has an influence on the answer. No answer has a
-- stack, and an exception is logged exactly if the answer's status is 500 or more.
pub catch_discreet :
    (now : ℕ) (request : FailedRequest) (e f : Exception)
    → view e ≡ view f
    → (catch true now request e ≡ catch true now request f)
      × ((catch true now request e).0.stack ≡ none)
      × (((catch true now request e).1 ≡ true) ↔ (500 ≤ (catch true now request e).0.status_code))
unfolding catch
catch_discreet now request e f same = (
  catch-bare now request e
      ∙ ap (λ v. catch true now request (bare v)) same
      ∙ sym (catch-bare now request f),
  refl,
  logged now request e,
)
