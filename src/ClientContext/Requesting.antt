-- ===== src/ClientContext/Requesting.antt =====
-- What a request goes out with, and what its answer becomes.
use aniparse.Prelude.{
  ℕ, ◌≤◌, ◌<◌, true, false, ◌&&◌, Option, some, ◌≡◌, refl, ap, sym, ◌↔◌, ◌⊎◌, inl, inr, arith, ltb,
  leb, ltb→lt, leb→le, Bytes, Bool-cases,
}
use aniparse.Prelude.Int.{ℤ, pos, negsuc, abs}
use aniparse.Prelude.StdMap.{StdMap}
use aniparse.Requests.{ClientRequest}
use aniparse.ClientContext.{
  ParserConfig, unexpected_response, RequestError, ResponseData, Response, ok, unexpected,
  is_success_status, status_to_error_code, require_success, fetch_ok, Parsed, parsed, refused,
  parsed_as, parse_fetched, request, request_parsed,
}

-- A status from 200 to 299.
abbrev pub IsSuccess : ℤ → Type 0
IsSuccess status = (n : ℕ) × (status ≡ pos n) × (200 ≤ n) × (n < 300)

is_success_status_iff : (status : ℤ) → (is_success_status status ≡ true) ↔ IsSuccess status
unfolding is_success_status
is_success_status_iff (pos n) = (
  (λ h. (n, refl, leb→le 200 n (ground (arith, h)), ltb→lt n 300 (ground (arith, h)))),
  λ g. in_range n g,
)
  where
    in_range : (n : ℕ) → IsSuccess (pos n) → (leb 200 n && ltb n 300) ≡ true
    in_range n (m, e, low, high) = let same : n ≡ m = ap abs e in ground (arith, same, low, high)
is_success_status_iff (negsuc n) = ((λ h. cc), λ g. absurd (cc (g.1)))

-- Where the answer comes from.
abbrev pub IsErrorOf : RequestError → ResponseData → Type 0
IsErrorOf e response =
    (e.http_status ≡ some response.status_code)
    × (e.body ≡ response.body)
    × (((is_success_status response.status_code ≡ false)
          × (e.code ≡ status_to_error_code response.status_code))
        ⊎ (IsSuccess response.status_code × (e.code ≡ unexpected_response)))

module _ {A : Type 0} (prefix : Bytes) (parse : Bytes → Parsed A) where
  parsed_ok :
      (response : ResponseData) (p : Parsed A) {v : A}
      → parsed_as prefix parse response p ≡ ok v
      → p ≡ parsed v
  unfolding parsed_as
  parsed_ok response (parsed value) h = cc
  parsed_ok response (refused why) h = cc

  answer_ok :
      (fetched : Response ResponseData) (v : A)
      → parse_fetched prefix parse (fetch_ok fetched) ≡ ok v
      → (response : ResponseData) × (fetched ≡ ok response)
        × IsSuccess response.status_code
        × (parse response.body ≡ parsed v)
  unfolding parse_fetched fetch_ok require_success
  answer_ok (unexpected e) v h = cc
  answer_ok (ok response) v h = elim (Bool-cases (is_success_status response.status_code)) [
    | inl fine ↦ (
      response,
      refl,
      (is_success_status_iff response.status_code).0 fine,
      parsed_ok response (parse response.body) (rw fine at h),
    )
    | inr failed ↦ absurd (let h' = rw failed at h in cc (h'))
  ]

  answer_made :
      (response : ResponseData) (v : A)
      → IsSuccess response.status_code
      → parse response.body ≡ parsed v
      → parse_fetched prefix parse (fetch_ok (ok response)) ≡ ok v
  unfolding parse_fetched fetch_ok require_success parsed_as
  answer_made response v success e =
      rw ((is_success_status_iff response.status_code).1 success) (rw e refl)

  refused_error :
      (response : ResponseData) (p : Parsed A) {e : RequestError}
      → IsSuccess response.status_code
      → parsed_as prefix parse response p ≡ unexpected e
      → IsErrorOf e response
  unfolding parsed_as
  refused_error response (parsed value) success h = cc
  refused_error response (refused why) {e} success h =
      let error = unexpected_eq h in
      (
        ap (λ x. x.http_status) (sym error),
        ap (λ x. x.body) (sym error),
        inr (success, ap (λ x. x.code) (sym error)),
      )
    where
      unexpected_eq :
          {x y : RequestError} → ◌≡◌ {A = Response A} (unexpected x) (unexpected y) → x ≡ y
      unexpected_eq eq = cc (eq)

  answer_error :
      (fetched : Response ResponseData) (e : RequestError)
      → parse_fetched prefix parse (fetch_ok fetched) ≡ unexpected e
      → (fetched ≡ unexpected e)
        ⊎ ((response : ResponseData) × (fetched ≡ ok response) × IsErrorOf e response)
  unfolding parse_fetched fetch_ok require_success
  answer_error (unexpected e') e h = inl (cc)
  answer_error (ok response) e h = elim (Bool-cases (is_success_status response.status_code)) [
    | inl fine ↦ inr (
      response,
      refl,
      refused_error response (parse response.body)
          ((is_success_status_iff response.status_code).0 fine) (rw fine at h),
    )
    | inr failed ↦
        let error = unexpected_eq (rw failed at h) in
        inr (
          response,
          refl,
          (
            ap (λ x. x.http_status) (sym error),
            ap (λ x. x.body) (sym error),
            inl (failed, ap (λ x. x.code) (sym error)),
          ),
        )
  ]
    where
      unexpected_eq :
          {x y : RequestError} → ◌≡◌ {A = Response A} (unexpected x) (unexpected y) → x ≡ y
      unexpected_eq eq = cc (eq)

-- A request for parsed data succeeds exactly when the client answers with a status from 200 to 299 and
-- a body that parses, and gives what it parses to; a failure is the client's own, or carries the
-- status and the body of the answer, with a code for a status outside that range or the code of an
-- answer that does not parse.
pub request_parsed_lem :
    {Jar A : Type 0} (do_request : ClientRequest → Option Jar → Response ResponseData)
    (prefix : Bytes) (parse : Bytes → Parsed A) (config : ParserConfig Jar) (r : ClientRequest)
    → let fetched = request do_request config r in
      let answer = request_parsed do_request prefix parse config r in
      ((v : A)
        → (answer ≡ ok v) ↔ (
            (response : ResponseData) × (fetched ≡ ok response)
            × IsSuccess response.status_code
            × (parse response.body ≡ parsed v)))
      × ((e : RequestError)
          → answer ≡ unexpected e
          → (fetched ≡ unexpected e)
            ⊎ ((response : ResponseData) × (fetched ≡ ok response) × IsErrorOf e response))
unfolding request_parsed
request_parsed_lem do_request prefix parse config r =
    let fetched = request do_request config r in
    (
      λ v. (
        answer_ok prefix parse fetched v,
        λ given.
            let (response, e, success, p) = given in
            rw e (answer_made prefix parse response v success p),
      ),
      answer_error prefix parse fetched,
    )
