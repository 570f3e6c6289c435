-- ===== src/Frontend/Api/Laws.antt =====
-- What is sent with a request, and what a request settles to.
use cesar_core.Base.{
  ℕ, String, ◌≡◌, ◌≢◌, ◌↔◌, ◌⊎◌, inl, inr, refl, true, Option, none, some, arith, ◌==◌,
  if◌then◌else◌, Dict, lookup, lookup-insert, Bool-cases, ◌&&◌,
}
use cesar_core.Frontend.Api.{
  Reply, ok, failed, Init, Response, truthy, is_write, with_csrf, with_content_type, request, is_ok,
  result, settle,
}

lookup-with_csrf :
    (csrf name : String) (init : Init) (headers : Dict String)
    → lookup name (with_csrf csrf init headers)
      ≡ (if is_write init.method && "x-csrf-token" == name then some csrf else lookup name headers)
unfolding with_csrf
lookup-with_csrf csrf name init headers = elim (Bool-cases (is_write init.method)) [
  | inl w ↦ rw w (lookup-insert "x-csrf-token" name csrf headers)
  | inr r ↦ rw r
]

lookup-with_content_type :
    (name : String) (init : Init)
    → lookup name (with_content_type init) ≡ (
        if truthy init.body && "content-type" == name
        then some "application/json"
        else lookup name init.headers)
unfolding with_content_type
lookup-with_content_type name init = elim (Bool-cases (truthy init.body)) [
  | inl w ↦ rw w (lookup-insert "content-type" name "application/json" init.headers)
  | inr r ↦ rw r
]

-- In a request the CSRF header is the module's token exactly when the method is given, not empty
-- and not GET, the content type is JSON exactly when there is a body, and every other header, and
-- these two otherwise, is the caller's.
pub request_headers :
    (csrf path name : String) (init : Init)
    → lookup name (request csrf path init).headers ≡ (
        if is_write init.method && "x-csrf-token" == name
        then some csrf
        else if truthy init.body && "content-type" == name
        then some "application/json"
        else lookup name init.headers)
unfolding request
request_headers csrf path name init = rw (lookup-with_csrf, lookup-with_content_type) refl

module _ {J : Type 0} (status : ℕ) (v : Option J) where
  result-ok :
      (body : Reply J)
      → result status body ≡ ok v
      → ((status ≡ 204) × (v ≡ none)) ⊎ ((status ≢ 204) × ((j : J) × (body ≡ ok j) × (v ≡ some j)))
  unfolding result
  result-ok (failed m) h = ground arith
  result-ok (ok j) h = ground arith

  ok-result :
      (body : Reply J)
      → ((status ≡ 204) × (v ≡ none)) ⊎ ((status ≢ 204) × ((j : J) × (body ≡ ok j) × (v ≡ some j)))
      → result status body ≡ ok v
  unfolding result
  ok-result (failed m) h = ground arith
  ok-result (ok j) h = ground arith

module _ {J : Type 0} (detail_of : J → Reply (Option String)) where
  -- A response settles to a value exactly when its status is 200 to 299 and either the status is
  -- 204, where the body is not read, or the body is JSON, which is then the value.
  pub settle-ok_iff :
      (a : Response J) (v : Option J)
      → (settle detail_of (ok a) ≡ ok v) ↔ (
          (is_ok a.status ≡ true)
          × (((a.status ≡ 204) × (v ≡ none))
              ⊎ ((a.status ≢ 204) × ((j : J) × (a.json ≡ ok j) × (v ≡ some j)))))
  unfolding settle
  settle-ok_iff a v = elim (Bool-cases (is_ok a.status)) [
    | inl fine ↦ (
      λ e. (fine, result-ok a.status v a.json (ground arith)),
      λ h. rw fine (ok-result a.status v a.json h.1),
    )
    | inr bad ↦ (λ e. absurd (ground arith), λ h. absurd (ground arith))
  ]
