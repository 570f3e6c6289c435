-- ===== src/Gateway/Search/Values.antt =====
-- search/providers/omniroute.py: the parts of the envelope that the upstream sends.
use cesar_core.Base.{
  ℕ, String, Bool, false, not, ◌&&◌, ◌||◌, Option, none, some, List, [], ◌∷◌, ◌==◌, nat_eq,
  if◌then◌else◌,
}
use cesar_core.ControlPlane.Token.{is_blank, starts_with}
use cesar_core.Gateway.Json.{
  Json, int, float, str, arr, obj, Items, nil, cons, Fields, member, optional_int,
}

-- `SearchResult`. A number is the value of JSON that it came from.
pub record Result : Type 0 where
  pub title : String
  pub url : String
  pub snippet : String
  pub position : Option ℕ
  pub score : Option Json
  pub published_at : Option String

-- `SearchUsage`.
pub record Usage : Type 0 where
  pub queries_used : ℕ
  pub search_cost_usd : Json
  pub llm_tokens : Option ℕ

-- `SearchUpstreamIssue`.
pub record Issue : Type 0 where
  pub provider : String
  pub code : String
  pub message : String

-- `none` is any of the errors that make the envelope invalid.
unfoldable pub required_string : Option Json → Option String
required_string (some (str s)) = if is_blank s then none else some s
required_string _ = none

-- `_optional_non_negative_int`, which takes no Boolean.
unfoldable pub non_negative_int : Option Json → Option ℕ
non_negative_int (some (int n)) = some n
non_negative_int _ = none

unfoldable pub positive_int : Option Json → Option ℕ
positive_int (some (int n)) = if nat_eq n 0 then none else some n
positive_int _ = none

-- A number that is not negative, and is a number.
unfoldable pub non_negative_number : Option Json → Option Json
non_negative_number (some (int n)) = some (int n)
non_negative_number (some (float s)) =
    if s == "nan" || (starts_with "-" s && not (s == "-0.0")) then none else some (float s)
non_negative_number _ = none

-- `value if isinstance(value, str) else None`.
abbrev pub text_value : Option Json → Option String
text_value (some (str s)) = some s
text_value _ = none

abbrev pub or_blank : Option String → String
or_blank none = ""
or_blank (some s) = s

unfoldable pub normalize_result : Json → Option Result
unfolding required_string positive_int non_negative_number
normalize_result (obj value) = elim (required_string (member "title" value)) [
  | none ↦ none
  | some title ↦ elim (required_string (member "url" value)) [
    | none ↦ none
    | some url ↦ some (record {
      title = title;
      url = url;
      snippet = or_blank (text_value (member "snippet" value));
      position = positive_int (member "position" value);
      score = non_negative_number (member "score" value);
      published_at = text_value (member "published_at" value);
    })
  ]
]
normalize_result _ = none

unfoldable pub normalize_usage : Option Json → Option Usage
unfolding non_negative_int non_negative_number
normalize_usage (some (obj value)) = elim (optional_int (member "queries_used" value)) [
  | none ↦ none
  | some queries ↦ elim (non_negative_number (member "search_cost_usd" value)) [
    | none ↦ none
    | some cost ↦ some (record {
      queries_used = queries;
      search_cost_usd = cost;
      llm_tokens = non_negative_int (member "llm_tokens" value);
    })
  ]
]
normalize_usage _ = none

unfoldable pub normalize_issue : Json → Option Issue
unfolding required_string
normalize_issue (obj value) = elim (required_string (member "provider" value)) [
  | none ↦ none
  | some provider ↦ elim (required_string (member "code" value)) [
    | none ↦ none
    | some code ↦ elim (required_string (member "message" value)) [
      | none ↦ none
      | some message ↦ some (record { provider = provider; code = code; message = message })
    ]
  ]
]
normalize_issue _ = none

-- A comprehension over a list of JSON, which raises where an item does.
unfoldable pub each {ℓ} : {A : Type ℓ} → (Json → Option A) → Items → Option (List A)
each read nil = some []
each read (cons v vs) =
    let rest = each read vs in
    elim (read v) [ none ↦ none | some a ↦ elim rest [ none ↦ none | some as_ ↦ some (a ∷ as_) ] ]

abbrev pub items_of : Option Json → Option Items
items_of (some (arr vs)) = some vs
items_of _ = none

-- `_normalize_issues(body.get("errors", []))`.
unfoldable pub normalize_issues : Option Json → Option (List Issue)
unfolding each normalize_issue
normalize_issues none = some []
normalize_issues (some (arr vs)) = each normalize_issue vs
normalize_issues (some _) = none

-- `total_results`.
unfoldable pub total_results : Option Json → Option ℕ
unfolding non_negative_int
total_results (some (obj metrics)) = non_negative_int (member "total_results_available" metrics)
total_results _ = none

-- `body.get("query") != request.query`, negated.
abbrev pub echoes : Option Json → String → Bool
echoes (some (str s)) query = s == query
echoes _ query = false

-- The results of the envelope.
unfoldable pub results_of : Fields → Option (List Result)
unfolding each normalize_result
results_of body = elim (items_of (member "results" body)) [
  | none ↦ none
  | some vs ↦ each normalize_result vs
]
