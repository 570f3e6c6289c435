-- ===== src/Gateway/Ai/Grounding.antt =====
-- ai/providers/omniroute.py: the second call of a request that asks for a search on the Web.
-- `json.loads` is a parameter, which is `none` where it raises.
use cesar_core.Base.{
  ℕ, ◌-◌, String, Bool, true, false, not, ◌||◌, Option, none, some, List, [], ◌∷◌, ◌++◌, ◌==◌,
  nat_eq, ltb, length, if◌then◌else◌,
}
use cesar_core.Gateway.Json.{
  Json, null, bool, int, negative, float, str, arr, obj, Items, nil, cons, Fields, member, at_key,
  first_item, truthy,
}
use cesar_core.Gateway.Terms.{Outcome, raised, returned, ◌>>=◌}
use cesar_core.Gateway.Ai.{Message, Request, Target, Failure, upstream_response, crashed}
use cesar_core.Gateway.Ai.Usage.{Usage, completion_of}

-- An item of `messages`.
pub data ChatMessage : Type 0 where
  plain : Message → ChatMessage
  calling : (content : Option Json) (tool_calls : Items) → ChatMessage
  tool : (tool_call_id : Json) (content : String) → ChatMessage

-- The body of a call.
pub record Payload : Type 0 where
  pub model : String
  pub messages : List ChatMessage
  pub provider : Option String
  pub max_tokens : Option ℕ
  pub web_search : Bool

-- What `_grounded_followup_payload` raises by itself.
abbrev pub refused {ℓ} : {A : Type ℓ} → Outcome Failure A
refused = raised (upstream_response none none)

-- The Python equality of two values that can be hashed.
unfoldable pub same_value : Json → Json → Bool
same_value null null = true
same_value (bool true) (bool b) = b
same_value (bool false) (bool b) = not b
same_value (bool true) (int n) = nat_eq n 1
same_value (bool false) (int n) = nat_eq n 0
same_value (int n) (bool true) = nat_eq n 1
same_value (int n) (bool false) = nat_eq n 0
same_value (int n) (int m) = nat_eq n m
same_value (negative n) (negative m) = nat_eq n m
same_value (float s) (float t) = s == t
same_value (str s) (str t) = s == t
same_value _ _ = false

abbrev pub is_hashable : Json → Bool
is_hashable (arr vs) = false
is_hashable (obj fs) = false
is_hashable _ = true

unfoldable pub has_value : Json → List Json → Bool
has_value v [] = false
has_value v (w ∷ ws) = same_value v w || has_value v ws

-- `value.get(key)`, where a missing key is `None`.
abbrev pub or_null : Option Json → Json
or_null none = null
or_null (some v) = v

-- Whether a call is one of the tool: `call["function"].get("name") == "omniroute_web_search"`.
unfoldable pub is_web_search : Json → Bool
is_web_search call = elim (at_key "function" call) [
  | none ↦ false
  | some function ↦ same_value (or_null (at_key "name" function)) (str "omniroute_web_search")
]

-- `tool_call_ids`: `none` where an identifier cannot be hashed, which raises.
unfoldable pub tool_call_ids : Items → Option (List Json)
unfolding is_web_search
tool_call_ids nil = some []
tool_call_ids (cons call calls) =
    let rest = tool_call_ids calls in
    if is_web_search call
    then (if is_hashable (or_null (at_key "id" call))
        then elim rest [ none ↦ none | some ids ↦ some (or_null (at_key "id" call) ∷ ids) ]
        else none)
    else rest

-- The addresses of the results of one search.
unfoldable pub urls : Items → List String
urls nil = []
urls (cons item items) =
    let rest = urls items in
    elim (at_key "url" item) [ some (str url) ↦ if url == "" then rest else url ∷ rest | _ ↦ rest ]

-- The parts of `evidence`, past the test of its success.
abbrev pub results_of : Option Json → Option Items
results_of (some (arr (cons v vs))) = some (cons v vs)
results_of _ = none

-- One item of `tool_results`: the addresses, and the message of the tool.
module _ (loads : String → Option Json) where
  -- The `output` of a result, which is a text.
  unfoldable pub evidence : String → Outcome Failure (List String)
  evidence output = elim (loads output) [
    | none ↦ refused
    | some value ↦ elim (results_of (at_key "results" value)) [
      | none ↦ refused
      | some results ↦ if truthy (at_key "success" value) then returned (urls results) else refused
    ]
  ]

  unfoldable pub tool_result : List Json → Json → Outcome Failure (List String × ChatMessage)
  tool_result ids (obj result) =
      let id = or_null (member "tool_call_id" result) in
      if not (is_hashable id)
      then raised crashed
      else if not (has_value id ids)
      then refused
      else elim (member "output" result) [
        | some (str output) ↦ elim (evidence output) [
          | raised failure ↦ raised failure
          | returned found ↦ returned (found, tool id output)
        ]
        | _ ↦ refused
      ]
  tool_result ids _ = refused

  -- The loop over `tool_results`.
  unfoldable pub tool_results : List Json → Items → Outcome Failure (List String × List ChatMessage)
  tool_results ids nil = returned ([], [])
  tool_results ids (cons result results) =
      let rest = tool_results ids results in
      elim (tool_result ids result) [
        | raised failure ↦ raised failure
        | returned (found, message) ↦ elim rest [
          | raised failure ↦ raised failure
          | returned (sources, messages) ↦ returned (found ++ sources, message ∷ messages)
        ]
      ]

-- The messages of the request, as a call sends them.
unfoldable pub plain_messages : List Message → List ChatMessage
plain_messages [] = []
plain_messages (m ∷ ms) = plain m ∷ plain_messages ms

-- `dict.fromkeys(sources)`: without repetitions, in the order of the first ones.
abbrev pub without : String → List String → List String
without s [] = []
without s (t ∷ ts) = let rest = without s ts in if t == s then rest else t ∷ rest

unfoldable pub distinct : List String → List String
distinct [] = []
distinct (s ∷ ss) = s ∷ without s (distinct ss)

-- What is left of the limit: `none` where the request sets none, and refused where the usage is not
-- reported or leaves nothing.
unfoldable pub remaining : Option ℕ → Option ℕ → Outcome Failure (Option ℕ)
remaining none used = returned none
remaining (some limit) none = refused
remaining (some limit) (some used) =
    if ltb (limit - used) 1 then refused else returned (some (limit - used))

-- The list of `tool_calls`, if it is one and is not empty.
abbrev pub calls_of : Option Json → Option Items
calls_of (some (arr (cons v vs))) = some (cons v vs)
calls_of _ = none

abbrev pub list_of : Option Json → Option Items
list_of (some (arr vs)) = some vs
list_of _ = none

abbrev pub message_of : Fields → Option Json
message_of body = elim (member "choices" body) [
  | none ↦ none
  | some choices ↦ elim (first_item choices) [ none ↦ none | some choice ↦ at_key "message" choice ]
]

-- The set of the identifiers is built, or raises.
unfoldable pub hashed : Option (List Json) → Outcome Failure (List Json)
hashed none = raised crashed
hashed (some ids) = returned ids

-- `None in tool_call_ids or not tool_call_ids`.
unfoldable pub complete_ids : List Json → Outcome Failure (List Json)
complete_ids ids = if has_value null ids || nat_eq (length ids) 0 then refused else returned ids

-- `not sources`.
unfoldable pub some_sources : List String → Outcome Failure (List String)
some_sources [] = refused
some_sources (s ∷ ss) = returned (s ∷ ss)

-- A value that must be there.
abbrev pub needed {ℓ} : {A : Type ℓ} → Option A → Outcome Failure A
needed none = refused
needed (some a) = returned a

module _ (loads : String → Option Json) where
  -- `_grounded_followup_payload`.
  unfoldable pub grounded_followup :
      Request → Target → Fields → Option Usage → Outcome Failure (Payload × List String)
  unfolding tool_call_ids
  grounded_followup request target body usage = do
    assistant ← needed (message_of body)
    calls ← needed (calls_of (at_key "tool_calls" assistant))
    results ← needed (list_of (member "tool_results" body))
    ids ← hashed (tool_call_ids calls)
    known ← complete_ids ids
    found ← tool_results loads known results
    sources ← some_sources found.0
    left ← remaining request.max_tokens (completion_of usage)
    returned (
      record {
        model = target.model;
        messages =
            plain_messages request.messages ++ calling (at_key "content" assistant) calls ∷ found.1;
        provider = target.provider;
        max_tokens = left;
        web_search = false;
      },
      distinct sources,
    )
