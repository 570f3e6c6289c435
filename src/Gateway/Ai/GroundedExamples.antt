-- ===== src/Gateway/Ai/GroundedExamples.antt =====
-- Runs of a call of AI that asks for a search.
use cesar_core.Base.{
  ℕ, ◌-◌, ◌≤◌, String, ◌≡◌, refl, true, false, Option, none, some, List, [], ◌∷◌, arith,
}
use cesar_core.Gateway.Json.{
  Json, null, int, str, arr, obj, nil, cons, Fields, end, field, member, at_key, first_item,
  optional_int, optional_string, truthy,
}
use cesar_core.Gateway.Omniroute.{Reply, timed_out, answered, Response, received, raise_for_status}
use cesar_core.Gateway.Omniroute
use cesar_core.Gateway.Terms.{raised, returned}
use cesar_core.Gateway.Ai.{upstream_response}
use cesar_core.Gateway.Ai.{policy_key}
use cesar_core.ControlPlane.Token.{strip, left_strip, right_strip, is_space}
use cesar_core.Gateway.Ai.Usage.{add, sum_usage, normalize_usage, completion_of, verify_max_tokens}
use cesar_core.Gateway.Ai.Grounding.{
  Payload, grounded_followup, plain_messages, tool_call_ids, is_web_search, tool_results,
  tool_result, evidence, urls, has_value, same_value, hashed, complete_ids, some_sources, remaining,
  distinct,
}
use cesar_core.Gateway.Ai.Provider.{
  Answer, called, finish, first_payload, complete, ground_and_finish, content_of,
}
use cesar_core.Gateway.Ai.Budget.{grounded_budget}
use cesar_core.Gateway.Ai.Failures.{unreported_usage}
use cesar_core.Gateway.Ai.Samples.{
  asking, medium, usage_of, said, plain_network, key_file, used_of, answer_of,
}

-- The answer to a question that was searched for, and the result of the search.
abbrev search_body : Fields
search_body =
    field "choices"
      (arr (
        cons
          (obj (
            field "message"
              (obj (
                field "content" null (
                  field "tool_calls"
                    (arr (
                      cons
                        (obj (
                          field "id" (str "t1") (
                            field "function" (obj (field "name" (str "omniroute_web_search") end))
                              end)))
                        nil))
                    end)))
              end))
          nil))
      (field "tool_results"
        (arr (cons (obj (field "tool_call_id" (str "t1") (field "output" (str "found") end))) nil))
        (field "usage" (usage_of 4) end))

abbrev search_network : Payload → Reply
search_network payload = answered 200 (some (obj search_body)) (some "u0") none

abbrev found : String → Option Json
found text = some (
    obj (
      field "success" (int 1)
        (field "results" (arr (cons (obj (field "url" (str "https://a.example") end)) nil)) end)))

grounded_run :
    complete found key_file search_network plain_network (asking true) medium
    ≡ returned (
        answer_of true
          (record { prompt_tokens = some 6; completion_tokens = some 8; total_tokens = some 14 })
          ("https://a.example" ∷ []))
unfolding ground_and_finish grounded_followup tool_call_ids is_web_search tool_results tool_result
    evidence urls has_value same_value hashed complete_ids some_sources remaining distinct add
    complete first_payload plain_messages Omniroute.request received raise_for_status finish
    content_of sum_usage normalize_usage verify_max_tokens member at_key first_item optional_int
    optional_string truthy strip left_strip right_strip is_space
grounded_run = refl

grounded_budget_example :
    (first : Response) × (payload : Payload) × (sources : List String) × (used : ℕ) × (called
        (Omniroute.request key_file (search_network (first_payload (asking true) medium)))
      ≡ returned first)
    × (grounded_followup found
          (asking true)
          medium
          first.body
          (normalize_usage (member "usage" first.body))
        ≡ returned (payload, sources))
    × (completion_of (normalize_usage (member "usage" first.body)) ≡ some used)
    × (payload.max_tokens ≡ some (10 - used))
    × (1 ≤ 10 - used)
    × (payload.web_search ≡ false)
    × ((last : Response) × (called (Omniroute.request key_file (plain_network payload))
          ≡ returned last)
        × (finish (asking true) medium (normalize_usage (member "usage" first.body)) sources last
            ≡ returned (
                answer_of true
                  (record {
                    prompt_tokens = some 6;
                    completion_tokens = some 8;
                    total_tokens = some 14;
                  })
                  ("https://a.example" ∷ []))))
grounded_budget_example =
    grounded_budget found key_file search_network plain_network (asking true) medium
      (answer_of true
        (record { prompt_tokens = some 6; completion_tokens = some 8; total_tokens = some 14 })
        ("https://a.example" ∷ []))
      10 grounded_run refl refl

-- A response with a text and no usage.
abbrev silent : Response
silent = record {
  status_code = 200;
  body = field "choices" (said "Five.") end;
  upstream_request_id = some "u1";
  selected_provider = none;
}

unreported_usage_example :
    (finish (asking true) medium none [] silent ≡ raised (upstream_response (some 200) (some "u1")))
    × ((a : Answer) × (finish
            (asking true)
            medium
            (some (used_of 4))
            ("https://a.example" ∷ [])
            silent
          ≡ returned a)
        × (a.usage ≡ some (used_of 4)))
unfolding member content_of strip left_strip right_strip is_space first_item at_key
unreported_usage_example =
    unreported_usage (asking true) medium (used_of 4) ("https://a.example" ∷ []) silent "Five." 10 4
      refl refl refl refl refl (omega arith)
