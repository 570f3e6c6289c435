-- ===== src/Gateway/Ai/Usage.antt =====
-- ai/providers/omniroute.py: the usage that the upstream reports, and the limit on it.
use cesar_core.Base.{ℕ, ◌+◌, Bool, true, false, Option, none, some, leb}
use cesar_core.Gateway.Json.{Json, obj, member, optional_int}

-- `AIUsage`.
pub record Usage : Type 0 where
  pub prompt_tokens : Option ℕ
  pub completion_tokens : Option ℕ
  pub total_tokens : Option ℕ

unfoldable pub normalize_usage : Option Json → Option Usage
normalize_usage (some (obj fields)) = some (record {
  prompt_tokens = optional_int (member "prompt_tokens" fields);
  completion_tokens = optional_int (member "completion_tokens" fields);
  total_tokens = optional_int (member "total_tokens" fields);
})
normalize_usage _ = none

unfoldable pub add : Option ℕ → Option ℕ → Option ℕ
add (some left) (some right) = some (left + right)
add _ _ = none

unfoldable pub sum_usage : Option Usage → Option Usage → Option Usage
unfolding add
sum_usage none second = second
sum_usage (some first) none = some first
sum_usage (some first) (some second) = some (record {
  prompt_tokens = add first.prompt_tokens second.prompt_tokens;
  completion_tokens = add first.completion_tokens second.completion_tokens;
  total_tokens = add first.total_tokens second.total_tokens;
})

-- `usage.completion_tokens if usage is not None else None`.
abbrev pub completion_of : Option Usage → Option ℕ
completion_of none = none
completion_of (some usage) = usage.completion_tokens

-- `_verify_max_tokens`: whether it returns.
unfoldable pub verify_max_tokens : Option ℕ → Option ℕ → Bool
verify_max_tokens none completion = true
verify_max_tokens (some limit) none = false
verify_max_tokens (some limit) (some used) = leb used limit
