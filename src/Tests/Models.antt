-- ===== src/Tests/Models.antt =====
-- The limits of a model at a concrete report.
use slipvolt.Base.{ℕ, ◌≤◌, ◌<◌, ◌≡◌, String, none, some}
use slipvolt.Base.Int.{pos}
use slipvolt.Value.{Value, int, null, obj, field, end}
use slipvolt.ModelPolicy.{
  Limits, model_policies, override_of, merge_upstream_metadata, model_limit_ceiling,
}
use slipvolt.ModelPolicy.Cautious.{IsTightened, merge_upstream_metadata-limits}

abbrev model : String
model = "zai-org/GLM-5.3-Flash"

-- A provider that reports a context of 5000 tokens.
abbrev report : Value
report = obj (field "context_length" (int (pos 5000)) end)

merge_upstream_metadata-limits_example :
    let row = merge_upstream_metadata model report 4096 null in
    ((override_of null ≡ none
        → model_policies model ≡ none
        → (row.context_length ≡ none) × (row.max_completion_tokens ≡ none))
      × ((l : Limits)
          → override_of null ≡ none
          → model_policies model ≡ some l
          → IsTightened l 4096 row)
      × ((l : Limits)
          → override_of null ≡ some l
          → (m : ℕ) × (row.context_length ≡ some l.context)
            × (row.max_completion_tokens ≡ some m)
            × (m < l.context)
            × (m ≤ 4096)
            × (l.context ≤ model_limit_ceiling)))
merge_upstream_metadata-limits_example = merge_upstream_metadata-limits model report null 4096
