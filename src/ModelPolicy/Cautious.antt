-- ===== src/ModelPolicy/Cautious.antt =====
-- Discovery never raises a limit: what is reported can only tighten a reviewed policy.
use slipvolt.Base.{
  ℕ, ◌≤◌, ◌<◌, ◌≡◌, refl, String, none, some, arith, ltb, inl, inr, Option-cases, Bool-cases,
}
use slipvolt.Base.Int.{ℤ}
use slipvolt.Value.{Value, int, obj, get}
use slipvolt.ModelPolicy.{
  Limits, model_policies, Row, snapshot, discovered, reported_limit, note_discovery, valid_limits,
  override_of, apply_override, tighten_context, effective_output, tighten_output, merge_policy,
  merge_upstream_metadata, model_limit_ceiling, smaller,
}

-- A policy leaves room for input.
abbrev pub IsRoomy : Limits → Type 0
IsRoomy l = (0 < l.output) × (l.output < l.context)

model_policies-IsRoomy : (id : String) (l : Limits) → model_policies id ≡ some l → IsRoomy l
unfolding model_policies
model_policies-IsRoomy id l e = (ground arith, ground arith)

valid_limits-range :
    (c o : Value) (l : Limits)
    → valid_limits c o ≡ some l
    → IsRoomy l × (l.context ≤ model_limit_ceiling)
valid_limits-range (int (ℤ.pos c)) (int (ℤ.pos o)) l e =
    ((ground arith, ground arith), ground arith)
valid_limits-range c o l e = absurd (ground arith)

override_of-range :
    (v : Value) (l : Limits)
    → override_of v ≡ some l
    → IsRoomy l × (l.context ≤ model_limit_ceiling)
override_of-range (obj d) l e =
    valid_limits-range (get "context_length" d) (get "max_completion_tokens" d) l e
override_of-range v l e = absurd (ground arith)

discovered-positive : (v : Value) (n : ℕ) → discovered v ≡ some n → 0 < n
discovered-positive (int (ℤ.pos m)) n e = ground arith
discovered-positive v n e = absurd (ground arith)

reported_limit-positive :
    (key : String) (metadata : Value) (n : ℕ) → reported_limit key metadata ≡ some n → 0 < n
reported_limit-positive key (obj d) n e = discovered-positive (get key d) n e
reported_limit-positive key v n e = absurd (ground arith)

-- A row that discovery may have tightened, against its reviewed policy and the operator's cap.
pub record IsTightened (l : Limits) (cap : ℕ) (row : Row) : Type 0 where
  pub context : ℕ
  pub shown : row.context_length ≡ some context
  pub reviewed : context ≤ l.context
  pub discovered_window : (d : ℕ) → row.discovered_context_length ≡ some d → context ≤ d
  pub output :
      (m : ℕ)
      → row.max_completion_tokens ≡ some m
      → (0 < m)
        × (m ≤ l.output)
        × (m ≤ cap)
        × (m < context)
        × ((d : ℕ) → row.discovered_max_completion_tokens ≡ some d → m ≤ d)

window_of :
    (row : Row) (c : ℕ)
    → row.context_length ≡ some c
    → 0 < c
    → ((d : ℕ) → row.discovered_context_length ≡ some d → 0 < d)
    → (c' : ℕ) × ((tighten_context row).context_length ≡ some c')
      × (0 < c')
      × (c' ≤ c)
      × ((d : ℕ) → row.discovered_context_length ≡ some d → c' ≤ d)
unfolding tighten_context
window_of row c e pos_c found = elim (Option-cases row.discovered_context_length) [
  | inl none_found ↦ (c, ground arith, pos_c, omega arith, λ d x. ground arith)
  | inr (d, ed) ↦ elim (Bool-cases (ltb d c)) [
    | inl less ↦ (d, ground arith, found d ed, ground arith, λ d' x. ground arith)
    | inr more ↦ (c, ground arith, pos_c, omega arith, λ d' x. ground arith)
  ]
]

effective_output-bounds :
    (row : Row) (cap reviewed c : ℕ)
    → row.context_length ≡ some c
    → 0 < c
    → let m = (effective_output row cap reviewed).0 in
      ((m ≤ reviewed)
        × (m ≤ cap)
        × (m < c)
        × ((d : ℕ) → row.discovered_max_completion_tokens ≡ some d → m ≤ d))
effective_output-bounds row cap reviewed c e pos_c =
    elim (Option-cases row.discovered_max_completion_tokens) [
      | inl missing ↦ (ground arith, ground arith, ground arith, λ d x. ground arith)
      | inr (d, ed) ↦ (ground arith, ground arith, ground arith, λ d' x. ground arith)
    ]

tighten_output-IsTightened :
    (l : Limits) (cap : ℕ) (row : Row) (c : ℕ)
    → row.context_length ≡ some c
    → row.max_completion_tokens ≡ some l.output
    → 0 < c
    → c ≤ l.context
    → ((d : ℕ) → row.discovered_context_length ≡ some d → c ≤ d)
    → IsTightened l cap (tighten_output cap row)
unfolding tighten_output
tighten_output-IsTightened l cap row c ec eo pos_c within found =
    let bounds = effective_output-bounds row cap l.output c ec pos_c in
    record {
      context = c;
      shown = ground arith;
      reviewed = within;
      discovered_window = λ d x. found d (ground arith);
      output = λ m em.
          let here : m ≡ (effective_output row cap l.output).0 = ground arith in
          let some_left : 0 < m = ground arith in
          (
            some_left,
            ground (arith, bounds, here),
            ground (arith, bounds, here),
            ground (arith, bounds, here),
            λ d x. ground (arith, bounds, here),
          );
    }

kept :
    (row : Row)
    → ((tighten_context row).max_completion_tokens ≡ row.max_completion_tokens)
      × ((d : ℕ)
          → (tighten_context row).discovered_context_length ≡ some d
          → row.discovered_context_length ≡ some d)
unfolding tighten_context
kept row = (ground arith, λ d x. ground arith)

merge_policy-IsTightened :
    (l : Limits) (metadata override : Value) (cap : ℕ)
    → IsRoomy l
    → override_of override ≡ none
    → IsTightened l cap (merge_policy (some l) metadata cap override)
unfolding merge_policy note_discovery snapshot
merge_policy-IsTightened l metadata override cap roomy e =
    let row = note_discovery metadata (snapshot (some l)) in
    let (c, ec, pos_c, within, found) =
      window_of row l.context refl (omega (arith, roomy))
        (λ d x. reported_limit-positive "context_length" metadata d x) in
    rw (e, merge_policy)
      (tighten_output-IsTightened l cap (tighten_context row) c ec (kept row).0 pos_c within
        (λ d x. found d ((kept row).1 d x)))

-- Whatever a provider reports of a model, without a valid override: a model without a reviewed policy
-- gets no limits, and the limits of one that has a policy are at most the reviewed ones, what was
-- discovered and the operator's cap, with room left for input. A valid override takes their place: its
-- context is at most 1048576, and its output lies below that and within the cap.
pub merge_upstream_metadata-limits :
    (id : String) (metadata override : Value) (cap : ℕ)
    → let row = merge_upstream_metadata id metadata cap override in
      ((override_of override ≡ none
          → model_policies id ≡ none
          → (row.context_length ≡ none) × (row.max_completion_tokens ≡ none))
        × ((l : Limits)
            → override_of override ≡ none
            → model_policies id ≡ some l
            → IsTightened l cap row)
        × ((l : Limits)
            → override_of override ≡ some l
            → (m : ℕ) × (row.context_length ≡ some l.context)
              × (row.max_completion_tokens ≡ some m)
              × (m < l.context)
              × (m ≤ cap)
              × (l.context ≤ model_limit_ceiling)))
unfolding merge_upstream_metadata merge_policy apply_override note_discovery snapshot
    tighten_context tighten_output
merge_upstream_metadata-limits id metadata override cap = (
  λ e em. (ground arith, ground arith),
  λ l e em.
      rw (merge_upstream_metadata, em)
        (merge_policy-IsTightened l metadata override cap (model_policies-IsRoomy id l em) e),
  λ l e.
      let (roomy, bounded) = override_of-range override l e in
      (
        smaller l.output cap,
        ground arith,
        ground arith,
        ground (arith, roomy),
        ground arith,
        bounded,
      ),
)
