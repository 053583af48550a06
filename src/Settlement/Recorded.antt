-- ===== src/Settlement/Recorded.antt =====
-- What `settle` records of the reported usage.
use slipvolt.Base.{ℕ, ◌+◌, ◌≤◌, ◌≡◌, refl, true, Option, none, some, arith, ltb}
use slipvolt.Base.Result.{ok, raise_if-passed, >>=-eq-ok}
use slipvolt.Value.{Value, Fields, null, obj, integer, integer_range, ceiling}
use slipvolt.Host.{len}
use mathlib.Core.Path.{subst}
use slipvolt.Db.Sql.{find-some}
use slipvolt.Db.Keyed.{find-update}
use slipvolt.Pool.{has_id}
use slipvolt.Db.{Db, MemberUsage, State, is_held}
use slipvolt.Pool.Projection.{IsProjected}
use slipvolt.Settlement.{
  Settlement, Settled, Details, optional_integer, reported_details, usage_details, settled_of,
  settle, settle_row, find_usage,
}
use slipvolt.Settlement.Lifecycle.{Settles, closed, closes, settle-Settles}

-- The columns of one settled row fit together: prompt and completion add up to the tokens charged,
-- cached input lies within the prompt and reasoning within the completion.
abbrev pub IsBounded : Option ℕ → ℕ → Type 0
IsBounded none n = Unit {0}
IsBounded (some m) n = m ≤ n

abbrev pub AddsUp : Details → ℕ → Type 0
AddsUp d tokens =
    (prompt completion : ℕ)
    → d.prompt ≡ some prompt
    → d.completion ≡ some completion
    → (prompt + completion ≡ tokens) × IsBounded d.cached prompt × IsBounded d.reasoning completion

-- The usage columns of a row.
abbrev pub columns_of : MemberUsage → Details
columns_of r = record {
  prompt = r.prompt_tokens;
  completion = r.completion_tokens;
  cached = r.cached_input_tokens;
  reasoning = r.reasoning_tokens;
}

optional_integer_range :
    (v : Value) (maximum : ℕ) (o : Option ℕ)
    → optional_integer v maximum ≡ ok o
    → IsBounded o maximum
unfolding optional_integer
optional_integer_range null maximum none e = tt
optional_integer_range null maximum (some m) e = ground arith
optional_integer_range v maximum none e = tt
optional_integer_range v maximum (some m) e = grind (arith, integer_range)

reported_details-AddsUp :
    (usage : Fields) (tokens : ℕ) (d : Details)
    → reported_details usage tokens ≡ ok d
    → AddsUp d tokens
unfolding reported_details
reported_details-AddsUp usage tokens d e prompt completion ep ec =
    grind (arith, optional_integer_range)

usage_details-AddsUp :
    (v : Value) (tokens : ℕ) (d : Details) → usage_details v tokens ≡ ok d → AddsUp d tokens
unfolding usage_details
usage_details-AddsUp null tokens d e prompt completion ep ec = ground arith
usage_details-AddsUp (obj usage) tokens d e prompt completion ep ec =
    reported_details-AddsUp usage tokens d e prompt completion ep ec
usage_details-AddsUp v tokens d e prompt completion ep ec = ground arith

-- What the columns of the closed row are, by the arguments of the call; the others stay.
pub record IsRecorded (a : Settlement) (old new : MemberUsage) : Type 0 where
  pub closed : new.state ≡ State.settled
  pub tokens : integer a.tokens 0 1000000000 ≡ ok new.tokens
  pub cost : integer a.cost 0 ceiling ≡ ok new.cost_ngonka
  pub source : (new.cost_source ≡ some a.source) × (len a.source ≤ 100)
  pub details : usage_details a.usage new.tokens ≡ ok (columns_of new)
  pub adds : AddsUp (columns_of new) new.tokens
  pub evidence : (new.upstream_id ≡ a.upstream_id) × (new.evidence ≡ a.evidence)
  pub owner :
      (new.id ≡ old.id)
      × (new.key_id ≡ old.key_id)
      × (new.wallet ≡ old.wallet)
      × (new.idem ≡ old.idem)
      × (new.created ≡ old.created)
  pub held :
      (new.reserved_tokens ≡ old.reserved_tokens) × (new.reserved_ngonka ≡ old.reserved_ngonka)

settle_row-IsRecorded :
    (a : Settlement) (s : Settled) (old : MemberUsage)
    → settled_of a ≡ ok s
    → IsRecorded a old (settle_row s old)
unfolding settled_of
settle_row-IsRecorded a s old e =
    let (tokens, et, e1) = >>=-eq-ok (integer a.tokens 0 1000000000) _ e in
    let (cost, ec, e2) = >>=-eq-ok (integer a.cost 0 ceiling) _ e1 in
    let (short, e3) = raise_if-passed (ltb 100 (len a.source)) _ _ e2 in
    let (d, ed, e4) = >>=-eq-ok (usage_details a.usage tokens) _ e3 in
    let made : Settled = record {
      tokens = tokens;
      cost = cost;
      source = a.source;
      details = d;
      upstream_id = a.upstream_id;
      evidence = a.evidence;
    } in
    let same : made ≡ s = cc in
    subst (λ x. IsRecorded a old (settle_row x old)) same
      (record {
        closed = refl;
        tokens = et;
        cost = ec;
        source = (refl, ground arith);
        details = ed;
        adds = usage_details-AddsUp a.usage tokens d ed;
        evidence = (refl, refl);
        owner = (refl, refl, refl, refl, refl);
        held = (refl, refl);
      })

-- A held row, and what the same id finds afterwards.
abbrev pub Records : Settlement → Db → Db → Type 0
Records a db db' =
    (old : MemberUsage) × (new : MemberUsage) × (find_usage a.rid db ≡ some old)
    × (is_held old.state ≡ true)
    × (find_usage a.rid db' ≡ some new)
    × IsRecorded a old new

written_row : (a : Settlement) (db db' : Db) → Settles a db true db' → Records a db db'
written_row a db db' (closed eb e) = absurd (cc)
written_row a db db' (closes s row es ef held eb e) =
    let mine =
      find-update (λ (r : MemberUsage). r.id) a.rid (has_id a.rid) (settle_row s) (λ x. refl)
        db.member_usage row ef in
    let hit = find-some (has_id a.rid) db.member_usage row ef in
    (
      row,
      settle_row s row,
      ef,
      held,
      rw e (ground (arith, mine, hit)),
      settle_row-IsRecorded a s row es,
    )

-- A settlement that returns `True` on a projected database closed the row that was held under its id:
-- the row is settled, with the tokens, the cost, the source and the evidence of the call; of the
-- reported usage prompt and completion add up to the tokens, cached input lies within the prompt and
-- reasoning within the completion; its owner, its key and what it held stay.
pub settle-Records :
    (a : Settlement) (db db' : Db)
    → IsProjected db
    → settle a db ≡ ok (true, db')
    → Records a db db'
settle-Records a db db' h e = written_row a db db' (settle-Settles a db db' true h e)
