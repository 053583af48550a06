-- ===== src/App/PrepaidChat/Served.antt =====
-- No prepaid request leaves its hold open: it is settled at its cost, or it waits for review.
use text.Mathlib.TextPositions.{eq_refl}
use slipvolt.Base.{
  ℕ, ◌≡◌, ◌≢◌, refl, sym, ap, ◌∙◌, ◌++◌, String, Bool, true, false, ◌&&◌, leb, Option, none, some,
  List, [], ◌∷◌, arith, any, inl, inr, Bool-cases, Option-cases,
}
use slipvolt.Base.Int.{pos}
use slipvolt.Base.Result.{
  ok, value_error, integrity_error, type_error, Result-cases, >>=-eq-ok, raise_if-passed,
}
use slipvolt.Value.{Value, int, ceiling, integer}
use slipvolt.Host.{Host}
use slipvolt.Db.{Db, Usage, State, is_reserved, is_held}
use slipvolt.Db.Sql.{find, update, find-none, find-snoc}
use slipvolt.Usage.{Reported}
use slipvolt.Prepaid.{Hold, has_id, hold_row, whole, reserve}
use slipvolt.Prepaid.Held.{reserve-Took}
use slipvolt.Billing.{Bill, bill_row, settle, bad_reference, settle_found, review, review_row}
use slipvolt.Billing.Settled.{passed, billed, settle-Ends}
use slipvolt.Billing.Run.{Reach, here, next, reserved, settled, reviewed}
use slipvolt.Gateway.{Body, Request, idem_of, header_id, dispatch_status}
use slipvolt.App.Requests.{Runtime}
use slipvolt.App.PrepaidChat.{
  Budgets, Reading, cut_off, unread, read, Sending, interrupted, undelivered, answered, Reply,
  http_error, cancelled, crashed, completed, rendered, refusal, checked, cost, bill_of, complete,
  dispatch, hold_of, admitted, blocked, prepaid_chat,
}

-- The request has no open hold in the prepaid ledger.
abbrev pub IsShut : String → Db → Type 0
IsShut rid db =
    (row : Usage) → find (has_id rid) db.usage ≡ some row → is_reserved row.state ≡ false

-- How a prepaid request ends: its writes are a run of the ledger, its hold is closed, and the cost that
-- it reports is what its settled row bills.
pub record IsServed (host : Host) (rid : String) (db : Db) (reply : Reply) (db' : Db) : Type 0 where
  pub run : Reach host db db'
  pub shut : IsShut rid db'
  pub charged :
      (amount : ℕ) (row : Usage)
      → reply ≡ completed amount
      → find (has_id rid) db'.usage ≡ some row
      → (row.state ≡ State.settled) × (row.billed_nusd ≡ amount)

abbrev IsUncharged : Reply → Type 0
IsUncharged reply = (amount : ℕ) → reply ≢ completed amount

reviewed_rows :
    (rid : String) (upstream_id : Option String) (rows : List Usage) (row : Usage)
    → find
        (has_id rid)
        (update (λ u. has_id rid u && is_reserved u.state) (review_row upstream_id) rows)
      ≡ some row
    → is_reserved row.state ≡ false
reviewed_rows rid upstream_id [] row e = ground arith
reviewed_rows rid upstream_id (r ∷ rows) row e = elim (Bool-cases (has_id rid r)) [
  | inl mine ↦ elim (Bool-cases (is_reserved r.state)) [
    | inl held ↦ ground arith
    | inr shut ↦ ground arith
  ]
  | inr other ↦ reviewed_rows rid upstream_id rows row (ground arith)
]

review-IsServed :
    (host : Host) (rid : String) (upstream_id : Option String) (reply : Reply) (db : Db)
    → IsUncharged reply
    → IsServed host rid db reply (review rid upstream_id db)
unfolding review
review-IsServed host rid upstream_id reply db free = record {
  run = next here (reviewed rid upstream_id);
  shut = λ row e. reviewed_rows rid upstream_id db.usage row e;
  charged = λ amount row er found. absurd (free amount er);
}

billed_rows :
    (b : Bill) (n : ℕ) (rows : List Usage) (row : Usage)
    → find (has_id b.rid) (update (has_id b.rid) (bill_row b n) rows) ≡ some row
    → (row.state ≡ b.state) × (row.billed_nusd ≡ n)
billed_rows b n [] row e = absurd (ground arith)
billed_rows b n (r ∷ rows) row e = elim (Bool-cases (has_id b.rid r)) [
  | inl mine ↦ (ground arith, ground arith)
  | inr other ↦ billed_rows b n rows row (ground arith)
]

held_of_reserved : (s : State) → is_reserved s ≡ true → is_held s ≡ true
held_of_reserved State.reserved h = refl
held_of_reserved State.needs_review h = ground arith
held_of_reserved State.settled h = ground arith
held_of_reserved State.operator_settled h = ground arith

settle_found_done :
    (b : Bill) (n now : ℕ) (old : Usage) (db db' : Db) (done : Bool)
    → is_reserved old.state ≡ true
    → settle_found (some old) b n now db ≡ ok (done, db')
    → done ≡ true
unfolding settle_found
settle_found_done b n now old db db' done open_hold e =
    ground (arith, held_of_reserved old.state open_hold)

-- A settlement of an open hold takes effect.
settle_done :
    (host : Host) (b : Bill) (now : ℕ) (db db' : Db) (done : Bool) (old : Usage)
    → find (has_id b.rid) db.usage ≡ some old
    → is_reserved old.state ≡ true
    → settle host b now db ≡ ok (done, db')
    → done ≡ true
unfolding settle
settle_done host b now db db' done old found open_hold e =
    let (n, _, e1) = >>=-eq-ok (whole b.billed ceiling "Invalid settlement") _ e in
    let (_, e2) = raise_if-passed (bad_reference host b.state b.evidence) _ _ e1 in
    settle_found_done b n now old db db' done open_hold
      (ap (λ o. settle_found o b n now db) (sym found) ∙ e2)

whole_value : (n m : ℕ) → whole (int (pos n)) ceiling "Invalid settlement" ≡ ok m → m ≡ n
unfolding whole integer
whole_value n m e = ground arith

settle-IsServed :
    (host : Host) (cfg : Runtime) (rid : String) (u : Reported) (uid : String) (now : ℕ)
    (db db' : Db) (done : Bool) (old : Usage)
    → find (has_id rid) db.usage ≡ some old
    → is_reserved old.state ≡ true
    → settle host (bill_of cfg rid u uid) now db ≡ ok (done, db')
    → IsServed host rid db (completed (cost cfg u)) db'
settle-IsServed host cfg rid u uid now db db' done old found open_hold e =
    let b = bill_of cfg rid u uid in
    elim (settle-Ends host b now db db' done e) [
      | passed ed edb ↦
          absurd (ground (arith, settle_done host b now db db' done old found open_hold e))
      | billed n row ef held ew ed edb ↦
          let usage_is : db'.usage ≡ update (has_id rid) (bill_row b n) db.usage =
            ap (λ (d : Db). d.usage) edb in
          let after = λ (r : Usage) (g : find (has_id rid) db'.usage ≡ some r).
            billed_rows b n db.usage r (ap (find (has_id rid)) (sym usage_is) ∙ g) in
          record {
            run = next here (settled b now refl e);
            shut = λ r g. ap is_reserved (after r g).0;
            charged = λ amount r er g.
                ((after r g).0, (after r g).1 ∙ whole_value (cost cfg u) n ew ∙ ground arith);
          }
    ]

Reach-append :
    {host : Host} {db mid db' : Db} → Reach host db mid → Reach host mid db' → Reach host db db'
Reach-append first here = first
Reach-append first (next rest step) = next (Reach-append first rest) step

rendered-IsServed :
    (host : Host) (renders : Bool) (rid : String) (upstream_id : Option String) (reply : Reply)
    (db mid : Db)
    → IsServed host rid db reply mid
    → let (reply', db') = rendered renders rid upstream_id reply mid in
      IsServed host rid db reply' db'
rendered-IsServed host true rid upstream_id reply db mid s = s
rendered-IsServed host false rid upstream_id reply db mid s =
    let after =
      review-IsServed host rid upstream_id (http_error 502) mid (λ amount e. ground arith) in
    record { run = Reach-append s.run after.run; shut = after.shut; charged = after.charged }

complete-IsServed :
    (host : Host) (shown : Value → String) (cfg : Runtime) (b : Body) (rid : String)
    (upstream_id : Option String) (reading : Reading) (now : ℕ) (db : Db) (old : Usage)
    → find (has_id rid) db.usage ≡ some old
    → is_reserved old.state ≡ true
    → let (reply, db') = complete host shown cfg b rid upstream_id reading now db in
      IsServed host rid db reply db'
unfolding complete
complete-IsServed host shown cfg b rid upstream_id cut_off now db old found open_hold =
    review-IsServed host rid upstream_id cancelled db (λ amount e. ground arith)
complete-IsServed host shown cfg b rid upstream_id unread now db old found open_hold =
    review-IsServed host rid upstream_id (http_error 502) db (λ amount e. ground arith)
complete-IsServed host shown cfg b rid upstream_id (read v renders) now db old found open_hold =
    let kept =
      review-IsServed host rid upstream_id (http_error 502) db (λ amount e. ground arith) in
    elim (Result-cases (checked shown b v)) [
      | inr (x, e) ↦ rw (e, complete) kept
      | inl ((u, uid), e) ↦ elim (Result-cases (settle host (bill_of cfg rid u uid) now db)) [
        | inr (x, es) ↦ rw (e, es, complete) kept
        | inl ((done, db'), es) ↦
            rw (e, es, complete)
              (rendered-IsServed host renders rid upstream_id (completed (cost cfg u)) db db'
                (settle-IsServed host cfg rid u uid now db db' done old found open_hold es))
      ]
    ]

dispatch-IsServed :
    (host : Host) (shown : Value → String) (cfg : Runtime) (b : Body) (rid : String)
    (sending : Sending) (now : ℕ) (db : Db) (old : Usage)
    → find (has_id rid) db.usage ≡ some old
    → is_reserved old.state ≡ true
    → let (reply, db') = dispatch host shown cfg b rid sending now db in
      IsServed host rid db reply db'
unfolding dispatch complete checked
dispatch-IsServed host shown cfg b rid interrupted now db old found open_hold =
    review-IsServed host rid none cancelled db (λ amount e. ground arith)
dispatch-IsServed host shown cfg b rid undelivered now db old found open_hold =
    review-IsServed host rid none (http_error 502) db (λ amount e. ground arith)
dispatch-IsServed host shown cfg b rid (answered header status reading) now db old found open_hold =
    elim (Bool-cases (leb 200 status && leb status 299)) [
      | inr failed ↦
          rw (failed, dispatch)
            (review-IsServed host rid (header_id header) (http_error (dispatch_status status)) db
              (λ amount e. ground arith))
      | inl fine ↦
          rw (fine, dispatch)
            (complete-IsServed host shown cfg b rid (header_id header) reading now db old found
              open_hold)
    ]

unserved :
    (host : Host) (rid : String) (reply : Reply) (db : Db)
    → any (has_id rid) db.usage ≡ false
    → IsUncharged reply
    → IsServed host rid db reply db
unserved host rid reply db fresh free = record {
  run = here;
  shut = λ row found. absurd (ground (arith, find-none (has_id rid) db.usage fresh));
  charged = λ amount row e found. absurd (free amount e);
}

admitted-IsServed :
    (host : Host) (shown : Value → String) (cfg : Runtime) (r : Request) (h : Hold)
    (sending : Sending) (now : ℕ) (db : Db)
    → any (has_id r.rid) db.usage ≡ false
    → let (reply, db') = admitted host shown cfg r h sending now db in
      IsServed host r.rid db reply db'
unfolding admitted
admitted-IsServed host shown cfg r h sending now db fresh =
    elim (Result-cases (reserve h r.rid now db)) [
      | inl ((out, mid), e) ↦
          let (t, same) = reserve-Took h r.rid out now db mid e in
          let row = hold_row h t.n r.rid now in
          let usage_is : mid.usage ≡ db.usage ++ row ∷ [] = ap (λ (d : Db). d.usage) t.written in
          let found : find (has_id r.rid) mid.usage ≡ some row =
            ap (find (has_id r.rid)) usage_is
            ∙ find-snoc (has_id r.rid) db.usage row fresh
            ∙ ground (arith, eq_refl r.rid) in
          let rest = dispatch-IsServed host shown cfg r.body r.rid sending now mid row found refl in
          rw (e, same, admitted)
            (record {
              run = Reach-append (next here (reserved h r.rid now e)) rest.run;
              shut = rest.shut;
              charged = rest.charged;
            })
      | inr (value_error message, e) ↦
          rw (e, admitted)
            (unserved host r.rid (http_error (refusal message)) db fresh (λ amount x. ground arith))
      | inr (integrity_error, e) ↦
          rw (e, admitted)
            (unserved host r.rid (crashed integrity_error) db fresh (λ amount x. ground arith))
      | inr (type_error, e) ↦
          rw (e, admitted)
            (unserved host r.rid (crashed type_error) db fresh (λ amount x. ground arith))
    ]

-- A prepaid request under a fresh id, however the provider answers: its writes are a run of the
-- prepaid ledger; when it ends its row is not left reserved; and where it reports a cost, its row is
-- settled at that cost.
pub prepaid_chat-IsServed :
    (host : Host) (shown : Value → String) (cfg : Runtime) (budgets : Budgets) (r : Request)
    (available : Option ℕ) (sending : Sending) (now : ℕ) (db : Db)
    → any (has_id r.rid) db.usage ≡ false
    → let (reply, db') = prepaid_chat host shown cfg budgets r available sending now db in
      IsServed host r.rid db reply db'
unfolding prepaid_chat
prepaid_chat-IsServed host shown cfg budgets r available sending now db fresh =
    let idem = idem_of r.idempotency_key r.drawn_idem in
    elim (Option-cases (blocked host cfg r idem available db)) [
      | inl e ↦
          rw (e, prepaid_chat)
            (admitted-IsServed host shown cfg r (hold_of cfg budgets r idem) sending now db fresh)
      | inr (status, e) ↦
          rw (e, prepaid_chat)
            (unserved host r.rid (http_error status) db fresh (λ amount x. ground arith))
    ]
