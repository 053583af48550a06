-- ===== src/Gateway/Served.antt =====
-- No request leaves its hold open: it is settled, or it waits for review.
use slipvolt.Base.{
  ℕ, ◌*◌, ◌≡◌, ◌≢◌, refl, String, Bool, true, false, not, ◌&&◌, ◌||◌, ltb, leb, ◌⊎◌, Option, none,
  some, arith, any, inl, inr, Bool-cases, Option-cases, str_eq,
}
use slipvolt.Base.Result.{ok, value_error, integrity_error, type_error, Result-cases}
use slipvolt.Base.Int.{pos}
use slipvolt.Value.{int}
use text.Mathlib.TextPositions.{eq_refl}
use slipvolt.Host.{Host, len}
use slipvolt.Db.{Db, MemberUsage, State, is_reserved}
use slipvolt.Db.Sql.{find-none, find-snoc, any-or_left}
use slipvolt.Pool.{has_id}
use slipvolt.Membership.{Admission, reserve, reservation}
use slipvolt.Membership.Reserved.{reserve_inversion}
use slipvolt.Settlement.{Settlement, settle, review, find_usage}
use slipvolt.Settlement.Lifecycle.{
  IsSound, Reach, here, next, reserved, settled, reviewed, closed, closes, settle-Settles,
  review-eq,
}
use slipvolt.Settlement.Once.{Reach-IsSound}
use slipvolt.Gateway.{
  Config, Request, Answer, cut_off, unread, read, Dispatch, interrupted, undelivered, answered,
  Reply, streaming, completed, prepare, complete, dispatch, admitted, call, check_answer,
  settlement_of, http_error, header_id, dispatch_status, refusal_status, admission_of, idem_of,
  crashed,
}
use slipvolt.Broker.{request_cost}
use slipvolt.Gateway as gateway
use slipvolt.Gateway.Closing.{
  IsClosed, review-IsClosed, settle-IsClosed, settled_rows, settled_of-amounts,
}

-- The second half of `same_row`.
abbrev same_pair : MemberUsage → MemberUsage → Bool
same_pair r u = str_eq u.key_id r.key_id && str_eq u.idem r.idem

-- How a call ends: its writes are a run of the ledger, its hold is closed unless a stream goes on, and
-- what it reports as completed is what the row says.
pub record Served (rid : String) (db : Db) (reply : Reply) (db' : Db) : Type 0 where
  pub run : Reach db db'
  pub closed_hold : IsClosed rid db' ⊎ ((u : Option String) × (reply ≡ streaming u))
  pub billed :
      (tokens cost : ℕ) (source : String) (row : MemberUsage)
      → reply ≡ completed tokens cost source
      → find_usage rid db' ≡ some row
      → (row.state ≡ State.settled) × (row.tokens ≡ tokens) × (row.cost_ngonka ≡ cost)

-- A reply that reports no charge.
abbrev IsUncharged : Reply → Type 0
IsUncharged reply = (tokens cost : ℕ) (source : String) → reply ≢ completed tokens cost source

reviewed-Served :
    (rid : String) (upstream_id : Option String) (reply : Reply) (db : Db)
    → IsSound db
    → IsUncharged reply
    → let (reply', db') = gateway.reviewed rid upstream_id reply db in Served rid db reply' db'
unfolding gateway.reviewed
reviewed-Served rid upstream_id reply db h free = elim (Result-cases (review rid upstream_id db)) [
  | inl (db', e) ↦
      rw (e, gateway.reviewed)
        (record {
          run = next here (reviewed rid upstream_id e);
          closed_hold = inl (review-IsClosed rid upstream_id db db' h.projected e);
          billed = λ tokens cost source row er found. absurd (free tokens cost source er);
        })
  | inr (x, e) ↦ absurd (ground (arith, review-eq rid upstream_id db h.projected))
]

settled-Served :
    (rid : String) (a : Settlement) (tokens cost : ℕ) (source : String) (b : Bool) (db db' : Db)
    (old : MemberUsage)
    → IsSound db
    → a.rid ≡ rid
    → a.tokens ≡ int (pos tokens)
    → a.cost ≡ int (pos cost)
    → find_usage rid db ≡ some old
    → is_reserved old.state ≡ true
    → settle a db ≡ ok (b, db')
    → Served rid db (completed tokens cost source) db'
settled-Served rid a tokens cost source b db db' old h er et ec found open_hold e =
    elim (settle-Settles a db db' b h.projected e) [
      | closed eb edb ↦ absurd (
          ground (arith, settle-IsClosed a db db' b h.projected e old (ground (arith, edb, found))))
      | closes s row es ef held eb edb ↦ record {
        run = next here (settled a e);
        closed_hold =
            inl (λ row' got. settle-IsClosed a db db' b h.projected e row' (ground arith));
        billed = λ tokens' cost' source' row' er' got.
            let amounts = settled_of-amounts a s tokens cost es et ec in
            let done = settled_rows a.rid s db.member_usage row' (ground (arith, edb, got)) in
            ground (arith, done, amounts);
      }
    ]

Reach-append : {db mid db' : Db} → Reach db mid → Reach mid db' → Reach db db'
Reach-append first here = first
Reach-append first (next rest step) = next (Reach-append first rest) step

-- What was run before a call is part of its run.
after-Served :
    (rid : String) (db mid : Db) (reply : Reply) (db' : Db)
    → Reach db mid
    → Served rid mid reply db'
    → Served rid db reply db'
after-Served rid db mid reply db' run s = record {
  run = Reach-append run s.run;
  closed_hold = s.closed_hold;
  billed = s.billed;
}

rendered-Served :
    (renders : Bool) (rid : String) (upstream_id : Option String) (reply : Reply) (db mid : Db)
    → IsSound db
    → Reach db mid
    → Served rid db reply mid
    → let (reply', db') = gateway.rendered renders rid upstream_id reply mid in
      Served rid db reply' db'
rendered-Served true rid upstream_id reply db mid h run s = s
rendered-Served false rid upstream_id reply db mid h run s =
    let (reply', db') = gateway.reviewed rid upstream_id (http_error 502) mid in
    after-Served rid db mid reply' db' run (
      reviewed-Served rid upstream_id (http_error 502) mid (Reach-IsSound h run)
        (λ t c s e. ground arith))

complete-Served :
    (cfg : Config) (r : Request) (upstream_id : Option String) (answer : Answer) (db : Db)
    (old : MemberUsage)
    → IsSound db
    → find_usage r.rid db ≡ some old
    → is_reserved old.state ≡ true
    → let (reply, db') = complete cfg r upstream_id answer db in Served r.rid db reply db'
unfolding complete
complete-Served cfg r upstream_id cut_off db old h found open_hold =
    reviewed-Served r.rid upstream_id gateway.cancelled db h (λ t c s e. ground arith)
complete-Served cfg r upstream_id unread db old h found open_hold =
    reviewed-Served r.rid upstream_id (http_error 502) db h (λ t c s e. ground arith)
complete-Served cfg r upstream_id (read v costs renders) db old h found open_hold =
    let kept = reviewed-Served r.rid upstream_id (http_error 502) db h (λ t c s e. ground arith) in
    elim (Result-cases (check_answer r.body upstream_id v)) [
      | inr (x, e) ↦ rw (e, complete) kept
      | inl ((u, uid), e) ↦
          let price =
            request_cost (some uid) r.body.model u.total (u.total * cfg.ngonka_per_token) costs in
          let a = settlement_of r.rid u price (some uid) in
          elim (Result-cases (settle a db)) [
            | inr (x, es) ↦ rw (e, es, complete) kept
            | inl ((b, db'), es) ↦
                rw (e, es, complete)
                  (rendered-Served renders r.rid upstream_id (completed u.total price.0 price.1) db
                    db' h (next here (settled a es))
                    (settled-Served r.rid a u.total price.0 price.1 b db db' old h refl refl refl
                      found open_hold es))
          ]
    ]

dispatch-Served :
    (cfg : Config) (r : Request) (d : Dispatch) (db : Db) (old : MemberUsage)
    → IsSound db
    → find_usage r.rid db ≡ some old
    → is_reserved old.state ≡ true
    → let (reply, db') = dispatch cfg r d db in Served r.rid db reply db'
unfolding dispatch complete check_answer gateway.check_fields
dispatch-Served cfg r interrupted db old h found open_hold =
    reviewed-Served r.rid none gateway.cancelled db h (λ t c s e. ground arith)
dispatch-Served cfg r undelivered db old h found open_hold =
    reviewed-Served r.rid none (http_error 502) db h (λ t c s e. ground arith)
dispatch-Served cfg r (answered header status answer) db old h found open_hold =
    elim (Bool-cases (leb 200 status && leb status 299)) [
      | inr failed ↦
          rw (failed, dispatch)
            (reviewed-Served r.rid (header_id header) (http_error (dispatch_status status)) db h
              (λ t c s e. ground arith))
      | inl fine ↦ elim (Bool-cases r.body.stream) [
        | inl live ↦
            rw (fine, live, dispatch)
              (record {
                run = here;
                closed_hold = inr (header_id header, refl);
                billed = λ t c s row e got. absurd (ground arith);
              })
        | inr whole ↦
            rw (fine, whole, dispatch)
              (complete-Served cfg r (header_id header) answer db old h found open_hold)
      ]
    ]

unserved :
    (rid : String) (reply : Reply) (db : Db)
    → any (has_id rid) db.member_usage ≡ false
    → ((t c : ℕ) (s : String) → reply ≢ completed t c s)
    → Served rid db reply db
unserved rid reply db fresh free = record {
  run = here;
  closed_hold =
      inl (λ row found. absurd (ground (arith, find-none (has_id rid) db.member_usage fresh)));
  billed = λ t c s row e got. absurd (free t c s e);
}

reserved_row :
    (a : Admission) (rid : String) (now : ℕ) (db db' : Db) (out : Option String)
    → IsSound db
    → reserve a rid now db ≡ ok (out, db')
    → (row : MemberUsage) × (find_usage rid db' ≡ some row) × (is_reserved row.state ≡ true)
reserved_row a rid now db db' out h e =
    let (q, key, eq, ek, er, edb, free, fit) =
      reserve_inversion a rid now db db' out h.projected e in
    let row = reservation a q key rid now in
    let none_there : any (has_id rid) db.member_usage ≡ false =
      any-or_left (has_id rid) (same_pair row) db.member_usage free in
    (
      row,
      rw edb (ground (arith, find-snoc (has_id rid) db.member_usage row none_there, eq_refl rid)),
      refl,
    )

admitted-Served :
    (cfg : Config) (r : Request) (d : Dispatch) (a : Admission) (now : ℕ) (db : Db)
    → IsSound db
    → any (has_id r.rid) db.member_usage ≡ false
    → let (reply, db') = admitted cfg r d a now db in Served r.rid db reply db'
unfolding admitted
admitted-Served cfg r d a now db h fresh = elim (Result-cases (reserve a r.rid now db)) [
  | inl ((out, mid), e) ↦
      let run = next here (reserved a r.rid now e) in
      let (row, found, open_hold) = reserved_row a r.rid now db mid out h e in
      let rest = dispatch-Served cfg r d mid row (Reach-IsSound h run) found open_hold in
      rw (e, admitted)
        (record {
          run = Reach-append run rest.run;
          closed_hold = rest.closed_hold;
          billed = rest.billed;
        })
  | inr (value_error text, e) ↦
      rw (e, admitted)
        (unserved r.rid (http_error (refusal_status text)) db fresh (λ t c s e. ground arith))
  | inr (integrity_error, e) ↦
      rw (e, admitted) (unserved r.rid (crashed integrity_error) db fresh (λ t c s e. ground arith))
  | inr (type_error, e) ↦
      rw (e, admitted) (unserved r.rid (crashed type_error) db fresh (λ t c s e. ground arith))
]

-- A request of a holder under a fresh id, however the provider answers: its writes are a run of the
-- ledger; when it ends its row is not left reserved, unless the answer is streamed; and where it
-- reports tokens and a cost, its row is settled with them.
pub call-Served :
    (host : Host) (cfg : Config) (r : Request) (available : Option ℕ) (d : Dispatch) (now : ℕ)
    (db : Db)
    → IsSound db
    → any (has_id r.rid) db.member_usage ≡ false
    → let (reply, db') = call host cfg r available d now db in Served r.rid db reply db'
unfolding call
call-Served host cfg r available d now db h fresh =
    let idem = idem_of r.idempotency_key r.drawn_idem in
    let refused =
      λ (status : ℕ). unserved r.rid (http_error status) db fresh (λ t c s e. ground arith) in
    elim (Option-cases (prepare cfg r.body)) [
      | inl e ↦ rw (e, call) (refused 413)
      | inr (tokens, e) ↦ elim (Bool-cases (ltb 100 (len idem) || not (host.is_printable idem))) [
        | inl bad ↦ rw (e, bad, call) (refused 400)
        | inr good ↦ elim (Option-cases available) [
          | inl ea ↦ rw (e, good, ea, call) (refused 503)
          | inr (funds, ea) ↦
              rw (e, good, ea, call)
                (admitted-Served cfg r d (admission_of cfg r idem tokens funds) now db h fresh)
        ]
      ]
    ]
