-- ===== src/Gateway/Streamed.antt =====
-- No stream leaves its hold open.
use slipvolt.Base.{
  ℕ, ◌+◌, ◌*◌, ◌≢◌, String, ltb, Option, List, [], ◌∷◌, arith, inl, inr, Bool-cases, Option-cases,
}
use slipvolt.Base.Result.{Error, Result-cases}
use slipvolt.Value.{Fields}
use slipvolt.Db.{Db}
use slipvolt.Settlement.{settle, review}
use slipvolt.Settlement.Lifecycle.{IsSound, Reach, here, next, settled, reviewed, review-eq}
use slipvolt.Gateway.{settlement_of}
use slipvolt.Broker.{request_cost}
use slipvolt.Gateway.Closing.{IsClosed, review-IsClosed, settle-IsClosed}
use slipvolt.Gateway.Stream.{
  Flow, Event, cut, broken, finished, frame, Ending, incomplete, cut_short, done, left, finish,
  stream, open_frame, take_frame,
}
use slipvolt.Gateway.Stream as streams

-- How a stream ends: its writes are a run of the ledger, its hold is closed, and the ledger has raised
-- nothing that would escape.
pub record Streamed (rid : String) (db : Db) (out : Ending × Db) : Type 0 where
  pub run : Reach db out.1
  pub closed_hold : IsClosed rid out.1
  pub contained : (e : Error) → out.0 ≢ streams.crashed e

-- An ending that is no crash.
abbrev IsCalm : Ending → Type 0
IsCalm ending = (e : Error) → ending ≢ streams.crashed e

left-Streamed :
    (rid : String) (uid : Option String) (ending : Ending) (db : Db)
    → IsSound db
    → IsCalm ending
    → Streamed rid db (left rid uid ending db)
unfolding left
left-Streamed rid uid ending db h calm = elim (Result-cases (review rid uid db)) [
  | inl (db', e) ↦
      rw (e, left)
        (record {
          run = next here (reviewed rid uid e);
          closed_hold = review-IsClosed rid uid db db' h.projected e;
          contained = calm;
        })
  | inr (x, e) ↦ absurd (ground (arith, review-eq rid uid db h.projected))
]

finish-Streamed :
    (rid model : String) (rate : ℕ) (f : Flow) (bytes : ℕ) (costs : Option Fields) (db : Db)
    → IsSound db
    → Streamed rid db (finish rid model rate f bytes costs db)
unfolding finish
finish-Streamed rid model rate f bytes costs db h =
    let kept = left-Streamed rid f.uid incomplete db h (λ e x. ground arith) in
    elim (Bool-cases (ltb 2000000 (f.size + bytes))) [
      | inl large ↦ simp (large, finish) kept
      | inr fits ↦ elim (Option-cases f.usage) [
        | inl missing ↦ simp (fits, missing, finish) kept
        | inr (u, eu) ↦
            let price = request_cost f.uid model u.total (u.total * rate) costs in
            let a = settlement_of rid u price f.uid in
            elim (Result-cases (settle a db)) [
              | inr (x, es) ↦ simp (fits, eu, es, finish) kept
              | inl ((b, db'), es) ↦
                  simp (fits, eu, es, finish)
                    (record {
                      run = next here (settled a es);
                      closed_hold = settle-IsClosed a db db' b h.projected es;
                      contained = λ e x. ground arith;
                    })
            ]
      ]
    ]

-- A stream, whatever the provider sends and wherever it breaks off: its writes are a run of the ledger,
-- at its end the row of the request is not left reserved, and no exception of the ledger escapes.
pub stream-Streamed :
    (rid model : String) (rate n : ℕ) (f : Flow) (events : List Event) (db : Db)
    → IsSound db
    → Streamed rid db (stream rid model rate n f events db)
unfolding stream
stream-Streamed rid model rate n f [] db h =
    left-Streamed rid f.uid incomplete db h (λ e x. ground arith)
stream-Streamed rid model rate n f (cut ∷ es) db h =
    left-Streamed rid f.uid cut_short db h (λ e x. ground arith)
stream-Streamed rid model rate n f (broken ∷ es) db h =
    left-Streamed rid f.uid incomplete db h (λ e x. ground arith)
stream-Streamed rid model rate n f (finished bytes costs ∷ es) db h =
    finish-Streamed rid model rate f bytes costs db h
stream-Streamed rid model rate n f (frame bytes v ∷ es) db h =
    elim (Result-cases (open_frame model f bytes v)) [
      | inr (x, e) ↦ rw (e, stream) (left-Streamed rid f.uid incomplete db h (λ e x. ground arith))
      | inl ((f1, d), e) ↦ elim (Result-cases (take_frame n f1 d)) [
        | inr (x, et) ↦
            rw (e, et, stream) (left-Streamed rid f1.uid incomplete db h (λ e x. ground arith))
        | inl (f2, et) ↦ rw (e, et, stream) (stream-Streamed rid model rate n f2 es db h)
      ]
    ]
