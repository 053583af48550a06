-- ===== src/App/Inference/Closed.antt =====
-- The completion route leaves no hold open, in either mode.
use Prim.Native.String.{◌++◌ as ◌++ₛ◌}
use slipvolt.Base.{
  ℕ, ◌≡◌, refl, ap, ◌∙◌, ◌⊎◌, inl, inr, String, false, Option, arith, any, Bool-cases,
}
use slipvolt.Host.{Host}
use slipvolt.Db.{Db}
use slipvolt.Db.Sql.{find-none}
use slipvolt.Pool as pool
use slipvolt.Prepaid as ledger
use slipvolt.Settlement.Lifecycle.{IsSound}
use slipvolt.Sessions.Throttle.{Keeper, throttle, housekeep}
use slipvolt.Gateway as gateway
use slipvolt.Gateway.{Body, Request}
use slipvolt.Gateway.Closing.{IsClosed}
use slipvolt.Gateway.Served.{call-Served}
use slipvolt.App.Http.{Http, refused, granted, Http-cases}
use slipvolt.App.Requests.{Runtime}
use slipvolt.App.Eligibility.{is_allowance}
use slipvolt.App.Ingress.{Moment, limited}
use slipvolt.App.PrepaidChat.Served.{IsShut, prepaid_chat-IsServed}
use slipvolt.App.Inference.{
  Server, Call, Provider, Reply, holder_reply, prepaid_reply, accepted, request_of, answer, serve,
  ingress_limit, chat,
}

-- Neither ledger has a row of the id.
abbrev pub IsUnused : String → Db → Type 0
IsUnused rid db =
    (any (pool.has_id rid) db.member_usage ≡ false) × (any (ledger.has_id rid) db.usage ≡ false)

-- What is left of the request's id: a refusal leaves no open hold in either ledger, an answer none in
-- the ledger of its mode, unless the gateway goes on streaming it.
abbrev pub LeavesNothing : String → Http Reply → Db → Type 0
LeavesNothing rid (refused status) db = IsClosed rid db × IsShut rid db
LeavesNothing rid (granted (holder_reply reply)) db =
    IsClosed rid db ⊎ ((upstream_id : Option String) × (reply ≡ gateway.streaming upstream_id))
LeavesNothing rid (granted (prepaid_reply reply)) db = IsShut rid db

unused-IsClosed : (rid : String) (db : Db) → IsUnused rid db → IsClosed rid db
unused-IsClosed rid db fresh row found =
    absurd (ground (arith, find-none (pool.has_id rid) db.member_usage fresh.0))

unused-IsShut : (rid : String) (db : Db) → IsUnused rid db → IsShut rid db
unused-IsShut rid db fresh row found =
    absurd (ground (arith, find-none (ledger.has_id rid) db.usage fresh.1))

-- The limiter and its housekeeping keep both ledgers.
throttle-ledgers :
    (bucket : String) (limit seconds now monotonic : ℕ) (k : Keeper)
    → let db' = (throttle bucket limit seconds now monotonic k).1.db in
      (db'.member_usage ≡ k.db.member_usage)
      × (db'.usage ≡ k.db.usage)
      × (db'.member_funding ≡ k.db.member_funding)
      × (db'.member_pool_totals ≡ k.db.member_pool_totals)
unfolding throttle housekeep
throttle-ledgers bucket limit seconds now monotonic k = ground arith

IsSound-of_ledgers :
    (db db' : Db)
    → db'.member_usage ≡ db.member_usage
    → db'.member_funding ≡ db.member_funding
    → db'.member_pool_totals ≡ db.member_pool_totals
    → IsSound db
    → IsSound db'
IsSound-of_ledgers db db' usage funding totals h = record {
  projected = totals ∙ h.projected ∙ rw (usage, funding) refl;
  apart = rw usage h.apart;
}

answer-LeavesNothing :
    (host : Host) (server : Server) (cfg : Runtime) (p : Provider) (r : Request) (now : ℕ) (db : Db)
    → IsSound db
    → IsUnused r.rid db
    → let (reply, db') = answer host server cfg p r now db in
      LeavesNothing r.rid (granted reply) db'
unfolding answer
answer-LeavesNothing host server cfg p r now db sound fresh =
    elim (Bool-cases (is_allowance server.mode)) [
      | inl holder ↦
          let served = call-Served host cfg.config r p.available p.dispatch now db sound fresh.0 in
          rw (holder, answer) served.closed_hold
      | inr prepaid ↦
          let served =
            prepaid_chat-IsServed host p.shown cfg server.budgets r p.available p.sending now db
              fresh.1 in
          rw (prepaid, answer) served.shut
    ]

serve-LeavesNothing :
    (host : Host) (server : Server) (cfg : Runtime) (p : Provider) (c : Call) (m : Moment)
    (k : Keeper)
    → IsSound k.db
    → IsUnused c.rid k.db
    → let (reply, k') = serve host server cfg p c m k in LeavesNothing c.rid reply k'.db
unfolding serve
serve-LeavesNothing host server cfg p c m k sound fresh =
    elim (Http-cases (accepted host server cfg c k.db)) [
      | inl ((key, body), e) ↦
          rw (e, serve)
            (answer-LeavesNothing host server cfg p (request_of c key body) m.now k.db sound fresh)
      | inr (status, e) ↦
          rw (e, serve) (unused-IsClosed c.rid k.db fresh, unused-IsShut c.rid k.db fresh)
    ]

-- From a database whose holder ledger is sound, a completion request under an id that neither ledger
-- has: whatever it is refused for and however the provider answers, it leaves no open hold behind
-- in the ledger of its mode, unless the gateway goes on streaming.
pub chat-LeavesNothing :
    (host : Host) (server : Server) (cfg : Runtime) (p : Provider) (c : Call) (m : Moment)
    (k : Keeper)
    → IsSound k.db
    → IsUnused c.rid k.db
    → let (reply, k') = chat host server cfg p c m k in LeavesNothing c.rid reply k'.db
unfolding chat limited
chat-LeavesNothing host server cfg p c m k sound fresh =
    let bucket = host.digest ("inference-ingress" ++ₛ c.ip) in
    let after = throttle bucket (ingress_limit cfg) 60 m.now m.monotonic k in
    let (rows, usage, funding, totals) =
      throttle-ledgers bucket (ingress_limit cfg) 60 m.now m.monotonic k in
    let sound1 = IsSound-of_ledgers k.db after.1.db rows funding totals sound in
    let fresh1 : IsUnused c.rid after.1.db = (
      ap (any (pool.has_id c.rid)) rows ∙ fresh.0,
      ap (any (ledger.has_id c.rid)) usage ∙ fresh.1,
    ) in
    elim (Bool-cases after.0) [
      | inl admitted ↦
          rw (admitted, chat, limited)
            (serve-LeavesNothing host server cfg p c m after.1 sound1 fresh1)
      | inr stopped ↦
          rw (stopped, chat, limited)
            (unused-IsClosed c.rid after.1.db fresh1, unused-IsShut c.rid after.1.db fresh1)
    ]
