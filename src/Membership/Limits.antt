-- ===== src/Membership/Limits.antt =====
-- The limits that hold once a reservation has been made.
use slipvolt.Base.{
  ℕ, ◌+◌, ◌≤◌, ◌≡◌, refl, ap, ◌∙◌, String, Bool, true, ◌&&◌, ◌++◌, Option, none, some, List, [],
  ◌∷◌, arith, if◌then◌else◌, str_eq, leb, ◌*◌, ◌/◌,
}
use slipvolt.Base.Int.{pos}
use slipvolt.Base.Result.{ok_inj, ok, >>=-eq-ok}
use slipvolt.Value.{int, integer, ceiling}
use slipvolt.Db.{Db, MemberUsage, Totals, is_held, is_reserved, day_length}
use slipvolt.Db.Sql.{sum, count, sum-append, count-append}
use slipvolt.Pool.{held_ngonka, review_mark, recount}
use slipvolt.Pool.Projection.{IsProjected}
use slipvolt.Membership.{
  Admission, Quantities, quantities, reservation, reserve, totals, wallet_active, global_active,
  wallet_recent, global_recent, user_row, wallet_allowance, recent, of_wallet,
}
use slipvolt.Membership.Reserved.{reserved_db, reserve_inversion}
use slipvolt.Membership.Admitted.{Admissible}

-- The limits at a moment after the call, for the wallet of the request; all that is held is within the
-- balance that the broker showed.
pub record IsWithin (a : Admission) (daily now : ℕ) (db : Db) (t : Totals) : Type 0 where
  pub funded : t.spent + t.reserved ≤ t.allocated
  pub covered :
      (balance : ℕ) × (integer a.upstream_available 0 ceiling ≡ ok balance) × (t.reserved ≤ balance)
  pub in_wallet :
      (totals (some a.wallet) now db).used_tokens + (totals (some a.wallet) now db).reserved_tokens
      ≤ daily
  pub in_shared :
      (totals none now db).used_tokens + (totals none now db).reserved_tokens ≤ a.global_daily
  pub in_flight : wallet_active a db ≤ a.wallet_concurrency
  pub global_in_flight : global_active db ≤ a.global_concurrency
  pub in_minute : wallet_recent a now db ≤ a.rpm
  pub global_in_minute : global_recent now db ≤ a.global_rpm

-- A new row adds its tokens to what is held and nothing to what is used.
totals-snoc :
    (who : Option String) (now : ℕ) (a : Admission) (q : Quantities) (key rid : String) (db : Db)
    → ((totals who now (reserved_db a q key rid now db)).used_tokens
        ≡ (totals who now db).used_tokens)
      × ((totals who now (reserved_db a q key rid now db)).reserved_tokens
          ≤ (totals who now db).reserved_tokens + q.tokens)
unfolding totals
totals-snoc who now a q key rid db =
    let row = reservation a q key rid now in
    (
      ground (
        arith,
        sum-append
            (λ (r : MemberUsage).
              if leb (now / day_length * day_length) r.created && of_wallet who r.wallet
              then r.tokens
              else 0)
            db.member_usage (row ∷ []),
      ),
      ground (
        arith,
        sum-append
            (λ (r : MemberUsage).
              if is_held r.state && of_wallet who r.wallet then r.reserved_tokens else 0)
            db.member_usage (row ∷ []),
      ),
    )

-- A count grows by one row at most.
count-snoc :
    (p : MemberUsage → Bool) (rows : List MemberUsage) (row : MemberUsage)
    → count p (rows ++ row ∷ []) ≤ count p rows + 1
count-snoc p rows row = ground (arith, count-append p rows (row ∷ []))

quantities-upstream :
    (a : Admission) (q : Quantities)
    → quantities a ≡ ok q
    → integer a.upstream_available 0 ceiling ≡ ok q.upstream
unfolding quantities
quantities-upstream a q e =
    let (tokens, _, e1) = >>=-eq-ok (integer a.tokens 1 ceiling) _ e in
    let (rate, _, e2) = >>=-eq-ok (integer a.ngonka_per_token 1 1000000) _ e1 in
    let (upstream, eu, e3) = >>=-eq-ok (integer a.upstream_available 0 ceiling) _ e2 in
    let (amount, _, e4) = >>=-eq-ok (integer (int (pos (tokens * rate))) 1 ceiling) _ e3 in
    eu ∙ ap ok (ap (λ r. r.upstream) (ok_inj e4))

IsWithin-after :
    (a : Admission) (q : Quantities) (key rid : String) (now : ℕ) (db : Db) (t : Totals) (daily : ℕ)
    → Admissible true a q now db t
    → wallet_allowance (user_row a.wallet db) a.wallet_daily ≡ daily
    → integer a.upstream_available 0 ceiling ≡ ok q.upstream
    → t.spent + t.reserved + q.amount ≤ t.allocated
    → IsWithin a daily now
        (reserved_db a q key rid now db)
        (record t { reserved = t.reserved + q.amount })
IsWithin-after a q key rid now db t daily h e u f =
    let row = reservation a q key rid now in
    record {
      funded = omega arith;
      covered = (q.upstream, u, h.budget.covered);
      in_wallet =
          omega (arith, h.budget.in_wallet, e, totals-snoc (some a.wallet) now a q key rid db);
      in_shared = omega (arith, h.budget.in_shared, totals-snoc none now a q key rid db);
      in_flight = omega (
        arith,
        h.rates.slot,
        count-snoc (λ (r : MemberUsage). str_eq r.wallet a.wallet && is_reserved r.state)
            db.member_usage row,
      );
      global_in_flight = omega (
        arith,
        h.rates.global_slot,
        count-snoc (λ (r : MemberUsage). is_reserved r.state) db.member_usage row,
      );
      in_minute = omega (
        arith,
        h.rates.minute,
        count-snoc (λ (r : MemberUsage). str_eq r.wallet a.wallet && recent now r) db.member_usage
            row,
      );
      global_in_minute =
          omega (arith, h.rates.global_minute, count-snoc (recent now) db.member_usage row);
    }

reserved_db-totals :
    (a : Admission) (q : Quantities) (key rid : String) (now : ℕ) (db : Db)
    → (reserved_db a q key rid now db).member_pool_totals
      ≡ some (record (recount db) { reserved = sum held_ngonka db.member_usage + q.amount })
reserved_db-totals a q key rid now db =
    let row = reservation a q key rid now in
    ground (
      arith,
      sum-append (λ (r : MemberUsage). r.cost_ngonka) db.member_usage (row ∷ []),
      sum-append held_ngonka db.member_usage (row ∷ []),
      sum-append review_mark db.member_usage (row ∷ []),
    )

-- After a reservation on a projected database the pool still covers what it has spent and holds, the
-- broker's balance covers what it holds, the wallet and the shared pool are within their daily tokens,
-- and the counts are within the rate and concurrency limits.
pub reserve-IsWithin :
    (a : Admission) (rid : String) (now : ℕ) (db db' : Db) (r : Option String)
    → IsProjected db
    → reserve a rid now db ≡ ok (r, db')
    → (t : Totals) × (db'.member_pool_totals ≡ some t)
      × IsWithin a (wallet_allowance (user_row a.wallet db) a.wallet_daily) now db' t
reserve-IsWithin a rid now db db' r h e =
    let (q, key, eq, ek, er, edb, taken, admissible) = reserve_inversion a rid now db db' r h e in
    let t = recount db in
    (
      record t { reserved = t.reserved + q.amount },
      ap (λ (d : Db). d.member_pool_totals) edb ∙ reserved_db-totals a q key rid now db,
      rw edb (
          IsWithin-after a q key rid now db t _ admissible refl (quantities-upstream a q eq)
            (admissible.budget.funded)),
    )
