-- ===== src/Prepaid/Covered.antt =====
-- A prepaid reservation stays within the balance and the key's limit, and keeps the books.
use slipvolt.Base.{ℕ, ◌≡◌, refl, ap, String, some, arith, inl, inr, Option-cases}
use slipvolt.Base.Int.{pos, ◌+ℤ◌, ◌-ℤ◌, ◌≤ℤ◌, int_laws}
use slipvolt.Base.Result.{ok}
use slipvolt.Value.{Value, int}
use slipvolt.Db.{Db, Account, ApiKey}
use slipvolt.Db.Sql.{
  find, find-some, any_of_find, any_of_find-none, any-or_left, find-update-revised,
}
use slipvolt.Prepaid.{
  Hold, has_account, find_account, has_id, has_key_id, active_key, add_balance, add_spent, reserve,
  same_request, positive,
}
use slipvolt.Prepaid.Booked.{IsBooked}
use slipvolt.Prepaid.Held.{held_db-IsBooked, Took, reserve-Took, active_is_key}

-- A reservation keeps the books.
pub reserve-IsBooked :
    (h : Hold) (rid out : String) (now : ℕ) (db db' : Db)
    → IsBooked db
    → reserve h rid now db ≡ ok (out, db')
    → IsBooked db'
reserve-IsBooked h rid out now db db' b e =
    let t : Took h rid now db db' = (reserve-Took h rid out now db db' e).0 in
    elim (Option-cases (find (has_key_id h.key_id) db.api_keys)) [
      | inl missing ↦
          let here =
            any_of_find (active_key h.key_id h.wallet) (has_key_id h.key_id) db.api_keys t.key
              t.active
              (active_is_key h.key_id h.wallet t.key
                (find-some (active_key h.key_id h.wallet) db.api_keys t.key t.active)) in
          absurd (ground (arith, here, any_of_find-none (has_key_id h.key_id) db.api_keys missing))
      | inr (k, ek) ↦ rw t.written (
          held_db-IsBooked h t.n rid now db t.account k b t.found ek
            (any-or_left (has_id rid) (same_request h.key_id h.idem) db.usage t.free))
    ]

positive_inversion :
    (amount : Value) (n : ℕ) (message : String)
    → positive amount message ≡ ok n
    → amount ≡ int (pos n)
unfolding positive
positive_inversion (int (pos m)) n message e = ap (λ k. int (pos k)) (ground (arith, e))
positive_inversion amount n message e = ground (arith, e)

-- After a reservation the wallet's balance is not negative, and the key's spending is within its
-- limit; the balance is down by the amount that was asked for, and the key's spending up by it.
pub reserve_covered :
    (h : Hold) (rid out : String) (now : ℕ) (db db' : Db)
    → reserve h rid now db ≡ ok (out, db')
    → (n : ℕ) × (a a' : Account) × (k k' : ApiKey) × (h.amount ≡ int (pos n))
      × (find_account h.wallet db ≡ some a)
      × (find_account h.wallet db' ≡ some a')
      × (find (active_key h.key_id h.wallet) db.api_keys ≡ some k)
      × (find (active_key h.key_id h.wallet) db'.api_keys ≡ some k')
      × (a'.balance_nusd +ℤ pos n ≡ a.balance_nusd)
      × (k'.spent_nusd ≡ k.spent_nusd +ℤ pos n)
      × (pos 0 ≤ℤ a'.balance_nusd)
      × (k'.spent_nusd ≤ℤ pos k'.limit_nusd)
reserve_covered h rid out now db db' e =
    let t : Took h rid now db db' = (reserve-Took h rid out now db db' e).0 in
    let mine = find-some (has_account h.wallet) db.accounts t.account t.found in
    let my_key =
      active_is_key h.key_id h.wallet t.key
        (find-some (active_key h.key_id h.wallet) db.api_keys t.key t.active) in
    let accounts =
      find-update-revised (has_account h.wallet) (has_account h.wallet)
        (add_balance (pos 0 -ℤ pos t.n)) (λ x. refl) db.accounts in
    let keys =
      find-update-revised (active_key h.key_id h.wallet) (has_key_id h.key_id) (add_spent (pos t.n))
        (λ x. refl) db.api_keys in
    (
      t.n,
      t.account,
      add_balance (pos 0 -ℤ pos t.n) t.account,
      t.key,
      add_spent (pos t.n) t.key,
      positive_inversion h.amount t.n "Invalid reservation" t.asked,
      t.found,
      rw t.written (ground (arith, accounts, t.found, mine)),
      t.active,
      rw t.written (ground (arith, keys, t.active, my_key)),
      omega int_laws,
      refl,
      omega (int_laws, t.covered),
      t.in_limit,
    )
