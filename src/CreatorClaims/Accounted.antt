-- ===== src/CreatorClaims/Accounted.antt =====
-- Every account of an accepted claim changed by what the claim and the fee explain, and by nothing else.
use package.text.Mathlib.TextPositions.{eq_refl}
use mathlib.Core.Path.{subst}
use slipvolt.Base.{
  ℕ, ◌≤◌, ◌<◌, ◌≡◌, sym, ap, ◌∙◌, inl, inr, String, Bool, true, false, not, ◌&&◌, ◌||◌, some, List,
  [], ◌∷◌, arith, leb, all, length, ◌==◌, if◌then◌else◌, str_eq, eq_iff, any, map, All, Bool-cases,
}
use slipvolt.Base.Int.{ℤ, pos, negsuc, ◌+ℤ◌, ◌-ℤ◌, eq_of_parts, int_laws}
use slipvolt.Base.Result.{ok, >>=-eq-ok, raise_if-passed}
use slipvolt.Value.{Value, Fields, get}
use slipvolt.Burn.{u64_max}
use slipvolt.TokenAudit.{array}
use slipvolt.CreatorClaims.{Accounts, account_list, transaction_quantity}
use slipvolt.CreatorClaims.Balances.{
  eq_ℤ, key_addresses, has_repeat, first_signed, deltas, delta_of, delta_at, claimed, is_stray,
  claimed_amount, payer_of, balances,
}

-- What an account's balance should change by: the creator gains the amount, the vault loses it, and
-- the payer loses the fee.
abbrev pub explained : String → String → String → ℕ → ℕ → String → ℤ
explained payer creator vault amount fee a =
    (if str_eq a creator then pos amount else pos 0)
    -ℤ (if str_eq a vault then pos amount else pos 0)
    -ℤ (if str_eq a payer then pos fee else pos 0)

abbrev pub IsExplained : String → String → String → ℕ → ℕ → String × ℤ → Type 0
IsExplained payer creator vault amount fee (a, d) = d ≡ explained payer creator vault amount fee a

abbrev IsFound : List (String × ℤ) → String × ℤ → Type 0
IsFound ds (a, d) = delta_of a ds ≡ some d

abbrev name_of : String × ℤ → String
name_of (a, d) = a

deltas-names :
    (addresses : List String) (before after : List Value) (ds : List (String × ℤ))
    → deltas addresses before after ≡ ok ds
    → map name_of ds ≡ addresses
unfolding deltas
deltas-names [] before after ds e = let same : [] ≡ ds = cc in ap (map name_of) (sym same)
deltas-names (a ∷ addresses) [] after ds e = absurd (ground arith)
deltas-names (a ∷ addresses) (b ∷ before) [] ds e = absurd (ground arith)
deltas-names (a ∷ addresses) (b ∷ before) (c ∷ after) ds e =
    let (post, _, e1) = >>=-eq-ok (transaction_quantity c u64_max) _ e in
    let (pre, _, e2) = >>=-eq-ok (transaction_quantity b u64_max) _ e1 in
    let (rest, f, e3) = >>=-eq-ok (deltas addresses before after) _ e2 in
    let same : (a, pos post -ℤ pos pre) ∷ rest ≡ ds = cc in
    ap (map name_of) (sym same)
    ∙ ap (λ names. a ∷ names) (deltas-names addresses before after rest f)

-- Under distinct names a lookup finds every row.
IsFound-later :
    (head : String × ℤ) (rows all_rows : List (String × ℤ))
    → any (str_eq head.0) (map name_of rows) ≡ false
    → All (IsFound all_rows) rows
    → All (IsFound (head ∷ all_rows)) rows
IsFound-later head [] all_rows new h = tt
IsFound-later head ((a, d) ∷ rows) all_rows new (h, rest) =
    (ground (arith, h), IsFound-later head rows all_rows (ground arith) rest)

all-IsFound :
    (rows : List (String × ℤ)) → has_repeat (map name_of rows) ≡ false → All (IsFound rows) rows
all-IsFound [] h = tt
all-IsFound ((a, d) ∷ rows) h = (
  ground (arith, eq_refl a),
  IsFound-later (a, d) rows rows (ground arith) (all-IsFound rows (ground arith)),
)

eq_ℤ-eq : (a b : ℤ) → eq_ℤ a b ≡ true → a ≡ b
eq_ℤ-eq a b h = eq_of_parts a b (ground arith)

-- The guards of `claimed_amount`.
record Guards (payer creator vault : String) (fee : ℕ) (ds : List (String × ℤ)) (amount : ℕ)
    : Type 0 where
  gained : ℤ
  lost : ℤ
  paid : ℤ
  apart : str_eq payer vault ≡ false
  creator_row : delta_of creator ds ≡ some gained
  vault_row : delta_of vault ds ≡ some lost
  payer_row : delta_of payer ds ≡ some paid
  is_gain : gained +ℤ (if str_eq payer creator then pos fee else pos 0) ≡ pos amount
  is_loss : lost ≡ pos 0 -ℤ pos amount
  is_fee : str_eq payer creator ≡ false → paid ≡ pos 0 -ℤ pos fee
  no_stray : any (is_stray payer creator vault) ds ≡ false
  range : (0 < amount) × (amount ≤ u64_max)

delta_at-row :
    (key : String) (ds : List (String × ℤ)) (d : ℤ)
    → delta_at key ds ≡ ok d
    → delta_of key ds ≡ some d
unfolding delta_at
delta_at-row key ds d e = ground arith

claimed_pos : (x : ℤ) (n : ℕ) → claimed x ≡ ok n → (x ≡ pos n) × (0 < n) × (n ≤ u64_max)
unfolding claimed
claimed_pos (pos m) n e = (ground arith, ground arith, ground arith)
claimed_pos (negsuc m) n e = absurd (ground arith)

claimed_amount-Guards :
    (payer : String) (accounts : Accounts) (fee : ℕ) (ds : List (String × ℤ)) (amount : ℕ)
    → claimed_amount payer accounts fee ds ≡ ok amount
    → Guards payer accounts.creator accounts.vault fee ds amount
unfolding claimed_amount
claimed_amount-Guards payer accounts fee ds amount e =
    let creator = accounts.creator in
    let vault = accounts.vault in
    let (apart, e1) = raise_if-passed (str_eq payer vault) _ _ e in
    let (gained, f1, e2) = >>=-eq-ok (delta_at creator ds) _ e1 in
    let (n, f2, e3) =
      >>=-eq-ok (claimed (gained +ℤ (if str_eq payer creator then pos fee else pos 0))) _ e2 in
    let (lost, f3, e4) = >>=-eq-ok (delta_at vault ds) _ e3 in
    let (loss, e5) = raise_if-passed (not (eq_ℤ lost (pos 0 -ℤ pos n))) _ _ e4 in
    let (paid, f4, e6) = >>=-eq-ok (delta_at payer ds) _ e5 in
    let (fees, e7) =
      raise_if-passed (not (str_eq payer creator) && not (eq_ℤ paid (pos 0 -ℤ pos fee))) _ _ e6 in
    let (strays, e8) = raise_if-passed (any (is_stray payer creator vault) ds) _ _ e7 in
    let same : n ≡ amount = ground arith in
    let amounts = claimed_pos _ n f2 in
    subst (λ k. Guards payer creator vault fee ds k) same
      (record {
        gained = gained;
        lost = lost;
        paid = paid;
        apart = apart;
        creator_row = delta_at-row creator ds gained f1;
        vault_row = delta_at-row vault ds lost f3;
        payer_row = delta_at-row payer ds paid f4;
        is_gain = amounts.0;
        is_loss = eq_ℤ-eq lost (pos 0 -ℤ pos n) (ground arith);
        is_fee = λ other. eq_ℤ-eq paid (pos 0 -ℤ pos fee) (ground arith);
        no_stray = strays;
        range = (amounts.1, amounts.2);
      })

some_same : {a b : ℤ} → some a ≡ some b → a ≡ b
some_same h = ground arith

str_eq_sym : (s t : String) → str_eq s t ≡ str_eq t s
str_eq_sym s t = ground (arith, eq_iff s t, eq_iff t s)

still_zero :
    (p c v : Bool) (d : ℤ)
    → (not (p || c || v) && not (eq_ℤ d (pos 0))) ≡ false
    → p ≡ false
    → c ≡ false
    → v ≡ false
    → d ≡ pos 0
still_zero p c v d calm ep ec ev = eq_ℤ-eq d (pos 0) (ground arith)

row-IsExplained :
    (payer creator vault a : String) (d : ℤ) (fee amount : ℕ) (ds : List (String × ℤ))
    → Guards payer creator vault fee ds amount
    → str_eq vault creator ≡ false
    → delta_of a ds ≡ some d
    → is_stray payer creator vault (a, d) ≡ false
    → d ≡ explained payer creator vault amount fee a
row-IsExplained payer creator vault a d fee amount ds g differ found calm =
    elim (Bool-cases (str_eq a creator)) [
      | inl mine ↦
          let is : a ≡ creator = (eq_iff a creator).0 mine in
          let row : d ≡ g.gained =
            some_same (sym found ∙ ap (λ k. delta_of k ds) is ∙ g.creator_row) in
          let source : str_eq a vault ≡ false =
            ap (λ k. str_eq k vault) is ∙ str_eq_sym creator vault ∙ differ in
          let gain = g.is_gain in
          elim (Bool-cases (str_eq payer creator)) [
            | inl pays ↦
                let named : str_eq a payer ≡ true =
                  ap (λ k. str_eq k payer) is ∙ str_eq_sym creator payer ∙ pays in
                rw (mine, source, named) (grind (int_laws, row, gain, pays))
            | inr apart ↦
                let named : str_eq a payer ≡ false =
                  ap (λ k. str_eq k payer) is ∙ str_eq_sym creator payer ∙ apart in
                rw (mine, source, named) (grind (int_laws, row, gain, apart))
          ]
      | inr other ↦ elim (Bool-cases (str_eq a vault)) [
        | inl source ↦
            let is : a ≡ vault = (eq_iff a vault).0 source in
            let row : d ≡ g.lost =
              some_same (sym found ∙ ap (λ k. delta_of k ds) is ∙ g.vault_row) in
            let apart : str_eq a payer ≡ false =
              ap (λ k. str_eq k payer) is ∙ str_eq_sym vault payer ∙ g.apart in
            let loss = g.is_loss in rw (other, source, apart) (grind (int_laws, row, loss))
        | inr neither ↦ elim (Bool-cases (str_eq a payer)) [
          | inl pays ↦
              let is : a ≡ payer = (eq_iff a payer).0 pays in
              let row : d ≡ g.paid =
                some_same (sym found ∙ ap (λ k. delta_of k ds) is ∙ g.payer_row) in
              let fees = g.is_fee (ap (λ k. str_eq k creator) (sym is) ∙ other) in
              rw (other, neither, pays) (grind (int_laws, row, fees))
          | inr stranger ↦
              let zero_delta =
                still_zero (str_eq a payer) (str_eq a creator) (str_eq a vault) d calm stranger
                  other neither in
              rw (other, neither, stranger) (grind (int_laws, zero_delta))
        ]
      ]
    ]

-- What the balances of an accepted claim show.
pub record IsAccounted (meta message : Fields) (accounts : Accounts) (amount : ℕ) : Type 0 where
  pub keys : List Value
  pub before : List Value
  pub after : List Value
  pub addresses : List String
  pub payer : String
  pub fee : ℕ
  pub changes : List (String × ℤ)
  pub of_message : array (get "accountKeys" message) "Invalid account keys" ≡ ok keys
  pub of_before : array (get "preBalances" meta) "Incomplete balance evidence" ≡ ok before
  pub of_after : array (get "postBalances" meta) "Incomplete balance evidence" ≡ ok after
  pub listed : key_addresses keys ≡ ok addresses
  pub distinct : has_repeat addresses ≡ false
  pub read : deltas addresses before after ≡ ok changes
  pub charged : transaction_quantity (get "fee" meta) u64_max ≡ ok fee
  pub range : (0 < amount) × (amount ≤ u64_max)
  pub explained_all : All (IsExplained payer accounts.creator accounts.vault amount fee) changes

no_stray_row :
    (payer creator vault : String) (row : String × ℤ) (rows : List (String × ℤ))
    → any (is_stray payer creator vault) (row ∷ rows) ≡ false
    → (is_stray payer creator vault row ≡ false) × (any (is_stray payer creator vault) rows ≡ false)
no_stray_row payer creator vault row rows h = (ground arith, ground arith)

rows-IsExplained :
    (payer creator vault : String) (fee amount : ℕ) (ds rows : List (String × ℤ))
    → Guards payer creator vault fee ds amount
    → str_eq vault creator ≡ false
    → All (IsFound ds) rows
    → any (is_stray payer creator vault) rows ≡ false
    → All (IsExplained payer creator vault amount fee) rows
rows-IsExplained payer creator vault fee amount ds [] g differ found calm = tt
rows-IsExplained payer creator vault fee amount ds ((a, d) ∷ rows) g differ (f, found) calm =
    let (here_calm, rest_calm) = no_stray_row payer creator vault (a, d) rows calm in
    (
      row-IsExplained payer creator vault a d fee amount ds g differ f here_calm,
      rows-IsExplained payer creator vault fee amount ds rows g differ found rest_calm,
    )

-- Where the vault is not the creator, an accepted claim has an amount that is positive and fits 64
-- bits, and the balance of every account of the transaction, no two of them the same, changed exactly
-- by what explains it: the creator gained the amount, the vault lost it, the payer paid the fee, and
-- nothing else moved.
pub balances-IsAccounted :
    (meta message : Fields) (accounts : Accounts) (amount : ℕ)
    → str_eq accounts.vault accounts.creator ≡ false
    → balances meta message accounts ≡ ok amount
    → IsAccounted meta message accounts amount
unfolding balances
balances-IsAccounted meta message accounts amount differ e =
    let (keys, keys_of, e1) =
      >>=-eq-ok (array (get "accountKeys" message) "Invalid account keys") _ e in
    let (_, e2) = raise_if-passed (not (leb 1 (length keys) && leb (length keys) 256)) _ _ e1 in
    let (before, before_of, e3) =
      >>=-eq-ok (array (get "preBalances" meta) "Incomplete balance evidence") _ e2 in
    let (after, after_of, e4) =
      >>=-eq-ok (array (get "postBalances" meta) "Incomplete balance evidence") _ e3 in
    let (_, e5) =
      raise_if-passed (not (length before == length keys && length after == length keys)) _ _ e4 in
    let (addresses, listed, e6) = >>=-eq-ok (key_addresses keys) _ e5 in
    let (distinct, e7) = raise_if-passed (has_repeat addresses) _ _ e6 in
    let (_, e8) =
      raise_if-passed (not (all (λ a. any (str_eq a) addresses) (account_list accounts))) _ _ e7 in
    let (_, _, e9) = >>=-eq-ok (first_signed keys) _ e8 in
    let (fee, charged, e10) = >>=-eq-ok (transaction_quantity (get "fee" meta) u64_max) _ e9 in
    let (ds, read, e11) = >>=-eq-ok (deltas addresses before after) _ e10 in
    let (payer, _, e12) = >>=-eq-ok (payer_of addresses) _ e11 in
    let guards = claimed_amount-Guards payer accounts fee ds amount e12 in
    let names = deltas-names addresses before after ds read in
    record {
      keys = keys;
      before = before;
      after = after;
      addresses = addresses;
      payer = payer;
      fee = fee;
      changes = ds;
      of_message = keys_of;
      of_before = before_of;
      of_after = after_of;
      listed = listed;
      distinct = distinct;
      read = read;
      charged = charged;
      range = guards.range;
      explained_all =
          rows-IsExplained payer accounts.creator accounts.vault fee amount ds ds guards differ
            (all-IsFound ds (ap has_repeat names ∙ distinct)) guards.no_stray;
    }
