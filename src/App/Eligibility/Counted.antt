-- ===== src/App/Eligibility/Counted.antt =====
-- The holding that decides is the sum of the wallet's initialized accounts, each counted once.
use mathlib.Core.Path.{subst}
use package.text.Mathlib.TextPositions.{eq_refl}
use slipvolt.Base.{
  ℕ, ◌+◌, ◌≤◌, ◌≡◌, refl, sym, ap, ◌∙◌, inl, inr, String, true, false, none, some, List, [], ◌∷◌,
  arith, if◌then◌else◌, str_eq, eq_iff, any, All, leb, ltb, map, length, Bool-cases,
}
use slipvolt.Base.Result.{Result, ok, >>=-eq-ok, raise_if-passed, Result-cases}
use slipvolt.Value.{Value, Fields, Items, null, str, arr, obj, get, items}
use slipvolt.Burn.{u64_max}
use slipvolt.Broker.{is_text}
use slipvolt.Address.{decode_address}
use slipvolt.Usage.{item}
use slipvolt.Db.Sql.{sum}
use slipvolt.TokenAudit.{object, text, labelled_integer}
use slipvolt.TokenAudit.Listed.{object_fields}
use slipvolt.TokenAudit.Summed.{number_of, raw_amount_number}
use slipvolt.App.Http.{granted}
use slipvolt.App.Eligibility.{
  Site, Standing, entry, lookup, check_holder, account_amount, account_info, counted_amount,
  fresh_address, token_total, listed_accounts, holding_of, finalized_holding, verified_network,
  standing_of, without_lookup, eligibility,
}

-- An independent reading of a token account: a missing member is null.
abbrev pub at : String → Value → Value
at key (obj d) = get key d
at key v = null

abbrev pub info_of : Value → Value
info_of account = at "info" (at "parsed" (at "data" account))

abbrev pub held_in : Value → ℕ
held_in account =
    if is_text "initialized" (at "state" (info_of account))
    then number_of (at "amount" (at "tokenAmount" (info_of account)))
    else 0

-- What an entry of the answer holds.
abbrev pub held_by : Value → ℕ
held_by v = held_in (at "account" v)

-- The entry is an account of the wallet for the token.
abbrev pub IsHeld : Site → String → Value → Type 0
IsHeld site wallet v =
    (is_text site.holder_mint (at "mint" (info_of (at "account" v))) ≡ true)
    × (is_text wallet (at "owner" (info_of (at "account" v))) ≡ true)

abbrev pub address_in : Value → String
address_in (str s) = s
address_in v = ""

abbrev pub address_of : Value → String
address_of v = address_in (at "pubkey" v)

-- No address stands twice.
abbrev pub AreDistinct : List String → Type 0
AreDistinct [] = Unit
AreDistinct (a ∷ later) = (any (str_eq a) later ≡ false) × AreDistinct later

entry-at : (key : String) (v x : Value) → entry key v ≡ ok x → at key v ≡ x
unfolding entry get
entry-at key (obj d) x e = ground arith
entry-at key v x e = ground arith

lookup-at : (key : String) (v x : Value) → lookup key v ≡ ok x → at key v ≡ x
unfolding lookup
lookup-at key (obj d) x e = ground arith
lookup-at key v x e = ground arith

account_info-at : (account info : Value) → account_info account ≡ ok info → info_of account ≡ info
unfolding account_info
account_info-at account info e =
    let (owner, _, e1) = >>=-eq-ok (entry "owner" account) _ e in
    let (_, e2) = raise_if-passed _ _ _ e1 in
    let (held, f, e3) = >>=-eq-ok (entry "data" account) _ e2 in
    let (parsed, g, e4) = >>=-eq-ok (entry "parsed" held) _ e3 in
    ap (λ v. at "info" (at "parsed" v)) (entry-at "data" account held f)
    ∙ ap (at "info") (entry-at "parsed" held parsed g)
    ∙ entry-at "info" parsed info e4

check_holder-at :
    (site : Site) (wallet : String) (info : Value)
    → check_holder site wallet info ≡ ok tt
    → (is_text site.holder_mint (at "mint" info) ≡ true) × (is_text wallet (at "owner" info) ≡ true)
unfolding check_holder
check_holder-at site wallet info e =
    let (mint, f, e1) = >>=-eq-ok (entry "mint" info) _ e in
    let (owner, g, e2) = >>=-eq-ok (entry "owner" info) _ e1 in
    let mint_at = entry-at "mint" info mint f in
    let owner_at = entry-at "owner" info owner g in
    (
      ap (is_text site.holder_mint) mint_at ∙ ground arith,
      ap (is_text wallet) owner_at ∙ ground arith,
    )

account_amount-at :
    (site : Site) (info : Value) (n : ℕ)
    → account_amount site info ≡ ok n
    → n ≡ number_of (at "amount" (at "tokenAmount" info))
unfolding account_amount
account_amount-at site info n e =
    let (token, f, e1) = >>=-eq-ok (entry "tokenAmount" info) _ e in
    let (amount, g, e2) = >>=-eq-ok (entry "amount" token) _ e1 in
    let (decimals, _, e3) = >>=-eq-ok (lookup "decimals" token) _ e2 in
    let (_, e4) = raise_if-passed _ _ _ e3 in
    raw_amount_number amount false n e4
    ∙ ap number_of (sym (entry-at "amount" token amount g))
    ∙ ap (λ v. number_of (at "amount" v)) (sym (entry-at "tokenAmount" info token f))

counted_amount-at :
    (site : Site) (wallet : String) (account : Value) (n : ℕ)
    → counted_amount site wallet account ≡ ok n
    → (n ≡ held_in account)
      × (is_text site.holder_mint (at "mint" (info_of account)) ≡ true)
      × (is_text wallet (at "owner" (info_of account)) ≡ true)
unfolding counted_amount
counted_amount-at site wallet account n e =
    let (info, f, e1) = >>=-eq-ok (account_info account) _ e in
    let (_, held, e2) = >>=-eq-ok (check_holder site wallet info) _ e1 in
    let (raw, g, e3) = >>=-eq-ok (account_amount site info) _ e2 in
    let (state, s, e4) = >>=-eq-ok (lookup "state" info) _ e3 in
    let same = account_info-at account info f in
    let checks = check_holder-at site wallet info held in
    let amount = account_amount-at site info raw g in
    let state_at = lookup-at "state" info state s in
    rw same (ground (arith, amount, state_at), checks.0, checks.1)

text_in : (v : Value) (a : String) → text v "Invalid Solana address" ≡ ok a → address_in v ≡ a
unfolding text
text_in (str s) a e = ground arith
text_in v a e = ground arith

fresh_address-of :
    (seen : List String) (v : Value) (a : String)
    → fresh_address seen v ≡ ok a
    → (address_of v ≡ a) × (any (str_eq a) seen ≡ false)
unfolding fresh_address
fresh_address-of seen v a e =
    let (named, f, e1) = >>=-eq-ok (entry "pubkey" v) _ e in
    let (raw, _, e2) = >>=-eq-ok (decode_address named) _ e1 in
    let (address, g, e3) = >>=-eq-ok (text named "Invalid Solana address") _ e2 in
    let (free, last) = raise_if-passed (any (str_eq address) seen) _ _ e3 in
    let same : address ≡ a = ground arith in
    (
      ap address_in (entry-at "pubkey" v named f) ∙ text_in named address g ∙ same,
      ap (λ s. any (str_eq s) seen) (sym same) ∙ free,
    )

-- Each address is new to the ones before it.
abbrev IsFresh : List String → List Value → Type 0
IsFresh seen [] = Unit
IsFresh seen (v ∷ vs) =
    (any (str_eq (address_of v)) seen ≡ false) × IsFresh (address_of v ∷ seen) vs

still_absent :
    (a : String) (seen : List String) (vs : List Value)
    → any (str_eq a) seen ≡ true
    → IsFresh seen vs
    → any (str_eq a) (map address_of vs) ≡ false
still_absent a seen [] known h = refl
still_absent a seen (v ∷ vs) known (new, rest) =
    let others = still_absent a (address_of v ∷ seen) vs (ground arith) rest in
    elim (Bool-cases (str_eq a (address_of v))) [
      | inl same ↦
          let twice : any (str_eq (address_of v)) seen ≡ true =
            ap (λ s. any (str_eq s) seen) (sym ((eq_iff a (address_of v)).0 same)) ∙ known in
          absurd (ground arith)
      | inr other ↦ ground (arith, others)
    ]

distinct_of_fresh :
    (seen : List String) (vs : List Value) → IsFresh seen vs → AreDistinct (map address_of vs)
distinct_of_fresh seen [] h = tt
distinct_of_fresh seen (v ∷ vs) (new, rest) = (
  still_absent (address_of v) (address_of v ∷ seen) vs (ground (arith, eq_refl (address_of v)))
      rest,
  distinct_of_fresh (address_of v ∷ seen) vs rest,
)

token_total_counts :
    (site : Site) (wallet : String) (seen : List String) (total last : ℕ) (accounts : List Value)
    → total ≤ u64_max
    → token_total site wallet seen total accounts ≡ ok last
    → (last ≡ total + sum held_by accounts)
      × (last ≤ u64_max)
      × All (IsHeld site wallet) accounts
      × IsFresh seen accounts
unfolding token_total
token_total_counts site wallet seen total last [] small e =
    let same : total ≡ last = ground arith in
    (omega (arith, same), omega (arith, same, small), tt, tt)
token_total_counts site wallet seen total last (v ∷ accounts) small e =
    let (address, f, e1) = >>=-eq-ok (fresh_address seen v) _ e in
    let (account, g, e2) = >>=-eq-ok (entry "account" v) _ e1 in
    let (amount, h, e3) = >>=-eq-ok (counted_amount site wallet account) _ e2 in
    let (bounded, e4) = raise_if-passed (ltb u64_max (total + amount)) _ _ e3 in
    let (named, new) = fresh_address-of seen v address f in
    let account_at = entry-at "account" v account g in
    let (counted, of_mint, of_wallet) = counted_amount-at site wallet account amount h in
    let (sums, in_range, held, fresh) =
      token_total_counts site wallet (address ∷ seen) (total + amount) last accounts (ground arith)
        e4 in
    let one : amount ≡ held_by v = counted ∙ ap (λ a. held_in a) (sym account_at) in
    (
      omega (arith, sums, one),
      in_range,
      (
        (
          ap (λ a. is_text site.holder_mint (at "mint" (info_of a))) account_at ∙ of_mint,
          ap (λ a. is_text wallet (at "owner" (info_of a))) account_at ∙ of_wallet,
        ),
        held,
      ),
      (
        ap (λ s. any (str_eq s) seen) named ∙ new,
        subst (λ s. IsFresh (s ∷ seen) accounts) (sym named) fresh,
      ),
    )

-- What a standing that was looked up says of the RPC's answer: its list of accounts, all of it.
pub record IsCounted (site : Site) (wallet : String) (answer : Result Value) (standing : Standing)
    : Type 0 where
  pub said : Fields
  pub answered : answer ≡ ok (obj said)
  pub listed : Items
  pub given : get "value" said ≡ arr listed
  pub of_wallet : All (IsHeld site wallet) (items listed)
  pub distinct : AreDistinct (map address_of (items listed))
  pub total : standing.holding ≡ some (sum held_by (items listed))
  pub range : sum held_by (items listed) ≤ u64_max
  pub decided : standing.eligible ≡ leb site.min_holding_raw (sum held_by (items listed))

listed_accounts-items :
    (v : Value) (accounts : List Value)
    → listed_accounts v ≡ ok accounts
    → (listed : Items) × (v ≡ arr listed) × (accounts ≡ items listed)
unfolding listed_accounts
listed_accounts-items (arr vs) accounts e =
    let (_, e1) = raise_if-passed (ltb 10000 (length (items vs))) _ _ e in (vs, refl, cc)
listed_accounts-items v accounts e = absurd (ground arith)

holding_counts :
    (site : Site) (wallet : String) (d : Fields) (total slot : ℕ)
    → holding_of site wallet d ≡ ok (total, slot)
    → IsCounted site wallet (ok (obj d)) (standing_of site (total, slot))
unfolding holding_of
holding_counts site wallet d total slot e =
    let (accounts, l, e1) = >>=-eq-ok (listed_accounts (get "value" d)) _ e in
    let (context, _, e2) = >>=-eq-ok (item "context" d) _ e1 in
    let (found, _, e3) = >>=-eq-ok (entry "slot" context) _ e2 in
    let (at_slot, _, e4) = >>=-eq-ok (labelled_integer found "finalized slot" 1 u64_max) _ e3 in
    let (last, f, e5) = >>=-eq-ok (token_total site wallet [] 0 accounts) _ e4 in
    let (listed, given, all) = listed_accounts-items (get "value" d) accounts l in
    let (sums, in_range, held, fresh) =
      token_total_counts site wallet [] 0 last (items listed) (omega arith)
        (ap (token_total site wallet [] 0) (sym all) ∙ f) in
    let same : last ≡ total = ground arith in
    let is : total ≡ sum held_by (items listed) = omega (arith, same, sums) in
    record {
      said = d;
      answered = refl;
      listed = listed;
      given = given;
      of_wallet = held;
      distinct = distinct_of_fresh [] (items listed) fresh;
      total = ap some is;
      range = omega (arith, in_range, same, is);
      decided = ap (leb site.min_holding_raw) is;
    }

finalized_holding_counts :
    (site : Site) (wallet : String) (mainnet : Result (Unit {0})) (answer : Result Value)
    (found : ℕ × ℕ)
    → finalized_holding site wallet mainnet answer ≡ ok found
    → IsCounted site wallet answer (standing_of site found)
unfolding finalized_holding
finalized_holding_counts site wallet mainnet answer found e =
    let (_, _, e1) = >>=-eq-ok (verified_network site.production mainnet) _ e in
    let (result, came, e2) = >>=-eq-ok answer _ e1 in
    let (d, f, e3) = >>=-eq-ok (object result "token accounts") _ e2 in
    subst (λ a. IsCounted site wallet a (standing_of site found))
      (sym (came ∙ ap ok (object_fields result "token accounts" d f)))
      (holding_counts site wallet d found.0 found.1 e3)

-- Where a holding is asked for, a standing that is given rests on the whole list of accounts in the
-- RPC's answer: each is an account of the wallet and the token, no address stands twice, the holding is
-- the sum of the initialized ones, within 64 bits, and the wallet is eligible exactly if that sum
-- reaches the threshold.
pub eligibility-IsCounted :
    (site : Site) (wallet : String) (mainnet : Result (Unit {0})) (answer : Result Value)
    (standing : Standing)
    → without_lookup site ≡ none
    → eligibility site wallet mainnet answer ≡ granted standing
    → IsCounted site wallet answer standing
unfolding eligibility
eligibility-IsCounted site wallet mainnet answer standing asked e =
    elim (Result-cases (finalized_holding site wallet mainnet answer)) [
      | inl (found, f) ↦
          let same : standing_of site found ≡ standing = ground (arith, asked, f) in
          subst (IsCounted site wallet answer) same
            (finalized_holding_counts site wallet mainnet answer found f)
      | inr (x, f) ↦ absurd (ground (arith, asked, f))
    ]
