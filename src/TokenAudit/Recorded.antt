-- ===== src/TokenAudit/Recorded.antt =====
-- The ledger of burns only grows, and counts a receipt once.
use mathlib.Core.Path.{subst}
use slipvolt.Base.{
  ℕ, ◌+◌, ◌≡◌, refl, sym, ap, ◌∙◌, ◌⊎◌, inl, inr, String, Bool, true, false, ◌&&◌, Option, none,
  some, List, [], ◌∷◌, ◌++◌, arith, if◌then◌else◌, str_eq, eq_iff, any,
}
use slipvolt.Base.Result.{ok, ◌>>=◌, >>=-eq-ok}
use slipvolt.Value.{Fields}
use slipvolt.Db.Sql.{find, select, sum}
use slipvolt.Decimal.RoundTrip.{decimal_value}
use slipvolt.TokenAudit.Ledger.{
  BurnRow, Evidence, has_key, burn_row, checked_evidence, bound, insert_or_ignore, agrees,
  keep_evidence, record_receipt, of_mint, stored_amount,
}

-- The total of `summary`.
abbrev pub total_of : String → List BurnRow → ℕ
total_of mint rows = sum stored_amount (select (of_mint mint) rows)

total_of-snoc :
    (mint : String) (rows : List BurnRow) (row : BurnRow)
    → total_of mint (rows ++ row ∷ [])
      ≡ total_of mint rows + (if of_mint mint row then stored_amount row else 0)
total_of-snoc mint [] row = ground arith
total_of-snoc mint (r ∷ rows) row = ground (arith, total_of-snoc mint rows row)

-- One recording: nothing changes, or the evidence is appended under a key that was free.
abbrev pub IsKept : Evidence → ℕ → List BurnRow → Bool × List BurnRow → Type 0
IsKept e now rows (changed, rows') =
    ((changed ≡ false) × (rows' ≡ rows))
    ⊎ ((changed ≡ true)
        × (rows' ≡ rows ++ burn_row e now ∷ [])
        × (any (has_key e.signature e.mint) rows ≡ false))

insert_or_ignore-IsKept :
    (e : Evidence) (now : ℕ) (rows : List BurnRow)
    → IsKept e now rows (insert_or_ignore (burn_row e now) rows)
unfolding insert_or_ignore
insert_or_ignore-IsKept e now rows = ground arith

agrees-found :
    (text : String) (o : Option BurnRow)
    → agrees text o ≡ ok tt
    → (row : BurnRow) × (o ≡ some row) × (row.evidence ≡ text)
unfolding agrees
agrees-found text none h = cc
agrees-found text (some row) h = (row, refl, ground (arith, eq_iff row.evidence text))

find-any :
    (p : BurnRow → Bool) (rows : List BurnRow) (row : BurnRow)
    → find p rows ≡ some row
    → any p rows ≡ true
find-any p [] row h = cc
find-any p (r ∷ rows) row h = ground (arith, find-any p rows row)

insert_or_ignore-again :
    (e : Evidence) (later : ℕ) (rows : List BurnRow)
    → any (has_key e.signature e.mint) rows ≡ true
    → insert_or_ignore (burn_row e later) rows ≡ (false, rows)
unfolding insert_or_ignore
insert_or_ignore-again e later rows h = ground arith

keep_evidence-parts :
    (e : Evidence) (now : ℕ) (rows rows' : List BurnRow) (changed : Bool)
    → keep_evidence e now rows ≡ ok (changed, rows')
    → (bound e.slot ≡ ok tt)
      × (insert_or_ignore (burn_row e now) rows ≡ (changed, rows'))
      × (agrees e.text (find (has_key e.signature e.mint) rows') ≡ ok tt)
unfolding keep_evidence
keep_evidence-parts e now rows rows' changed h =
    let after = insert_or_ignore (burn_row e now) rows in
    let (one, fits, h1) = >>=-eq-ok (bound e.slot) _ h in
    let (done, f, g) = >>=-eq-ok (agrees e.text (find (has_key e.signature e.mint) after.1)) _ h1 in
    let same : after ≡ (changed, rows') = ground arith in
    (fits, same, ap (λ o. agrees e.text (find (has_key e.signature e.mint) o.1)) (sym same) ∙ f)

keep_evidence-again :
    (e : Evidence) (now later : ℕ) (rows rows' : List BurnRow) (changed : Bool)
    → keep_evidence e now rows ≡ ok (changed, rows')
    → keep_evidence e later rows' ≡ ok (false, rows')
unfolding keep_evidence
keep_evidence-again e now later rows rows' changed h =
    let (fits, _, agreed) = keep_evidence-parts e now rows rows' changed h in
    let (row, found, _) = agrees-found e.text (find (has_key e.signature e.mint) rows') agreed in
    let old =
      insert_or_ignore-again e later rows'
        (find-any (has_key e.signature e.mint) rows' row found) in
    rw (fits, old, agreed) refl

-- What a recording that returns has done: the table grew by at most one row, under a free key, which
-- counts the receipt's amount for its mint alone, and recording the same receipt again changes nothing.
pub record IsRecorded (dumps : Fields → String) (receipt : Fields) (rows rows' : List BurnRow)
    (changed : Bool) : Type 0 where
  pub evidence : Evidence
  pub checked : checked_evidence dumps receipt ≡ ok evidence
  pub grown : (now : ℕ) × IsKept evidence now rows (changed, rows')
  pub stored :
      (row : BurnRow) × (find (has_key evidence.signature evidence.mint) rows' ≡ some row)
      × (row.evidence ≡ dumps receipt)
  pub total :
      (mint : String)
      → total_of mint rows'
        ≡ total_of mint rows + (if changed && str_eq evidence.mint mint then evidence.total else 0)
  pub again : (later : ℕ) → record_receipt dumps receipt later rows' ≡ ok (false, rows')

stored_amount-burn_row : (e : Evidence) (now : ℕ) → stored_amount (burn_row e now) ≡ e.total
stored_amount-burn_row e now = decimal_value e.total

IsKept-total :
    (mint : String) (e : Evidence) (now : ℕ) (rows rows' : List BurnRow) (changed : Bool)
    → IsKept e now rows (changed, rows')
    → total_of mint rows'
      ≡ total_of mint rows + (if changed && str_eq e.mint mint then e.total else 0)
IsKept-total mint e now rows rows' changed (inl (same, old)) = rw (old, same) (omega arith)
IsKept-total mint e now rows rows' changed (inr (same, new, free)) =
    rw (new, same)
      (total_of-snoc mint rows (burn_row e now)
        ∙ ap (λ n. total_of mint rows + (if str_eq e.mint mint then n else 0))
            (stored_amount-burn_row e now))

evidence_text :
    (dumps : Fields → String) (receipt : Fields) (e : Evidence)
    → checked_evidence dumps receipt ≡ ok e
    → e.text ≡ dumps receipt
unfolding checked_evidence
evidence_text dumps receipt e h = ground arith

-- Recording appends at most one row, under a key that was free; the row under the receipt's key
-- then holds the receipt's own text; the mint's burned total grows by the receipt's amount exactly
-- when a row was added, other mints' totals never change; and recording it again is accepted and
-- changes nothing.
pub record_receipt-IsRecorded :
    (dumps : Fields → String) (receipt : Fields) (now : ℕ) (rows rows' : List BurnRow)
    (changed : Bool)
    → record_receipt dumps receipt now rows ≡ ok (changed, rows')
    → IsRecorded dumps receipt rows rows' changed
unfolding record_receipt
record_receipt-IsRecorded dumps receipt now rows rows' changed h =
    let (e, checked, kept) = >>=-eq-ok (checked_evidence dumps receipt) _ h in
    let (_, inserted, agreed) = keep_evidence-parts e now rows rows' changed kept in
    let (row, found, same) = agrees-found e.text (find (has_key e.signature e.mint) rows') agreed in
    let grown : IsKept e now rows (changed, rows') =
      subst (IsKept e now rows) inserted (insert_or_ignore-IsKept e now rows) in
    record {
      evidence = e;
      checked = checked;
      grown = (now, grown);
      stored = (row, found, same ∙ evidence_text dumps receipt e checked);
      total = λ mint. IsKept-total mint e now rows rows' changed grown;
      again = λ later.
          ap (λ r. r >>= λ v. keep_evidence v later rows') checked
          ∙ keep_evidence-again e now later rows rows' changed kept;
    }
