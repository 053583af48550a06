-- ===== src/Reconciliation/Whole.antt =====
-- A scan of the provider's usage list that ends well has read the whole list that its pages report.
use mathlib.Core.Path.{subst}
use slipvolt.Base.{
  ℕ, zero, suc, ◌+◌, ◌-◌, ◌*◌, ◌≤◌, ◌<◌, ◌≡◌, refl, sym, ap, ◌∙◌, true, false, not, ◌&&◌, Option,
  none, some, [], arith, ◌⊎◌, inl, inr, ltb, leb, length,
}
use slipvolt.Base.Result.{ok, >>=-eq-ok, raise_if-passed}
use slipvolt.Value.{Fields}
use slipvolt.Reconciliation.Grouped.{IsGrouped, rows_from}
use slipvolt.Reconciliation.Scanned.{last_or_next, scan-AreCounted, counted_from_first}
use slipvolt.Reconciliation.Pages.{
  rows_of, IsTallied, count_rows-IsTallied, pages_enough, read_before, Says, IsFitting,
  checked_page-IsFitting, pages_grow,
}
use slipvolt.Reconciliation.{
  Window, Reader, Tally, Page, Report, count_rows, changed, checked_page, scan, no_groups,
  reconcile_usage,
}

-- How many identifiers are known before `page`.
abbrev IsOnTrack : Window → ℕ → Option (ℕ × ℕ) → ℕ → Type 0
IsOnTrack w page none seen = (seen ≡ 0) × (page ≡ 1)
IsOnTrack w page (some (total, pages)) seen = (seen ≡ read_before w page total) × (1 ≤ page)

step_on_track :
    (w : Window) (page : ℕ) (expected : Option (ℕ × ℕ)) (p : Page) (seen : ℕ)
    → IsFitting w page expected p
    → IsOnTrack w page expected seen
    → (length p.rows + seen ≡ read_before w (suc page) p.total) × (1 ≤ page)
step_on_track w page none p seen c (nothing, first) =
    let one : (page - 1) * w.page_size ≡ 0 = ground arith in
    let next = pages_grow page w.page_size (omega arith) in
    let whole = c.whole in (omega arith, omega arith)
step_on_track w page (some (total, pages)) p seen c (known, positive) =
    let same : p.total ≡ total = (let k = c.kept in ground arith) in
    let next = pages_grow page w.page_size positive in
    let whole = c.whole in (ground arith, positive)

-- The pages from `page` on say that the list has `total` rows.
abbrev pub SaysFrom : Reader → ℕ → ℕ → ℕ → Type 0
SaysFrom r page last total =
    (k : ℕ)
    → page ≤ k
    → k ≤ last
    → (payload : Fields) × (r.page k ≡ ok payload) × Says payload total

abbrev KeepsTotal : Option (ℕ × ℕ) → ℕ → Type 0
KeepsTotal none rows = Unit
KeepsTotal (some (total, pages)) rows = rows ≡ total

kept_total :
    (expected : Option (ℕ × ℕ)) (total pages : ℕ)
    → changed expected total pages ≡ false
    → KeepsTotal expected total
kept_total none total pages h = tt
kept_total (some (t, p)) total pages h = ground arith

-- What a scan that ends well has read from `page` on.
record IsScanned (r : Reader) (page left : ℕ) (expected : Option (ℕ × ℕ)) (report : Report)
    : Type 0 where
  said : SaysFrom r page report.pages report.rows
  kept : KeepsTotal expected report.rows
  counted : rows_of report.groups ≡ report.rows
  bounded : (page ≤ report.pages) × (report.pages < page + left)

first_or_later : (page k : ℕ) → page ≤ k → (k ≡ page) ⊎ (suc page ≤ k)
first_or_later page k h = ground arith

says_from :
    (r : Reader) (page last total : ℕ) (payload : Fields)
    → r.page page ≡ ok payload
    → Says payload total
    → SaysFrom r (suc page) last total
    → SaysFrom r page last total
says_from r page last total payload read says later k from upto =
    elim (first_or_later page k from) [
      | inl same ↦ (payload, ap r.page same ∙ read, says)
      | inr next ↦ later k next upto
    ]

IsScanned-last :
    (r : Reader) (w : Window) (left page : ℕ) (expected : Option (ℕ × ℕ)) (payload : Fields)
    (p : Page) (t : Tally) (report : Report)
    → 1 ≤ w.page_size
    → r.page page ≡ ok payload
    → Says payload p.total
    → IsFitting w page expected p
    → IsTallied t
    → length t.identifiers ≡ read_before w (suc page) p.total
    → 1 ≤ page
    → KeepsTotal expected p.total
    → leb p.pages page ≡ true
    → record { pages = page; rows = length t.identifiers; groups = t.groups } ≡ report
    → IsScanned r page (suc left) expected report
IsScanned-last r w left page expected payload p t report size read says fitting counted seen
      positive known done same =
    let enough = pages_enough w.page_size p.total p.pages page size fitting.agreed done in
    let next = pages_grow page w.page_size positive in
    let product : page * w.page_size ≡ (page - 1) * w.page_size + w.page_size =
      (let before : page ≡ suc (page - 1) = omega arith in
        ap (λ n. n * w.page_size) before ∙ grind arith) in
    let all : p.total ≡ length t.identifiers = omega arith in
    subst (IsScanned r page (suc left) expected) same (record {
      said =
          says_from r page page (length t.identifiers) payload read (subst (Says payload) all says)
            (λ k from upto. absurd (omega arith));
      kept = subst (KeepsTotal expected) all known;
      counted = counted;
      bounded = (omega arith, omega arith);
    })

IsScanned-next :
    (r : Reader) (page left : ℕ) (expected : Option (ℕ × ℕ)) (payload : Fields) (p : Page)
    (report : Report)
    → r.page page ≡ ok payload
    → Says payload p.total
    → KeepsTotal expected p.total
    → IsScanned r (suc page) left (some (p.total, p.pages)) report
    → IsScanned r page (suc left) expected report
IsScanned-next r page left expected payload p report read says known later =
    let all : p.total ≡ report.rows = sym later.kept in
    let (from, upto) = later.bounded in
    record {
      said =
          says_from r page report.pages report.rows payload read (subst (Says payload) all says)
            later.said;
      kept = subst (KeepsTotal expected) all known;
      counted = later.counted;
      bounded = (omega arith, omega arith);
    }

scan-IsScanned :
    (r : Reader) (w : Window) (left page : ℕ) (expected : Option (ℕ × ℕ)) (t : Tally)
    (report : Report)
    → 1 ≤ w.page_size
    → IsTallied t
    → IsOnTrack w page expected (length t.identifiers)
    → scan r w left page expected t ≡ ok report
    → IsScanned r page left expected report
unfolding scan
scan-IsScanned r w zero page expected t report size tallied track e = absurd (ground arith)
scan-IsScanned r w (suc left) page expected t report size tallied track e =
    let (payload, read, e1) = >>=-eq-ok (r.page page) _ e in
    let (p, ep, e2) = >>=-eq-ok (checked_page w page expected payload) _ e1 in
    let (t', et, e3) = >>=-eq-ok (count_rows r w p.rows t) _ e2 in
    let (says, fitting) = checked_page-IsFitting w page expected payload p ep in
    let (counted, grown) = count_rows-IsTallied r w p.rows t t' tallied et in
    let (seen, positive) = step_on_track w page expected p (length t.identifiers) fitting track in
    let known = kept_total expected p.total p.pages fitting.kept in
    elim (last_or_next (leb p.pages page) _ _ report e3) [
      | inl (done, same) ↦
          IsScanned-last r w left page expected payload p t' report size read says fitting counted
            (grown ∙ seen) positive known done same
      | inr (goes, rest) ↦ IsScanned-next r page left expected payload p report read says known (
          scan-IsScanned r w left (suc page) (some (p.total, p.pages)) t' report size counted
            (grown ∙ seen, omega arith) rest)
    ]

-- A report that counts the whole list: every page from the first to the last says that the list has
-- as many rows as the report, and the counters are those of the rows on these pages.
abbrev pub IsWhole : Reader → Window → Report → Type 0
IsWhole r w report =
    SaysFrom r 1 report.pages report.rows
    × (rows_of report.groups ≡ report.rows)
    × IsGrouped (rows_from r 1 report.pages) no_groups report.groups
    × (1 ≤ report.pages)
    × (report.pages ≤ w.max_pages)
    × (w.last - w.first < 90)

-- Whatever the provider answers, a report that is returned counts the whole list: each page from the
-- first to the last one read says that the list has as many rows as the report counts; each of the five
-- categories counts the rows of these pages whose cost source is of its kind, and adds up their costs;
-- no more pages were read than allowed, and the window has at most 90 days.
pub reconcile_usage-IsWhole :
    (r : Reader) (w : Window) (report : Report)
    → reconcile_usage r w ≡ ok report
    → IsWhole r w report
unfolding reconcile_usage rows_of
reconcile_usage-IsWhole r w report e =
    let (window, e1) =
      raise_if-passed (not (leb w.first w.last && ltb (w.last - w.first) 90)) _ _ e in
    let (pages, e2) = raise_if-passed (not (leb 1 w.max_pages && leb w.max_pages 25)) _ _ e1 in
    let (size, e3) = raise_if-passed (not (leb 1 w.page_size && leb w.page_size 200)) _ _ e2 in
    let scanned =
      scan-IsScanned r w w.max_pages 1 none (record { identifiers = []; groups = no_groups }) report
        (ground arith) refl (refl, refl) e3 in
    let (from, upto) = scanned.bounded in
    let grouped = counted_from_first r report (
      scan-AreCounted r w w.max_pages 1 none (record { identifiers = []; groups = no_groups })
        report e3) in
    (scanned.said, scanned.counted, grouped, from, omega arith, ground arith)
