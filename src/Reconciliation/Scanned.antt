-- ===== src/Reconciliation/Scanned.antt =====
-- A scan that ends well has counted the rows of the pages that it read.
use mathlib.Core.Path.{subst}
use slipvolt.Base.{
  ℕ, zero, suc, ◌+◌, ◌≡◌, refl, sym, ap, ◌∙◌, Bool, true, false, Option, some, List, [], ◌∷◌, ◌++◌,
  arith, ◌⊎◌, inl, inr, leb, length,
}
use slipvolt.Base.Result.{Result, ok, >>=-eq-ok}
use slipvolt.Value.{Value, Fields}
use slipvolt.Reconciliation.Grouped.{
  IsGrouped, IsGrouped-append, count_rows-IsGrouped, checked_page-rows, page_rows, rows_from,
}
use slipvolt.Reconciliation.{
  Window, Reader, Groups, Tally, Page, Report, count_rows, checked_page, scan, no_groups,
}

pub last_or_next :
    (b : Bool) (last : Report) (rest : Result Report) (report : Report)
    → (elim b [ true ↦ ok last | false ↦ rest ]) ≡ ok report
    → ((b ≡ true) × (last ≡ report)) ⊎ ((b ≡ false) × (rest ≡ ok report))
last_or_next true last rest report e = inl (refl, cc)
last_or_next false last rest report e = inr (refl, e)

-- The counters at the end are those before, and the rows of the pages that were read.
abbrev pub AreCounted : Reader → ℕ → Groups → Report → Type 0
AreCounted r page before report =
    (n : ℕ) × (report.pages + 1 ≡ page + n) × IsGrouped (rows_from r page n) before report.groups

page_counted :
    (r : Reader) (w : Window) (page : ℕ) (expected : Option (ℕ × ℕ)) (payload : Fields) (p : Page)
    (t t' : Tally)
    → r.page page ≡ ok payload
    → checked_page w page expected payload ≡ ok p
    → count_rows r w p.rows t ≡ ok t'
    → IsGrouped (page_rows (r.page page)) t.groups t'.groups
page_counted r w page expected payload p t t' read ep et =
    let rows : page_rows (r.page page) ≡ p.rows =
      ap page_rows read ∙ checked_page-rows w page expected payload p ep in
    subst (λ vs. IsGrouped vs t.groups t'.groups) (sym rows)
      (count_rows-IsGrouped r w p.rows t t' et)

append_none : (xs : List Value) → xs ≡ xs ++ []
append_none [] = refl
append_none (x ∷ xs) = ap (λ ys. x ∷ ys) (append_none xs)

counted_here :
    (r : Reader) (page : ℕ) (t t' : Tally) (report : Report)
    → IsGrouped (page_rows (r.page page)) t.groups t'.groups
    → record { pages = page; rows = length t'.identifiers; groups = t'.groups } ≡ report
    → AreCounted r page t.groups report
counted_here r page t t' report grouped same = subst (AreCounted r page t.groups) same (
  1,
  refl,
  subst (λ vs. IsGrouped vs t.groups t'.groups) (append_none (page_rows (r.page page))) grouped,
)

pub scan-AreCounted :
    (r : Reader) (w : Window) (left page : ℕ) (expected : Option (ℕ × ℕ)) (t : Tally)
    (report : Report)
    → scan r w left page expected t ≡ ok report
    → AreCounted r page t.groups report
unfolding scan
scan-AreCounted r w zero page expected t report e = absurd (ground arith)
scan-AreCounted r w (suc left) page expected t report e =
    let (payload, read, e1) = >>=-eq-ok (r.page page) _ e in
    let (p, ep, e2) = >>=-eq-ok (checked_page w page expected payload) _ e1 in
    let (t', et, e3) = >>=-eq-ok (count_rows r w p.rows t) _ e2 in
    let grouped = page_counted r w page expected payload p t t' read ep et in
    elim (last_or_next (leb p.pages page) _ _ report e3) [
      | inl (done, same) ↦ counted_here r page t t' report grouped same
      | inr (goes, rest) ↦
          let (n, many, others) =
            scan-AreCounted r w left (suc page) (some (p.total, p.pages)) t' report rest in
          (
            suc n,
            omega arith,
            IsGrouped-append (page_rows (r.page page)) (rows_from r (suc page) n) t.groups t'.groups
                report.groups grouped others,
          )
    ]

pub counted_from_first :
    (r : Reader) (report : Report)
    → AreCounted r 1 no_groups report
    → IsGrouped (rows_from r 1 report.pages) no_groups report.groups
counted_from_first r report (n, many, grouped) =
    let same : n ≡ report.pages = omega arith in
    subst (λ k. IsGrouped (rows_from r 1 k) no_groups report.groups) same grouped
