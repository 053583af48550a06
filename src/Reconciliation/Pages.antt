-- ===== src/Reconciliation/Pages.antt =====
-- A page of the provider's usage list that was checked, and the counting of its rows.
use mathlib.Core.Path.{subst}
use native.Mathlib.Nat.{div-lt_iff_lt-mul}
use slipvolt.Base.{
  ℕ, zero, suc, ◌+◌, ◌-◌, ◌*◌, ◌/◌, ◌≤◌, ◌<◌, ◌≡◌, ap, ◌∙◌, min, String, true, false, not, ◌&&◌,
  Option, List, [], ◌∷◌, arith, leb, ◌==◌, any, length, str_eq,
}
use slipvolt.Base.Int.{ℤ, pos, negsuc}
use slipvolt.Base.Result.{ok, >>=-eq-ok, raise_if-passed}
use slipvolt.Value.{Value, Fields, int, obj, get}
use slipvolt.Reconciliation.{
  Entry, Window, Reader, Groups, Tally, Page, row_entry, count_entry, count_rows, Place,
  whole_number, natural, place_of, fitting_page, agrees_pages, changed, row_list, pagination_of,
  checked_page,
}

-- The rows that the counters count.
unfoldable pub rows_of : Groups → ℕ
rows_of g = g.settled.rows + g.estimated.rows + g.adjusted.rows + g.unbilled.rows + g.others.rows

count_entry-rows : (e : Entry) (g : Groups) → rows_of (count_entry e g) ≡ suc (rows_of g)
unfolding rows_of count_entry
count_entry-rows e g = grind arith

-- Every row that was counted is one identifier.
abbrev pub IsTallied : Tally → Type 0
IsTallied t = rows_of t.groups ≡ length t.identifiers

pub count_rows-IsTallied :
    (r : Reader) (w : Window) (rows : List Value) (t t' : Tally)
    → IsTallied t
    → count_rows r w rows t ≡ ok t'
    → IsTallied t' × (length t'.identifiers ≡ length rows + length t.identifiers)
unfolding count_rows
count_rows-IsTallied r w [] t t' counted e =
    let same : t ≡ t' = cc in
    subst (λ s. IsTallied s × (length s.identifiers ≡ 0 + length t.identifiers)) same
      (counted, omega arith)
count_rows-IsTallied r w (v ∷ rows) t t' counted e =
    let (entry, _, e1) = >>=-eq-ok (row_entry r w v) _ e in
    let (_, e2) = raise_if-passed (any (str_eq entry.identifier) t.identifiers) _ _ e1 in
    let more = count_entry-rows entry t.groups in
    let (tallied, long) = count_rows-IsTallied r w rows _ t' (omega arith) e2 in
    (tallied, omega arith)

pub pages_enough :
    (size total pages page : ℕ)
    → 1 ≤ size
    → not (agrees_pages size total pages) ≡ false
    → leb pages page ≡ true
    → total ≤ page * size
pages_enough size zero pages page some_size agreed reached = omega arith
pages_enough size (suc n) pages page some_size agreed reached =
    let exact : pages ≡ (suc n + size - 1) / size = ground arith in
    let below : (suc n + size - 1) / size < suc page = ground arith in
    let product : suc n + size - 1 < suc page * size = (div-lt_iff_lt-mul some_size).0 below in
    let next : suc page * size ≡ page * size + size = omega arith in omega arith

-- The rows that the pages before `page` hold.
abbrev pub read_before : Window → ℕ → ℕ → ℕ
read_before w page total = min total ((page - 1) * w.page_size)

-- What a page that was checked says of itself.
abbrev pub Says : Fields → ℕ → Type 0
Says payload total =
    (d : Fields) × (get "pagination" payload ≡ obj d) × (get "total_items" d ≡ int (pos total))

whole_number_eq : (v : Value) (z : ℤ) → whole_number v ≡ ok z → v ≡ int z
unfolding whole_number
whole_number_eq (int y) z e = cc
whole_number_eq v z e = absurd (ground arith)

natural_eq : (z : ℤ) (message : String) (n : ℕ) → natural z message ≡ ok n → z ≡ pos n
unfolding natural
natural_eq (pos m) message n e = cc
natural_eq (negsuc m) message n e = absurd (ground arith)

pagination_of_eq : (v : Value) (d : Fields) → pagination_of v ≡ ok d → v ≡ obj d
unfolding pagination_of
pagination_of_eq (obj c) d e = cc
pagination_of_eq v d e = absurd (ground arith)

-- A page that was checked: its rows, and the totals that it reports.
pub record IsFitting (w : Window) (page : ℕ) (expected : Option (ℕ × ℕ)) (p : Page) : Type 0 where
  pub agreed : not (agrees_pages w.page_size p.total p.pages) ≡ false
  pub kept : changed expected p.total p.pages ≡ false
  pub whole : length p.rows ≡ min w.page_size (p.total - (page - 1) * w.page_size)

place_of-total :
    (d : Fields) (place : Place) → place_of d ≡ ok place → get "total_items" d ≡ int place.total
unfolding place_of
place_of-total d place e =
    let (current, _, e1) = >>=-eq-ok (whole_number (get "page" d)) _ e in
    let (size, _, e2) = >>=-eq-ok (whole_number (get "page_size" d)) _ e1 in
    let (total, et, e3) = >>=-eq-ok (whole_number (get "total_items" d)) _ e2 in
    let (pages, _, e4) = >>=-eq-ok (whole_number (get "total_pages" d)) _ e3 in
    let same : record { current = current; size = size; total = total; pages = pages } ≡ place =
      cc in
    whole_number_eq (get "total_items" d) total et ∙ ap (λ q. int (q.total)) same

fitting_page-IsFitting :
    (w : Window) (page : ℕ) (expected : Option (ℕ × ℕ)) (rows : List Value) (place : Place)
    (p : Page)
    → fitting_page w page expected rows place ≡ ok p
    → (place.total ≡ pos p.total) × IsFitting w page expected p
unfolding fitting_page
fitting_page-IsFitting w page expected rows place p e =
    let (current, _, e1) = >>=-eq-ok (natural place.current _) _ e in
    let (size, _, e2) = >>=-eq-ok (natural place.size _) _ e1 in
    let (total, en, e3) = >>=-eq-ok (natural place.total _) _ e2 in
    let (_, e4) = raise_if-passed (not (current == page && size == w.page_size)) _ _ e3 in
    let (pages, _, e5) = >>=-eq-ok (natural place.pages _) _ e4 in
    let (agreed, e6) = raise_if-passed (not (agrees_pages w.page_size total pages)) _ _ e5 in
    let (kept, e7) = raise_if-passed (changed expected total pages) _ _ e6 in
    let (whole, e8) =
      raise_if-passed (not (length rows == min w.page_size (total - (page - 1) * w.page_size))) _ _
        e7 in
    let same : record { rows = rows; total = total; pages = pages } ≡ p = cc in
    subst (λ q. (place.total ≡ pos q.total) × IsFitting w page expected q) same
      (
        natural_eq place.total _ total en,
        record { agreed = agreed; kept = kept; whole = ground arith },
      )

pub checked_page-IsFitting :
    (w : Window) (page : ℕ) (expected : Option (ℕ × ℕ)) (payload : Fields) (p : Page)
    → checked_page w page expected payload ≡ ok p
    → Says payload p.total × IsFitting w page expected p
unfolding checked_page
checked_page-IsFitting w page expected payload p e =
    let (rows, _, e1) = >>=-eq-ok (row_list (get "data" payload)) _ e in
    let (d, ed, e2) = >>=-eq-ok (pagination_of (get "pagination" payload)) _ e1 in
    let (place, ep, e3) = >>=-eq-ok (place_of d) _ e2 in
    let (total, fitting) = fitting_page-IsFitting w page expected rows place p e3 in
    (
      (
        d,
        pagination_of_eq (get "pagination" payload) d ed,
        place_of-total d place ep ∙ ap Value.int total,
      ),
      fitting,
    )

pub pages_grow : (page size : ℕ) → 1 ≤ page → (suc page - 1) * size ≡ (page - 1) * size + size
pages_grow page size positive =
    let next : suc page - 1 ≡ suc (page - 1) = omega arith in ap (λ n. n * size) next ∙ grind arith
