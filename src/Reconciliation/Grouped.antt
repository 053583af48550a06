-- ===== src/Reconciliation/Grouped.antt =====
-- The counters of a reconciliation are those of the pages' rows, category by category.
use mathlib.Core.Path.{subst}
use text.Mathlib.Text.{starts_with}
use slipvolt.Base.{
  ℕ, zero, suc, ◌+◌, ◌≡◌, sym, ap, ◌∙◌, String, Bool, not, ◌&&◌, ◌||◌, ◌==◌, Option, List, [], ◌∷◌,
  ◌++◌, arith, leb, if◌then◌else◌, str_eq, any, length, min, ◌-◌, ◌*◌,
}
use slipvolt.Base.Result.{Result, ok, err, >>=-eq-ok, raise_if-passed}
use slipvolt.Value.{Value, Fields, str, arr, obj, get}
use slipvolt.Db.Sql.{sum, count, sum-append, count-append}
use slipvolt.Broker.{quantity}
use slipvolt.TokenAudit.Listed.{fields_of, items_of}
use slipvolt.Host.{Host, len}
use slipvolt.Reconciliation.{
  Category, Entry, Window, Reader, Group, Groups, Tally, Page, Place, category_of, category,
  printable, day, entry_of, row_entry, count_entry, count_rows, is_unbilled, natural, place_of,
  fitting_page, agrees_pages, changed, row_list, pagination_of, checked_page,
}

-- An unchecked reading of a row: its cost source, and its cost.
abbrev pub text_of : Value → String
text_of (str s) = s
text_of v = ""

abbrev pub or_zero : Result ℕ → ℕ
or_zero (ok n) = n
or_zero (err e) = 0

abbrev pub source_in : Value → String
source_in v = text_of (get "cost_source" (fields_of v))

abbrev pub cost_in : Value → ℕ
cost_in v = or_zero (quantity (get "cost_ngonka" (fields_of v)))

-- The five kinds of cost sources.
abbrev pub is_settled : String → Bool
is_settled s = starts_with s "devshard_"

abbrev pub is_estimated : String → Bool
is_estimated s = not (is_settled s) && starts_with s "estimated_"

abbrev pub is_adjusted : String → Bool
is_adjusted s = not (is_settled s || is_estimated s) && str_eq s "escrow_epoch"

abbrev pub is_free : String → Bool
is_free s = not (is_settled s || is_estimated s || is_adjusted s) && str_eq s "fallback_unbilled"

abbrev pub is_other : String → Bool
is_other s = not (is_settled s || is_estimated s || is_adjusted s || is_free s)

-- From one counter to the next: the rows of the kind, and their costs.
abbrev pub Adds : (String → Bool) → List Value → Group → Group → Type 0
Adds kind rows before after =
    (after.rows ≡ before.rows + count (λ v. kind (source_in v)) rows)
    × (after.cost ≡ before.cost + sum (λ v. if kind (source_in v) then cost_in v else 0) rows)

pub record IsGrouped (rows : List Value) (before after : Groups) : Type 0 where
  pub settled : Adds is_settled rows before.settled after.settled
  pub estimated : Adds is_estimated rows before.estimated after.estimated
  pub adjusted : Adds is_adjusted rows before.adjusted after.adjusted
  pub unbilled : Adds is_free rows before.unbilled after.unbilled
  pub others : Adds is_other rows before.others after.others

Adds-none : (kind : String → Bool) (g : Group) → Adds kind [] g g
Adds-none kind g = (omega arith, omega arith)

IsGrouped-none : (g : Groups) → IsGrouped [] g g
IsGrouped-none g = record {
  settled = Adds-none is_settled g.settled;
  estimated = Adds-none is_estimated g.estimated;
  adjusted = Adds-none is_adjusted g.adjusted;
  unbilled = Adds-none is_free g.unbilled;
  others = Adds-none is_other g.others;
}

Adds-append :
    (kind : String → Bool) (rows more : List Value) (g h k : Group)
    → Adds kind rows g h
    → Adds kind more h k
    → Adds kind (rows ++ more) g k
Adds-append kind rows more g h k (n, c) (m, d) = (
  omega (arith, count-append (λ v. kind (source_in v)) rows more, n, m),
  omega (arith, sum-append (λ v. if kind (source_in v) then cost_in v else 0) rows more, c, d),
)

pub IsGrouped-append :
    (rows more : List Value) (g h k : Groups)
    → IsGrouped rows g h
    → IsGrouped more h k
    → IsGrouped (rows ++ more) g k
IsGrouped-append rows more g h k a b = record {
  settled = Adds-append is_settled rows more g.settled h.settled k.settled a.settled b.settled;
  estimated =
      Adds-append is_estimated rows more g.estimated h.estimated k.estimated a.estimated
        b.estimated;
  adjusted =
      Adds-append is_adjusted rows more g.adjusted h.adjusted k.adjusted a.adjusted b.adjusted;
  unbilled = Adds-append is_free rows more g.unbilled h.unbilled k.unbilled a.unbilled b.unbilled;
  others = Adds-append is_other rows more g.others h.others k.others a.others b.others;
}

printable_text :
    (host : Host) (v : Value) (n : ℕ) (m s : String) → printable host v n m ≡ ok s → text_of v ≡ s
unfolding printable
printable_text host (str t) n m s e =
    let (_, e1) =
      raise_if-passed (not (leb 1 (len t) && leb (len t) n) || not (host.is_printable t)) m (ok t)
        e in
    cc
printable_text host v n m s e = absurd (ground arith)

category_source :
    (host : Host) (v : Value) (k : Category) → category host v ≡ ok k → category_of (text_of v) ≡ k
unfolding category
category_source host v k e =
    let (s, es, e1) = >>=-eq-ok (printable host v 100 "Invalid provider cost source") _ e in
    let same : category_of s ≡ k = cc in
    ap category_of (printable_text host v 100 "Invalid provider cost source" s es) ∙ same

entry_of_read :
    (r : Reader) (w : Window) (d : Fields) (e : Entry)
    → entry_of r w d ≡ ok e
    → (category_of (source_in (obj d)) ≡ e.category) × (cost_in (obj d) ≡ e.cost)
unfolding entry_of
entry_of_read r w d e h =
    let (identifier, _, h1) =
      >>=-eq-ok (printable r.host (get "id" d) 200 "Invalid provider usage identifier") _ h in
    let (observed, _, h2) = >>=-eq-ok (day r.day_of (get "created_at" d)) _ h1 in
    let (_, h3) = raise_if-passed (not (leb w.first observed && leb observed w.last)) _ _ h2 in
    let (kind, ek, h4) = >>=-eq-ok (category r.host (get "cost_source" d)) _ h3 in
    let (cost, ec, h5) = >>=-eq-ok (quantity (get "cost_ngonka" d)) _ h4 in
    let (_, h6) = raise_if-passed (is_unbilled kind && not (cost == 0)) _ _ h5 in
    let same : (record { identifier = identifier; category = kind; cost = cost }) ≡ e = cc in
    (
      category_source r.host (get "cost_source" d) kind ek ∙ ap (λ x. x.category) same,
      ap or_zero ec ∙ ap (λ x. x.cost) same,
    )

row_entry_read :
    (r : Reader) (w : Window) (v : Value) (e : Entry)
    → row_entry r w v ≡ ok e
    → (category_of (source_in v) ≡ e.category) × (cost_in v ≡ e.cost)
unfolding row_entry
row_entry_read r w (obj d) e h = entry_of_read r w d e h
row_entry_read r w v e h = absurd (ground arith)

count_entry-IsGrouped :
    (v : Value) (e : Entry) (g : Groups)
    → category_of (source_in v) ≡ e.category
    → cost_in v ≡ e.cost
    → IsGrouped (v ∷ []) g (count_entry e g)
unfolding count_entry category_of
count_entry-IsGrouped v e g kind cost = record {
  settled = (grind arith, grind arith);
  estimated = (grind arith, grind arith);
  adjusted = (grind arith, grind arith);
  unbilled = (grind arith, grind arith);
  others = (grind arith, grind arith);
}

pub count_rows-IsGrouped :
    (r : Reader) (w : Window) (rows : List Value) (t t' : Tally)
    → count_rows r w rows t ≡ ok t'
    → IsGrouped rows t.groups t'.groups
unfolding count_rows
count_rows-IsGrouped r w [] t t' e =
    let same : t ≡ t' = cc in
    subst (λ x. IsGrouped [] t.groups x.groups) same (IsGrouped-none t.groups)
count_rows-IsGrouped r w (v ∷ rows) t t' e =
    let (entry, er, e1) = >>=-eq-ok (row_entry r w v) _ e in
    let (_, e2) = raise_if-passed (any (str_eq entry.identifier) t.identifiers) _ _ e1 in
    let (kind, cost) = row_entry_read r w v entry er in
    IsGrouped-append (v ∷ []) rows t.groups (count_entry entry t.groups) t'.groups
      (count_entry-IsGrouped v entry t.groups kind cost) (count_rows-IsGrouped r w rows _ t' e2)

-- The rows of a page, and of the pages from one on.
abbrev pub page_rows : Result Fields → List Value
page_rows (ok payload) = items_of (get "data" payload)
page_rows (err e) = []

abbrev pub rows_from : Reader → ℕ → ℕ → List Value
rows_from r page zero = []
rows_from r page (suc n) = page_rows (r.page page) ++ rows_from r (suc page) n

row_list_items : (v : Value) (rows : List Value) → row_list v ≡ ok rows → items_of v ≡ rows
unfolding row_list
row_list_items (arr vs) rows e = cc
row_list_items v rows e = absurd (ground arith)

fitting_page-rows :
    (w : Window) (page : ℕ) (expected : Option (ℕ × ℕ)) (rows : List Value) (place : Place)
    (p : Page)
    → fitting_page w page expected rows place ≡ ok p
    → p.rows ≡ rows
unfolding fitting_page
fitting_page-rows w page expected rows place p e =
    let (current, _, e1) = >>=-eq-ok (natural place.current _) _ e in
    let (size, _, e2) = >>=-eq-ok (natural place.size _) _ e1 in
    let (total, _, e3) = >>=-eq-ok (natural place.total _) _ e2 in
    let (_, e4) = raise_if-passed (not (current == page && size == w.page_size)) _ _ e3 in
    let (pages, _, e5) = >>=-eq-ok (natural place.pages _) _ e4 in
    let (_, e6) = raise_if-passed (not (agrees_pages w.page_size total pages)) _ _ e5 in
    let (_, e7) = raise_if-passed (changed expected total pages) _ _ e6 in
    let (_, e8) =
      raise_if-passed (not (length rows == min w.page_size (total - (page - 1) * w.page_size))) _ _
        e7 in
    let same : record { rows = rows; total = total; pages = pages } ≡ p = cc in
    ap (λ q. q.rows) (sym same)

pub checked_page-rows :
    (w : Window) (page : ℕ) (expected : Option (ℕ × ℕ)) (payload : Fields) (p : Page)
    → checked_page w page expected payload ≡ ok p
    → items_of (get "data" payload) ≡ p.rows
unfolding checked_page
checked_page-rows w page expected payload p e =
    let (rows, er, e1) = >>=-eq-ok (row_list (get "data" payload)) _ e in
    let (d, _, e2) = >>=-eq-ok (pagination_of (get "pagination" payload)) _ e1 in
    let (place, _, e3) = >>=-eq-ok (place_of d) _ e2 in
    row_list_items (get "data" payload) rows er
    ∙ sym (fitting_page-rows w page expected rows place p e3)
