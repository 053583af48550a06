-- ===== src/Reconciliation.antt =====
-- The reconciliation with the provider's usage list (gridraft/provider_reconciliation.py). A date is the
-- number of its day; the reading of a page and of an ISO timestamp are arguments.
pub mod Pages
pub mod Grouped
pub mod Scanned
pub mod Whole
use text.Mathlib.Text.{starts_with}
use slipvolt.Base.{
  ℕ, zero, suc, ◌+◌, ◌-◌, ◌*◌, ◌/◌, min, String, Bool, true, false, not, ◌&&◌, ◌||◌, Option, none,
  some, List, [], ◌∷◌, ltb, leb, ◌==◌, if◌then◌else◌, str_eq, any, length,
}
use slipvolt.Base.Int.{ℤ, pos, negsuc}
use slipvolt.Base.Result.{Result, ok, err, value_error, ◌>>=◌, ◌>>◌, raise_if, or_raise}
use slipvolt.Value.{Value, Fields, int, str, arr, obj, get, items}
use slipvolt.Host.{Host, len}
use slipvolt.Broker.{quantity}

-- CATEGORIES
pub data Category : Type 0 where
  provider_settled_requests estimated_requests epoch_adjustments fallback_unbilled other : Category

unfoldable pub category_of : String → Category
category_of source =
    if starts_with source "devshard_"
    then Category.provider_settled_requests
    else if starts_with source "estimated_"
    then Category.estimated_requests
    else if str_eq source "escrow_epoch"
    then Category.epoch_adjustments
    else if str_eq source "fallback_unbilled"
    then Category.fallback_unbilled
    else Category.other

-- A printable text of 1 to `maximum` characters, else the error.
unfoldable pub printable : Host → Value → ℕ → String → Result String
printable host (str s) maximum message = do
  raise_if (not (leb 1 (len s) && leb (len s) maximum) || not (host.is_printable s)) message
  ok s
printable host _ maximum message = err (value_error message)

-- `_category(source)`
unfoldable pub category : Host → Value → Result Category
category host source = do
  s ← printable host source 100 "Invalid provider cost source"
  ok (category_of s)

abbrev pub is_unbilled : Category → Bool
is_unbilled Category.fallback_unbilled = true
is_unbilled _ = false

-- The day of the timestamp; `day_of` is `datetime.fromisoformat` in UTC, none where it raises.
unfoldable pub day : (String → Option ℕ) → Value → Result ℕ
day day_of (str s) = do
  raise_if (ltb 64 (len s)) "Invalid provider usage timestamp"
  or_raise (day_of s) "Invalid provider usage timestamp"
day day_of _ = err (value_error "Invalid provider usage timestamp")

pub record Entry : Type 0 where
  pub identifier : String
  pub category : Category
  pub cost : ℕ

-- The dates and the sizes of a run.
pub record Window : Type 0 where
  pub first : ℕ
  pub last : ℕ
  pub max_pages : ℕ
  pub page_size : ℕ

-- What a row needs of its surroundings.
pub record Reader : Type 0 where
  pub host : Host
  pub day_of : String → Option ℕ
  pub page : ℕ → Result Fields

unfoldable pub entry_of : Reader → Window → Fields → Result Entry
entry_of r w d = do
  identifier ← printable r.host (get "id" d) 200 "Invalid provider usage identifier"
  observed ← day r.day_of (get "created_at" d)
  raise_if (not (leb w.first observed && leb observed w.last))
      "Provider usage row is outside the requested window"
  kind ← category r.host (get "cost_source" d)
  cost ← quantity (get "cost_ngonka" d)
  raise_if (is_unbilled kind && not (cost == 0)) "Inconsistent unbilled provider row"
  ok (record { identifier = identifier; category = kind; cost = cost })

-- `_row(row, start, end)`
unfoldable pub row_entry : Reader → Window → Value → Result Entry
row_entry r w (obj d) = entry_of r w d
row_entry r w _ = err (value_error "Invalid provider usage row")

-- A category's counters, and all of them.
pub record Group : Type 0 where
  pub rows : ℕ
  pub cost : ℕ

pub record Groups : Type 0 where
  pub settled : Group
  pub estimated : Group
  pub adjusted : Group
  pub unbilled : Group
  pub others : Group

abbrev pub count_in : ℕ → Group → Group
count_in cost g = record { rows = suc g.rows; cost = g.cost + cost }

-- `categories[category]['rows'] += 1` and the cost
unfoldable pub count_entry : Entry → Groups → Groups
count_entry e g = elim e.category [
  | Category.provider_settled_requests ↦ record g { settled = count_in e.cost g.settled }
  | Category.estimated_requests ↦ record g { estimated = count_in e.cost g.estimated }
  | Category.epoch_adjustments ↦ record g { adjusted = count_in e.cost g.adjusted }
  | Category.fallback_unbilled ↦ record g { unbilled = count_in e.cost g.unbilled }
  | Category.other ↦ record g { others = count_in e.cost g.others }
]

-- The identifiers that were seen, and the counters.
pub record Tally : Type 0 where
  pub identifiers : List String
  pub groups : Groups

-- The loop over the rows of a page.
unfoldable pub count_rows : Reader → Window → List Value → Tally → Result Tally
count_rows r w [] t = ok t
count_rows r w (v ∷ rows) t = do
  e ← row_entry r w v
  raise_if (any (str_eq e.identifier) t.identifiers) "Duplicate provider usage identifier"
  count_rows r w rows
      (record { identifiers = e.identifier ∷ t.identifiers; groups = count_entry e t.groups })

-- `type(value) is int`
unfoldable pub whole_number : Value → Result ℤ
whole_number (int z) = ok z
whole_number _ = err (value_error "Invalid provider pagination")

-- A number that is not negative: the tests below refuse the others.
unfoldable pub natural : ℤ → String → Result ℕ
natural (pos n) message = ok n
natural (negsuc n) message = err (value_error message)

-- `pages in ((0, 1) if total == 0 else (calculated_pages,))`
abbrev pub agrees_pages : ℕ → ℕ → ℕ → Bool
agrees_pages page_size total pages =
    if total == 0 then leb pages 1 else pages == (total + page_size - 1) / page_size

-- `expected is not None and (total, pages) != expected`
abbrev pub changed : Option (ℕ × ℕ) → ℕ → ℕ → Bool
changed none total pages = false
changed (some (t, p)) total pages = not (total == t && pages == p)

unfoldable pub row_list : Value → Result (List Value)
row_list (arr rows) = ok (items rows)
row_list _ = err (value_error "Invalid provider pagination")

unfoldable pub pagination_of : Value → Result Fields
pagination_of (obj d) = ok d
pagination_of _ = err (value_error "Invalid provider pagination")

-- A checked page: its rows, and the totals that it reports.
pub record Page : Type 0 where
  pub rows : List Value
  pub total : ℕ
  pub pages : ℕ

-- What a page says of its place.
pub record Place : Type 0 where
  pub current : ℤ
  pub size : ℤ
  pub total : ℤ
  pub pages : ℤ

unfoldable pub place_of : Fields → Result Place
place_of pagination = do
  current ← whole_number (get "page" pagination)
  size ← whole_number (get "page_size" pagination)
  total ← whole_number (get "total_items" pagination)
  pages ← whole_number (get "total_pages" pagination)
  ok (record { current = current; size = size; total = total; pages = pages })

unfoldable pub fitting_page : Window → ℕ → Option (ℕ × ℕ) → List Value → Place → Result Page
fitting_page w page expected rows place = do
  current ← natural place.current "Invalid provider pagination"
  size ← natural place.size "Invalid provider pagination"
  total ← natural place.total "Invalid provider pagination"
  raise_if (not (current == page && size == w.page_size)) "Invalid provider pagination"
  pages ← natural place.pages "Inconsistent provider pagination"
  raise_if (not (agrees_pages w.page_size total pages)) "Inconsistent provider pagination"
  raise_if (changed expected total pages) "Provider pagination changed during the scan"
  raise_if (not (length rows == min w.page_size (total - (page - 1) * w.page_size)))
      "Incomplete provider page"
  ok (record { rows = rows; total = total; pages = pages })

unfoldable pub checked_page : Window → ℕ → Option (ℕ × ℕ) → Fields → Result Page
checked_page w page expected payload = do
  rows ← row_list (get "data" payload)
  pagination ← pagination_of (get "pagination" payload)
  place ← place_of pagination
  fitting_page w page expected rows place

pub record Report : Type 0 where
  pub pages : ℕ
  pub rows : ℕ
  pub groups : Groups

-- The loop over the pages, with the number of pages that are left.
unfoldable pub scan : Reader → Window → ℕ → ℕ → Option (ℕ × ℕ) → Tally → Result Report
scan r w zero page expected t = err (value_error "Provider usage exceeds the configured page limit")
scan r w (suc left) page expected t = do
  payload ← r.page page
  p ← checked_page w page expected payload
  t' ← count_rows r w p.rows t
  elim (leb p.pages page) [
    | true ↦ ok (record { pages = page; rows = length t'.identifiers; groups = t'.groups })
    | false ↦ scan r w left (suc page) (some (p.total, p.pages)) t'
  ]

abbrev pub no_group : Group
no_group = record { rows = 0; cost = 0 }

abbrev pub no_groups : Groups
no_groups = record {
  settled = no_group;
  estimated = no_group;
  adjusted = no_group;
  unbilled = no_group;
  others = no_group;
}

-- `reconcile_usage(broker, start, end, max_pages, page_size)`
unfoldable pub reconcile_usage : Reader → Window → Result Report
reconcile_usage r w = do
  raise_if (not (leb w.first w.last && ltb (w.last - w.first) 90))
      "Choose a UTC date window of at most 90 days"
  raise_if (not (leb 1 w.max_pages && leb w.max_pages 25)) "Invalid provider page limit"
  raise_if (not (leb 1 w.page_size && leb w.page_size 200)) "Invalid provider page size"
  scan r w w.max_pages 1 none (record { identifiers = []; groups = no_groups })
