-- ===== src/Tests/Reconciled.antt =====
-- The reconciliation of a list of two pages.
use slipvolt.Base.{ℕ, zero, suc, ◌≡◌, refl, String, some}
use slipvolt.Base.Int.{pos}
use slipvolt.Base.Result.{Result, ok}
use slipvolt.Value.{Value, Fields, str, int, arr, obj, nil, cons, end, field, get?, get, integer}
use slipvolt.Tests.Holder.{host}
use slipvolt.Broker.{quantity}
use slipvolt.Reconciliation.{
  Reader, Window, Report, Group, category_of, printable, category, day, entry_of, row_entry,
  count_entry, count_rows, whole_number, natural, row_list, pagination_of, place_of, fitting_page,
  checked_page, scan, no_group, reconcile_usage,
}
use slipvolt.Reconciliation.Whole.{IsWhole, reconcile_usage-IsWhole}

abbrev row : String → String → ℕ → Value
row identifier source cost = obj (
    field "id" (str identifier) (
      field "created_at" (str "2025-01-02T00:00:00Z")
        (field "cost_source" (str source) (field "cost_ngonka" (int (pos cost)) end))))

abbrev page_of : ℕ → Value → Fields
page_of page one = field "data" (arr (cons one nil)) (
    field "pagination"
      (obj (
        field "page" (int (pos page)) (
          field "page_size" (int (pos 1))
            (field "total_items" (int (pos 2)) (field "total_pages" (int (pos 2)) end)))))
      end)

abbrev answer : ℕ → Result Fields
answer (suc zero) = ok (page_of 1 (row "a" "devshard_7" 120))
answer page = ok (page_of page (row "b" "escrow_epoch" 5))

abbrev reader : Reader
reader = record { host = host; day_of = λ s. some 20; page = answer }

abbrev window : Window
window = record { first = 10; last = 30; max_pages = 5; page_size = 1 }

abbrev group : ℕ → Group
group cost = record { rows = 1; cost = cost }

abbrev report : Report
report = record {
  pages = 2;
  rows = 2;
  groups = record {
    settled = group 120;
    estimated = no_group;
    adjusted = group 5;
    unbilled = no_group;
    others = no_group;
  };
}

reconcile_usage-report : reconcile_usage reader window ≡ ok report
unfolding reconcile_usage scan checked_page fitting_page place_of pagination_of row_list natural
    count_rows count_entry row_entry entry_of day category printable category_of quantity get get?
    whole_number integer
reconcile_usage-report = refl

reconcile_usage-IsWhole_example : IsWhole reader window report
reconcile_usage-IsWhole_example =
    reconcile_usage-IsWhole reader window report reconcile_usage-report
