-- ===== src/Tests/JournalTests.antt =====
-- Runs of the diagnostic journal.
use psky.Prelude.{◌≡◌, ◌≤◌, ◌-◌, ◌++◌, [], ◌∷◌, List, length, drop, select, ltb, min, arith}
use psky.Journal.{empty, log_capacity, page}
use psky.Journal.History.{Report, history, push_all, push_all-history}
use psky.Journal.Pages.{push_all-IsValid, page-append, page_bounds}

abbrev report : Report
report = record { now = 7; level = "info"; event = "start"; message = "ready" }

abbrev reports : List Report
reports = report ∷ report ∷ report ∷ []

push_all-history_example :
    ((push_all empty reports).entries ≡ drop (3 - log_capacity) (history 0 reports))
    × ((push_all empty reports).sequence ≡ 3)
push_all-history_example = push_all-history reports

page-append_example :
    (page (push_all empty reports) 1 2).entries
      ++ select
          (λ e. ltb (page (push_all empty reports) 1 2).next_cursor e.sequence)
          (push_all empty reports).entries
    ≡ select (λ e. ltb 1 e.sequence) (push_all empty reports).entries
page-append_example =
    page-append (push_all empty reports) (push_all-IsValid reports) 1 2 (omega arith)

page_bounds_example :
    (length (page (push_all empty reports) 1 2).entries ≤ min 2 log_capacity)
    × ((page (push_all empty reports) 1 2).dropped_before ≡ (push_all-IsValid reports).dropped)
    × ((page (push_all empty reports) 1 2).truncated ≡ ltb 1 (push_all-IsValid reports).dropped)
page_bounds_example = page_bounds (push_all empty reports) (push_all-IsValid reports) 1 2
