-- ===== src/Examples/Browser.antt =====
-- The theorems on the frontend at concrete inputs.
use stellar_kraal.Common.{
  ltb, ◌==◌, if◌then◌else◌, is_some, length, ℕ, ◌≤◌, ◌≡◌, true, false, not, ◌&&◌, ◌||◌, some, List,
  [], ◌∷◌,
}
use stellar_kraal.Frontend.Filters.{
  Params, Action, set_query, toggle_status, timer_fires, act, open_page, run,
}
use stellar_kraal.Frontend.Filters.Laws.{IsSynced, run-open_page}
use stellar_kraal.Frontend.Pagination.{
  Query, limit_of, total_pages, page_of, set_limit, page_slice, pages, pages_complete,
}
use stellar_kraal.Frontend.Submit.{
  TxStatus, not_found, success, is_not_found, is_success, max_attempts, poll_from,
  submit_signed_xdr, is_done, submit_signed_xdr-polls,
}

abbrev query : Params
query = ("q", "cow") ∷ ("status", "active") ∷ ("status", "repaid") ∷ []

abbrev actions : List Action
actions = toggle_status "active" ∷ set_query "goat" ∷ []

run-open_page_example :
    let s = run actions (open_page query) in
    let s' = act timer_fires s in
    IsSynced s × (is_some s'.pending ≡ false) × ((open_page s'.url).filters ≡ s.filters)
run-open_page_example = run-open_page query actions

abbrev asked : Query
asked = record { raw_page = some 9; raw_limit = some 10 }

abbrev items : List ℕ
items = 1 ∷ 2 ∷ 3 ∷ 4 ∷ 5 ∷ 6 ∷ 7 ∷ 8 ∷ 9 ∷ 10 ∷ 11 ∷ 12 ∷ []

pages_complete_example :
    (1 ≤ page_of 12 asked)
    × (page_of 12 asked ≤ total_pages 12 asked)
    × (length (page_slice asked items) ≤ limit_of asked)
    × (pages (total_pages 12 asked) asked items ≡ items)
    × (page_of 12 (set_limit 25 asked) ≡ 1)
pages_complete_example = pages_complete 25 asked items

abbrev server : ℕ → TxStatus
server n = if ltb n 3 then not_found else success

submit_signed_xdr-polls_example :
    let p = poll_from max_attempts 0 server in
    (p.attempts ≤ 20)
    × (p.status ≡ server p.attempts)
    × (not (is_not_found p.status) || (p.attempts == 20) ≡ true)
    × (ltb 2 p.attempts && not (is_not_found (server 2)) ≡ false)
    × (is_done (submit_signed_xdr (some "abc") server) ≡ is_success p.status)
submit_signed_xdr-polls_example = submit_signed_xdr-polls "abc" 2 server
