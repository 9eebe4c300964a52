-- ===== src/Frontend/Filters.antt =====
-- frontend/src/hooks/useSearchFilter.ts: the filters, the query of the URL, and the debounce.
pub mod Laws
use stellar_kraal.Common.{
  ltb, str_eq, if◌then◌else◌, length, filter_by, any_by, get, zero, suc, ◌+◌, String, ap, Bool,
  true, false, not, ◌||◌, Option, none, some, List, [], ◌∷◌, ◌++◌,
}

pub record FilterState : Type 0 where
  pub query : String
  pub statuses : List String
  pub types : List String
  pub date_from : String
  pub date_to : String

-- `EMPTY`
abbrev pub empty : FilterState
empty = record { query = ""; statuses = []; types = []; date_from = ""; date_to = "" }

-- `URLSearchParams`: keys and values in order; a key may stand more than once.
abbrev pub Params : Type 0
Params = List (String × String)

-- `searchParams.get(k) ?? ''`
unfoldable pub get_param : String → Params → String
get_param k [] = ""
get_param k ((j, v) ∷ ps) = if str_eq j k then v else get_param k ps

unfoldable pub get_all : String → Params → List String
get_all k [] = []
get_all k ((j, v) ∷ ps) = let rest = get_all k ps in if str_eq j k then v ∷ rest else rest

abbrev pub set_if : String → String → Params
set_if k v = if str_eq v "" then [] else (k, v) ∷ []

abbrev pub append_all : String → List String → Params
append_all k [] = []
append_all k (v ∷ vs) = (k, v) ∷ append_all k vs

-- `apply` of `syncUrl`, up to the text of the query.
unfoldable pub to_params : FilterState → Params
to_params f =
    let dates = set_if "dateFrom" f.date_from ++ set_if "dateTo" f.date_to in
    set_if "q" f.query ++ (append_all "status" f.statuses ++ (append_all "type" f.types ++ dates))

-- The initial state of a page that is opened with the query.
unfoldable pub from_params : Params → FilterState
from_params ps = record {
  query = get_param "q" ps;
  statuses = get_all "status" ps;
  types = get_all "type" ps;
  date_from = get_param "dateFrom" ps;
  date_to = get_param "dateTo" ps;
}

unfoldable pub toggle : String → List String → List String
toggle x xs =
    if any_by (λ y. str_eq y x) xs then filter_by (λ y. not (str_eq y x)) xs else xs ++ x ∷ []

unfoldable pub has_active_filters : FilterState → Bool
has_active_filters f =
    not (str_eq f.query "")
    || ltb 0 (length f.statuses)
    || ltb 0 (length f.types)
    || not (str_eq f.date_from "")
    || not (str_eq f.date_to "")

-- The hook's state, the URL's query, and the filters that the debounce timer will write.
pub record Search : Type 0 where
  pub filters : FilterState
  pub url : Params
  pub pending : Option FilterState

unfoldable pub sync_url : Bool → FilterState → Search → Search
unfolding to_params
sync_url true next s = record { filters = next; url = to_params next; pending = none }
sync_url false next s = record { filters = next; url = s.url; pending = some next }

pub data Action : Type 0 where
  set_query toggle_status toggle_type set_date_from set_date_to : String → Action
  clear_all timer_fires : Action

unfoldable pub act : Action → Search → Search
unfolding sync_url toggle
act (set_query q) s = sync_url false (record s.filters { query = q }) s
act (toggle_status x) s =
    sync_url true (record s.filters { statuses = toggle x s.filters.statuses }) s
act (toggle_type x) s = sync_url true (record s.filters { types = toggle x s.filters.types }) s
act (set_date_from d) s = sync_url true (record s.filters { date_from = d }) s
act (set_date_to d) s = sync_url true (record s.filters { date_to = d }) s
act clear_all s = sync_url true empty s
act timer_fires s = elim s.pending [
  | none ↦ s
  | some next ↦ record s { url = to_params next; pending = none }
]

-- `useSearchFilter()` on a page with that query.
unfoldable pub open_page : Params → Search
unfolding from_params
open_page ps = record { filters = from_params ps; url = ps; pending = none }

abbrev pub run : List Action → Search → Search
run [] s = s
run (a ∷ more) s = run more (act a s)
