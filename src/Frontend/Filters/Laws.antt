-- ===== src/Frontend/Filters/Laws.antt =====
-- frontend/src/hooks/useSearchFilter.ts: the filters and the URL.
use stellar_kraal.Common.{
  str_eq, str_eq_iff, str_eq_refl, Bool-cases, is_some, String, ◌≡◌, refl, sym, ap, ◌∙◌, Bool, true,
  false, Option, none, some, List, [], ◌∷◌, ◌++◌, arith, append-nil,
}
use stellar_kraal.Frontend.Filters.{
  clear_all, timer_fires, set_query, toggle_status, toggle_type, set_date_from, set_date_to, empty,
  run, open_page, Action, sync_url, act, FilterState, to_params, from_params, Search, Params,
  get_param, get_all, set_if, append_all,
}

module _ (k : String) (ps : Params) where
  get_param_self : (v : String) → get_param k ps ≡ "" → get_param k (set_if k v ++ ps) ≡ v
  unfolding get_param
  get_param_self v e = ground (arith, e, str_eq_iff v "", str_eq_refl k)

  get_param_other :
      (j v : String) → str_eq j k ≡ false → get_param k (set_if j v ++ ps) ≡ get_param k ps
  unfolding get_param
  get_param_other j v e = ground (arith, e, Bool-cases (str_eq v ""))

  get_all_other : (j v : String) → str_eq j k ≡ false → get_all k (set_if j v ++ ps) ≡ get_all k ps
  unfolding get_all
  get_all_other j v e = ground (arith, e, Bool-cases (str_eq v ""))

  get_param-append_all :
      (j : String) (vs : List String)
      → str_eq j k ≡ false
      → get_param k (append_all j vs ++ ps) ≡ get_param k ps
  unfolding get_param
  get_param-append_all j [] e = refl
  get_param-append_all j (v ∷ vs) e = ground (arith, e, get_param-append_all j vs e)

  get_all-append_all :
      (j : String) (vs : List String)
      → str_eq j k ≡ false
      → get_all k (append_all j vs ++ ps) ≡ get_all k ps
  unfolding get_all
  get_all-append_all j [] e = refl
  get_all-append_all j (v ∷ vs) e = ground (arith, e, get_all-append_all j vs e)

  get_all_self : (vs : List String) → get_all k (append_all k vs ++ ps) ≡ vs ++ get_all k ps
  unfolding get_all
  get_all_self [] = refl
  get_all_self (v ∷ vs) = ground (arith, str_eq_refl k, get_all_self vs)

from_params-query : (f : FilterState) → get_param "q" (to_params f) ≡ f.query
unfolding to_params
from_params-query f = get_param_self "q" _ f.query (
    get_param-append_all "q" _ "status" f.statuses refl
    ∙ get_param-append_all "q" _ "type" f.types refl
    ∙ get_param_other "q" (set_if "dateTo" f.date_to) "dateFrom" f.date_from refl
    ∙ ap (get_param "q") (sym (append-nil (set_if "dateTo" f.date_to)))
    ∙ get_param_other "q" [] "dateTo" f.date_to refl
    ∙ unfold get_param in refl)

from_params-date_from : (f : FilterState) → get_param "dateFrom" (to_params f) ≡ f.date_from
unfolding to_params
from_params-date_from f =
    get_param_other "dateFrom" _ "q" f.query refl
    ∙ get_param-append_all "dateFrom" _ "status" f.statuses refl
    ∙ get_param-append_all "dateFrom" _ "type" f.types refl
    ∙ get_param_self "dateFrom" (set_if "dateTo" f.date_to) f.date_from (
        ap (get_param "dateFrom") (sym (append-nil (set_if "dateTo" f.date_to)))
        ∙ get_param_other "dateFrom" [] "dateTo" f.date_to refl
        ∙ unfold get_param in refl)

from_params-date_to : (f : FilterState) → get_param "dateTo" (to_params f) ≡ f.date_to
unfolding to_params
from_params-date_to f =
    get_param_other "dateTo" _ "q" f.query refl
    ∙ get_param-append_all "dateTo" _ "status" f.statuses refl
    ∙ get_param-append_all "dateTo" _ "type" f.types refl
    ∙ get_param_other "dateTo" (set_if "dateTo" f.date_to) "dateFrom" f.date_from refl
    ∙ ap (get_param "dateTo") (sym (append-nil (set_if "dateTo" f.date_to)))
    ∙ get_param_self "dateTo" [] f.date_to (unfold get_param in refl)

-- The dates bring no further value of a repeated key.
get_all_dates :
    (k a b : String)
    → str_eq "dateFrom" k ≡ false
    → str_eq "dateTo" k ≡ false
    → get_all k (set_if "dateFrom" a ++ set_if "dateTo" b) ≡ []
get_all_dates k a b from to =
    get_all_other k (set_if "dateTo" b) "dateFrom" a from
    ∙ ap (get_all k) (sym (append-nil (set_if "dateTo" b)))
    ∙ get_all_other k [] "dateTo" b to
    ∙ unfold get_all in refl

from_params-statuses : (f : FilterState) → get_all "status" (to_params f) ≡ f.statuses
unfolding to_params
from_params-statuses f =
    get_all_other "status" _ "q" f.query refl
    ∙ get_all_self "status" _ f.statuses
    ∙ ap (λ xs. f.statuses ++ xs)
        (get_all-append_all "status" _ "type" f.types refl
          ∙ get_all_dates "status" f.date_from f.date_to refl refl)
    ∙ append-nil f.statuses

from_params-types : (f : FilterState) → get_all "type" (to_params f) ≡ f.types
unfolding to_params
from_params-types f =
    get_all_other "type" _ "q" f.query refl
    ∙ get_all-append_all "type" _ "status" f.statuses refl
    ∙ get_all_self "type" _ f.types
    ∙ ap (λ xs. f.types ++ xs) (get_all_dates "type" f.date_from f.date_to refl refl)
    ∙ append-nil f.types

-- The query that the filters are written to is read back as those filters, whatever they hold.
pub from_params-to_params : (f : FilterState) → from_params (to_params f) ≡ f
unfolding from_params
from_params-to_params f = λ i. record {
  query = from_params-query f i;
  statuses = from_params-statuses f i;
  types = from_params-types f i;
  date_from = from_params-date_from f i;
  date_to = from_params-date_to f i;
}

-- What the URL, or the write that waits, has to do with the filters.
abbrev pub IsSynced : Search → Type 0
IsSynced s = elim s.pending [ none ↦ from_params s.url ≡ s.filters | some next ↦ next ≡ s.filters ]

sync_url-IsSynced : (now : Bool) (next : FilterState) (s : Search) → IsSynced (sync_url now next s)
unfolding sync_url
sync_url-IsSynced true next s = from_params-to_params next
sync_url-IsSynced false next s = refl

act-IsSynced : (a : Action) (s : Search) → IsSynced s → IsSynced (act a s)
unfolding act
act-IsSynced (set_query q) s h = sync_url-IsSynced false (record s.filters { query = q }) s
act-IsSynced (toggle_status x) s h = sync_url-IsSynced true _ s
act-IsSynced (toggle_type x) s h = sync_url-IsSynced true _ s
act-IsSynced (set_date_from d) s h = sync_url-IsSynced true _ s
act-IsSynced (set_date_to d) s h = sync_url-IsSynced true _ s
act-IsSynced clear_all s h = sync_url-IsSynced true empty s
act-IsSynced timer_fires s h = fires s.filters s.url s.pending h
  where
    fires :
        (f : FilterState) (url : Params) (p : Option FilterState)
        → IsSynced (record { filters = f; url = url; pending = p })
        → IsSynced (act timer_fires (record { filters = f; url = url; pending = p }))
    fires f url none h = h
    fires f url (some next) h = from_params-to_params next ∙ h

run-IsSynced : (more : List Action) (s : Search) → IsSynced s → IsSynced (run more s)
run-IsSynced [] s h = h
run-IsSynced (a ∷ more) s h = run-IsSynced more (act a s) (act-IsSynced a s h)

-- A page that is opened with any query, after any actions: the filters are read back from the URL as
-- they are, unless a change of the text waits for its timer, which holds the filters then. Once the
-- timer fires, nothing waits, and opening the page anew with its URL restores exactly its filters.
pub run-open_page :
    (ps : Params) (more : List Action)
    → let s = run more (open_page ps) in
      let s' = act timer_fires s in
      IsSynced s × (is_some s'.pending ≡ false) × ((open_page s'.url).filters ≡ s.filters)
unfolding open_page act
run-open_page ps more =
    let s = run more (open_page ps) in
    let synced = run-IsSynced more (open_page ps) refl in
    (synced, settled s.filters s.url s.pending, read_back s.filters s.url s.pending synced)
  where
    settled :
        (f : FilterState) (url : Params) (p : Option FilterState)
        → is_some (act timer_fires (record { filters = f; url = url; pending = p })).pending ≡ false
    settled f url none = refl
    settled f url (some next) = refl

    read_back :
        (f : FilterState) (url : Params) (p : Option FilterState)
        → IsSynced (record { filters = f; url = url; pending = p })
        → from_params (act timer_fires (record { filters = f; url = url; pending = p })).url ≡ f
    read_back f url none h = h
    read_back f url (some next) h = from_params-to_params next ∙ h
