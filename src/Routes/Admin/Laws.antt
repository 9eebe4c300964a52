-- ===== src/Routes/Admin/Laws.antt =====
-- backend/src/index.ts: what GET /api/v1/collateral counts, and which queries of the audit log pass.
use stellar_kraal.Common.{
  ltb, str_eq, if◌then◌else◌, Bool-cases, Option-cases, length, filter_by, length-filter_by-le, ℕ,
  ◌≤◌, String, ◌≡◌, refl, inl, inr, Bool, true, false, not, ◌||◌, Option, none, some, List, arith,
}
use stellar_kraal.Http.{User, Reply, reply, refuse}
use stellar_kraal.Store.Records.{CollateralRecord, Store}
use stellar_kraal.Store.Paging.{truthy, given}
use stellar_kraal.Store.Pages.{list_collateral_bounds}
use stellar_kraal.Store.Collateral.{CollateralFilters, list_collateral}
use stellar_kraal.Routes.Admin.{
  CollateralQuery, of_type, listing, is_admin_user, AuditQuery, exceeds_range, is_invalid,
  check_audit_query,
}

-- A refusal, and what is left when it is not one.
next_check :
    {A : Type 0} (b : Bool) (code : ℕ) (e : String) (rest : Reply A) (a : A)
    → (if b then refuse code e else rest) ≡ reply 200 a
    → (b ≡ false) × (rest ≡ reply 200 a)
next_check true code e rest a h = cc
next_check false code e rest a h = (refl, h)

abbrev pub IsPassed : Option User → AuditQuery → ℕ × ℕ → Type 0
IsPassed user q (page, limit) =
    (is_admin_user user ≡ true)
    × (1 ≤ page)
    × (1 ≤ limit)
    × (limit ≤ 100)
    × (exceeds_range q.from q.to ≡ false)
    × (is_invalid q.from ≡ false)
    × (is_invalid q.to ≡ false)

-- A query of the audit log that passes comes from an administrator, asks for a page of at most 100
-- entries, and for no more than 90 days where it gives both bounds.
pub check_audit_query-IsPassed :
    (user : Option User) (q : AuditQuery) (page limit : ℕ)
    → check_audit_query user q ≡ reply 200 (page, limit)
    → IsPassed user q (page, limit)
unfolding check_audit_query
check_audit_query-IsPassed user q page limit h =
    let admin = next_check (not (is_admin_user user)) 403 _ _ _ h in
    elim (Option-cases (given q.page (some 1))) [
      | inl e ↦ ground (arith, admin, e)
      | inr (p, e) ↦
          let paged = next_check (ltb p 1) 400 _ _ _ (rw e at admin.1) in
          elim (Option-cases (given q.limit (some 20))) [
            | inl f ↦ ground (arith, paged, f)
            | inr (n, f) ↦
                let limited = next_check (ltb n 1 || ltb 100 n) 400 _ _ _ (rw f at paged.1) in
                let begins = next_check (is_invalid q.from) 400 _ _ _ limited.1 in
                let ends = next_check (is_invalid q.to) 400 _ _ _ begins.1 in
                let ranged = next_check (exceeds_range q.from q.to) 400 _ _ _ ends.1 in
                let same : (p ≡ page) × (n ≡ limit) = ground (arith, ranged.1) in
                (
                  ground (arith, admin.0, Bool-cases (is_admin_user user)),
                  ground (arith, paged.0, same),
                  ground (arith, limited.0, same),
                  ground (arith, limited.0, same),
                  ranged.0,
                  begins.0,
                  ends.0,
                )
          ]
    ]

abbrev asked : ℕ → ℕ → CollateralQuery → CollateralFilters
asked page size q = record {
  page = some page;
  limit = some size;
  status = none;
  owner_id = q.owner;
}

of_type-some :
    (animal_type : Option String) (t : String) (rows : List CollateralRecord)
    → truthy animal_type ≡ some t
    → of_type animal_type rows ≡ filter_by (λ r. str_eq r.animal_type t) rows
of_type-some animal_type t rows e = rw (of_type, e) refl

listing_of_type :
    (page size : ℕ) (q : CollateralQuery) (t : String) (s : Store)
    → truthy q.animal_type ≡ some t
    → let result = list_collateral (asked page size q) s in
      let rows = filter_by (λ (r : CollateralRecord). str_eq r.animal_type t) result.rows in
      listing page size q s
      ≡ record { rows = rows; total = length rows; page = result.page; page_size = result.limit }
unfolding listing
listing_of_type page size q t s e = rw (listing, e, of_type-some q.animal_type t _ e) refl

-- A listing for one kind of animal counts the animals of that kind on the page that it shows: its total
-- is the number of its rows, never more than the page size, and at most 100, however many there are.
pub listing-total :
    (page size : ℕ) (q : CollateralQuery) (t : String) (s : Store)
    → truthy q.animal_type ≡ some t
    → let l = listing page size q s in
      (l.total ≡ length l.rows) × (l.total ≤ l.page_size) × (l.page_size ≤ 100)
listing-total page size q t s e =
    let bounds = list_collateral_bounds (asked page size q) s in
    rw (listing_of_type page size q t s e) (
      refl,
      omega (
        arith,
        bounds,
        length-filter_by-le (λ (r : CollateralRecord). str_eq r.animal_type t)
            (list_collateral (asked page size q) s).rows,
      ),
      bounds.1,
    )
