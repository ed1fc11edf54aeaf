-- ===== src/Database/Builder/Terminal.antt =====
-- framework/database/builder.go: the methods that send a statement to the database.
use oniworks.Prelude.{
  ℕ, ◌+◌, ◌-◌, ◌*◌, ◌/◌, ◌%◌, ◌^◌, Bool, false, ◌&&◌, Option, none, some, List, [], ◌∷◌, ◌++◌, map,
  if◌then◌else◌, ltb, ◌==◌, nat_eq,
}
use oniworks.Prelude.Text.{Text, text_eq, codes}
use oniworks.Prelude.Dict
use oniworks.Prelude.Dict.{Dict}
use oniworks.Prelude.Sort.{sort_by}
use oniworks.Database.Grammar.{Dialect}
use oniworks.Database.Ident.{quote_column_ref}
use oniworks.Database.Builder.{WhereClause, BuildError, unsafe_pluck, Builder, is_positive}
use oniworks.Database.Builder.Sql.{
  is_nil, normalize_placeholders, build_select, build_count, build_insert, build_update,
  build_delete,
}

pub data Refusal : Type 0 where
  not_built : BuildError → Refusal
  no_where : Refusal

-- What a terminal method does: it returns an error and does not touch the database, or it sends a
-- statement with its arguments.
pub data Call (V : Type 0) : Type 0 where
  refused : Refusal → Call V
  sends : Text → List V → Call V

module _ {V : Type 0} where
  unfoldable pub send : Dialect → Text × List V → Call V
  unfolding normalize_placeholders
  send d (query, args) = sends (normalize_placeholders d query) args

  -- The statement, unless a method of the chain has failed.
  unfoldable pub checked : Option BuildError → Call V → Call V
  checked none c = c
  checked (some e) c = refused (not_built e)

  unfoldable pub first : Builder V → Call V
  unfolding checked send build_select
  first b = checked b.err (send b.dialect (build_select (record b { limit = 1 })))

  unfoldable pub all_rows : Builder V → Call V
  unfolding checked send build_select
  all_rows b = checked b.err (send b.dialect (build_select b))

  unfoldable pub count_rows : Builder V → Call V
  unfolding checked send build_count
  count_rows b = checked b.err (send b.dialect (build_count b))

  pluck_column : Builder V → Text → Option Text → Call V
  unfolding send build_select
  pluck_column b col none = refused (not_built (unsafe_pluck col))
  pluck_column b col (some q) = send b.dialect (build_select (record b { selects = q ∷ [] }))

  unfoldable pub pluck : Text → Builder V → Call V
  unfolding checked pluck_column quote_column_ref
  pluck col b = checked b.err (pluck_column b col (quote_column_ref b.dialect col))

  with_default : Text → V → Dict Text V → Dict Text V
  with_default key now d = elim (Dict.get d key) [ none ↦ Dict.put d key now | some v ↦ d ]

  -- The keys ascend.
  insert_map : V → Dict Text V → Builder V → Call V
  unfolding send build_insert with_default sort_by
  insert_map now values b =
      let all =
        with_default (codes "updated_at") now (with_default (codes "created_at") now values) in
      let sorted = sort_by (λ (p : Text × V). p.0) (Dict.entries all) in
      send b.dialect (
        build_insert b.dialect b.table (map (λ (p : Text × V). p.0) sorted)
          (map (λ (p : Text × V). p.1) sorted))

  -- Save, for the primary key's column and value, and the columns and values of the model.
  save : Text → V → List Text → List V → Builder V → Call V
  unfolding send build_update
  save pk_col pk cols vals b =
      let w : WhereClause V = record {
        clause = pk_col ++ codes " = ?";
        args = pk ∷ [];
        or = false;
      } in
      send b.dialect (build_update b.dialect b.table (b.wheres ++ w ∷ []) cols vals)

  unfoldable pub guarded : Builder V → Call V → Call V
  guarded b c = if is_nil b.wheres && (b.raw_sql == []) then refused no_where else c

  -- Update, in the order in which the map is iterated.
  unfoldable pub update : List (Text × V) → Builder V → Call V
  unfolding checked guarded send build_update
  update values b = checked b.err (
      guarded b (
        send b.dialect (
          build_update b.dialect b.table b.wheres (map (λ (p : Text × V). p.0) values)
            (map (λ (p : Text × V). p.1) values))))

  -- The time is the argument that deleted_at gets.
  unfoldable pub build_delete_stmt : V → Builder V → Text × List V
  unfolding build_update build_delete
  build_delete_stmt now b =
      if b.soft_delete
      then build_update b.dialect b.table b.wheres (codes "deleted_at" ∷ []) (now ∷ [])
      else build_delete b.dialect b.table b.wheres

  unfoldable pub delete : V → Builder V → Call V
  unfolding checked guarded send build_delete_stmt
  delete now b = checked b.err (guarded b (send b.dialect (build_delete_stmt now b)))

  unfoldable pub force_delete : V → Builder V → Call V
  unfolding delete
  force_delete now b = delete now (record b { soft_delete = false })

  unfoldable pub exec : Builder V → Call V
  unfolding send build_delete
  exec b =
      if b.raw_sql == []
      then send b.dialect (build_delete b.dialect b.table b.wheres)
      else send b.dialect (b.raw_sql, b.raw_args)

  unfoldable pub scan : Builder V → Call V
  unfolding checked send build_select
  scan b = checked b.err (
      if b.raw_sql == []
      then send b.dialect (build_select b)
      else send b.dialect (b.raw_sql, b.raw_args))

  -- The builder of the count that Paginate makes.
  pub count_builder : Builder V → Builder V
  count_builder b = record b {
    selects = [];
    order_bys = [];
    limit = 0;
    offset = 0;
    raw_sql = [];
    raw_args = [];
    err = none;
  }

-- a < b, for two ints
abbrev pub int_lt : ℕ → ℕ → Bool
int_lt a b = ltb ((a + 2 ^ 63) % 2 ^ 64) ((b + 2 ^ 63) % 2 ^ 64)

pub record Page : Type 0 where
  pub total : ℕ
  pub per_page : ℕ
  pub current_page : ℕ
  pub last_page : ℕ
  pub from : ℕ
  pub to : ℕ

unfoldable pub at_least_one : ℕ → ℕ
at_least_one n = if is_positive n then n else 1

unfoldable pub per_page_of : ℕ → ℕ
per_page_of n = if is_positive n then n else 15

unfoldable pub last_page_of : ℕ → ℕ → ℕ
last_page_of total per_page =
    let pages = if total % per_page == 0 then total / per_page else total / per_page + 1 in
    if is_positive pages then pages else 1

-- The page that Paginate returns, for a total that is not negative. (page - 1) * perPage wraps.
unfoldable pub page_of : ℕ → ℕ → ℕ → Page
unfolding at_least_one per_page_of last_page_of
page_of page per_page total =
    let n = at_least_one page in
    let size = per_page_of per_page in
    let end = (n * size) % 2 ^ 64 in
    record {
      total = total;
      per_page = size;
      current_page = n;
      last_page = last_page_of total size;
      from = if total == 0 then 0 else ((n - 1) * size + 1) % 2 ^ 64;
      to = if total == 0 then 0 else if int_lt total end then total else end;
    }

-- The two statements that Paginate sends: the count, and the rows of the page.
unfoldable pub paginate : {V : Type 0} → ℕ → ℕ → Builder V → Call V × Call V
unfolding count_builder count_rows all_rows at_least_one per_page_of
paginate page per_page b =
    let n = at_least_one page in
    let size = per_page_of per_page in
    (
      checked b.err (count_rows (count_builder b)),
      all_rows (record b { limit = size; offset = ((n - 1) * size) % 2 ^ 64 }),
    )
