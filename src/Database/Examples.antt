-- ===== src/Database/Examples.antt =====
-- framework/database: the theorems on queries of a table of users.
use oniworks.Prelude.{
  true, ℕ, ◌+◌, ◌≤◌, ◌<◌, ◌≡◌, ◌↔◌, refl, inr, false, none, some, [], ◌∷◌, ◌++◌, arith, length,
}
use oniworks.Prelude.Text.{Text, codes, split}
use oniworks.Prelude.Text.Ascii.{fields, trim_space}
use oniworks.Database.Grammar.{postgres, mysql, quote_byte, quote_ident}
use oniworks.Database.Grammar.Quote.{read_ident, read_ident-quote_ident}
use oniworks.Database.Ident.{sanitize_order_by}
use oniworks.Database.Ident.Plain.{IsPlain}
use oniworks.Database.Ident.Safe.{sanitize_order_by-IsPlain}
use oniworks.Database.Builder.{Builder, BuildError, new_builder, order_by}
use oniworks.Database.Builder.Sql.{build_select, normalize_placeholders}
use oniworks.Database.Builder.Terminal.{
  Refusal, first, pluck, scan, paginate, force_delete, page_of, refused, sends, not_built, update,
  delete, exec, all_rows, count_rows,
}
use oniworks.Database.Builder.Marks.{marks}
use oniworks.Database.Builder.Balanced.{IsBalanced, marks-build_select}
use oniworks.Database.Builder.Numbered.{number_parts, normalize_placeholders_lem}
use oniworks.Database.Builder.Pages.{page_of_lem}
use oniworks.Database.Builder.Guards.{HasWhere, guarded-HasWhere, exec_lem, order_by-refused}

read_ident-quote_ident_example :
    (t : Text) × (quote_ident postgres (codes "a\"b") ++ codes " IS NULL" ≡ quote_byte postgres ∷ t)
    × (read_ident (quote_byte postgres) t ≡ some (codes "a\"b", codes " IS NULL"))
read_ident-quote_ident_example =
    read_ident-quote_ident postgres (codes "a\"b") (codes " IS NULL") refl

abbrev ordered : Text
ordered = codes "\"users\".\"name\" DESC NULLS LAST, \"id\""

order_clause : sanitize_order_by postgres (codes "users.name desc nulls last, id") ≡ some ordered
unfolding sanitize_order_by split fields trim_space quote_ident
order_clause = refl

sanitize_order_by-IsPlain_example : IsPlain postgres ordered
sanitize_order_by-IsPlain_example =
    sanitize_order_by-IsPlain postgres (codes "users.name desc nulls last, id") ordered order_clause

abbrev filtered : Builder ℕ
filtered = record (new_builder mysql (codes "users")) {
  wheres = record { clause = codes "age > ?"; args = 18 ∷ []; or = false } ∷ [];
}

filtered-IsBalanced : IsBalanced filtered
unfolding new_builder
filtered-IsBalanced = record {
  table = refl;
  selects = refl;
  joins = refl;
  wheres = (refl, tt);
  group_bys = refl;
  having = refl;
  order_bys = refl;
  raw_sql = refl;
}

marks-build_select_example : marks (build_select filtered).0 ≡ length (build_select filtered).1
marks-build_select_example = marks-build_select filtered filtered-IsBalanced

normalize_placeholders_lem_example :
    (normalize_placeholders postgres (codes "a = ? OR b = ?")
      ≡ number_parts 1 (split b'?' (codes "a = ? OR b = ?")))
    × (marks (normalize_placeholders postgres (codes "a = ? OR b = ?")) ≡ 0)
    × (normalize_placeholders mysql (codes "a = ? OR b = ?") ≡ codes "a = ? OR b = ?")
normalize_placeholders_lem_example = normalize_placeholders_lem (codes "a = ? OR b = ?")

page_of_lem_example :
    let p = page_of 2 10 25 in
    (p.to ≤ 25)
    × (p.to < p.from + 10)
    × ((2 ≤ p.last_page) ↔ (p.from ≤ p.to))
    × (2 < p.last_page → (page_of 3 10 25).from ≡ p.to + 1)
page_of_lem_example =
    page_of_lem 2 10 25 (omega arith) (omega arith) (omega arith) (omega arith) (omega arith)

delete-filtered : delete 99 filtered ≡ sends (codes "DELETE FROM `users` WHERE (age > ?)") (18 ∷ [])
unfolding delete new_builder quote_ident
delete-filtered = refl

guarded-HasWhere_example : HasWhere filtered (codes "DELETE FROM `users` WHERE (age > ?)")
unfolding new_builder
guarded-HasWhere_example =
    guarded-HasWhere 99 [] filtered (codes "DELETE FROM `users` WHERE (age > ?)") (18 ∷ []) refl
      (inr delete-filtered)

-- db.Table("posts").SoftDelete().OrderBy("id; DROP TABLE users"): the chain has failed.
abbrev posts : Builder ℕ
posts =
    order_by (codes "id; DROP TABLE users")
      (record (new_builder mysql (codes "posts")) { soft_delete = true })

posts-bare : posts.wheres ≡ []
unfolding order_by new_builder
posts-bare = refl

posts-built : posts.raw_sql ≡ []
unfolding order_by new_builder
posts-built = refl

exec_lem_example :
    ((r : Refusal) × (update [] posts ≡ refused r))
    × ((r : Refusal) × (delete 99 posts ≡ refused r))
    × ((r : Refusal) × (force_delete 99 posts ≡ refused r))
    × (exec posts
        ≡ sends
            (normalize_placeholders posts.dialect
              (codes "DELETE FROM " ++ quote_ident posts.dialect posts.table))
            [])
exec_lem_example = exec_lem 99 [] posts posts-bare posts-built

unsafe_order : sanitize_order_by mysql (codes "id; DROP TABLE users") ≡ none
unfolding sanitize_order_by split fields trim_space quote_ident
unsafe_order = refl

order_by-refused_example :
    let b' = order_by (codes "id; DROP TABLE users") filtered in
    (e : BuildError) × (first b' ≡ refused (not_built e))
    × (all_rows b' ≡ refused (not_built e))
    × (count_rows b' ≡ refused (not_built e))
    × (pluck (codes "name") b' ≡ refused (not_built e))
    × (scan b' ≡ refused (not_built e))
    × (paginate 2 10 b' ≡ (refused (not_built e), refused (not_built e)))
    × (update [] b' ≡ refused (not_built e))
    × (delete 99 b' ≡ refused (not_built e))
    × (force_delete 99 b' ≡ refused (not_built e))
unfolding new_builder
order_by-refused_example =
    order_by-refused 99 [] (codes "name") 2 10 (codes "id; DROP TABLE users") filtered unsafe_order
