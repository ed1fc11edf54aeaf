-- ===== src/Database/Builder/Guards.antt =====
-- framework/database/builder.go: what is refused before the database is touched, and what is not.
use mathlib.Core.Path.{ap₂}
use oniworks.Prelude.{
  ℕ, ◌≡◌, refl, sym, ap, ◌∙◌, false, ◌⊎◌, Option, none, some, List, [], ◌∷◌, ◌++◌, map, nat_eq, inl,
  inr, Bool-cases, Option-cases,
}
use mathlib.Core.List.{append-nil}
use oniworks.Prelude.Text.{Text, text_eq, codes}
use oniworks.Database.Grammar.{quote_ident, join_with}
use oniworks.Database.Ident.{sanitize_order_by}
use oniworks.Database.Builder.{
  WhereClause, BuildError, unsafe_order_by, Builder, order_by, add_order_by, set_err, first_error,
}
use oniworks.Database.Builder.Sql.{
  is_nil, normalize_placeholders, build_where, where_parts, where_word, where_text, set_clauses,
  build_update, build_delete,
}
use oniworks.Database.Builder.Terminal.{
  Refusal, Call, first, pluck, scan, paginate, force_delete, refused, sends, not_built, no_where,
  send, checked, guarded, all_rows, count_rows, update, build_delete_stmt, delete, exec,
}

module _ {V : Type 0} where
  sends-injective : (q r : Text) (a c : List V) → sends q a ≡ sends r c → (q ≡ r) × (a ≡ c)
  sends-injective q r a c h = (cc, cc)

  -- A statement that passes the checks of Update and Delete.
  guarded-sends :
      (b : Builder V) (s : Text × List V) (q : Text) (args : List V)
      → checked b.err (guarded b (send b.dialect s)) ≡ sends q args
      → b.raw_sql ≡ []
      → (b.err ≡ none) × (is_nil b.wheres ≡ false) × (q ≡ normalize_placeholders b.dialect s.0)
  unfolding checked guarded send
  guarded-sends b s q args h raw = elim (Option-cases b.err) [
    | inr (e, failed) ↦
        let never : refused (not_built e) ≡ sends q args = rw (failed, checked) at h in cc
    | inl fine ↦ elim (Bool-cases (is_nil b.wheres)) [
      | inl empty ↦
          let never : refused no_where ≡ sends q args = rw (fine, checked, empty, raw) at h in cc
      | inr some_where ↦
          let same : sends (normalize_placeholders b.dialect s.0) s.1 ≡ sends q args =
            rw (fine, checked, some_where) at h in
          (
            fine,
            some_where,
            sym (sends-injective (normalize_placeholders b.dialect s.0) q s.1 args same).0,
          )
    ]
  ]

  where_text-build_where :
      (ws : List (WhereClause V))
      → is_nil ws ≡ false
      → where_text (build_where ws).0 ≡ codes " WHERE " ++ (build_where ws).0
  unfolding where_text build_where where_parts where_word
  where_text-build_where [] h = absurd (cc)
  where_text-build_where (w ∷ []) h = refl
  where_text-build_where (w ∷ x ∷ ws) h = refl

  -- The statement ends with the clauses, of which there is at least one, behind a WHERE.
  abbrev pub HasWhere : Builder V → Text → Type 0
  HasWhere b q =
      (is_nil b.wheres ≡ false)
      × ((head : Text) × (q
            ≡ normalize_placeholders b.dialect
                (head ++ (codes " WHERE " ++ (build_where b.wheres).0))))

  update-HasWhere :
      (values : List (Text × V)) (b : Builder V) (q : Text) (args : List V)
      → b.raw_sql ≡ []
      → update values b ≡ sends q args
      → HasWhere b q
  unfolding update build_update
  update-HasWhere values b q args raw h =
      let cols = map (λ (p : Text × V). p.0) values in
      let s = build_update b.dialect b.table b.wheres cols (map (λ (p : Text × V). p.1) values) in
      let (fine, some_where, same) = guarded-sends b s q args h raw in
      let head =
        codes "UPDATE "
        ++ quote_ident b.dialect b.table
        ++ codes " SET "
        ++ join_with (codes ", ") (set_clauses b.dialect cols) in
      (
        some_where,
        (
          head,
          same
              ∙ ap (λ (w : Text). normalize_placeholders b.dialect (head ++ w))
                  (where_text-build_where b.wheres some_where),
        ),
      )

  delete-HasWhere :
      (now : V) (b : Builder V) (q : Text) (args : List V)
      → b.raw_sql ≡ []
      → delete now b ≡ sends q args
      → HasWhere b q
  unfolding delete build_delete_stmt build_delete build_update
  delete-HasWhere now b q args raw h =
      let (fine, some_where, same) = guarded-sends b (build_delete_stmt now b) q args h raw in
      let filter = where_text-build_where b.wheres some_where in
      elim (Bool-cases b.soft_delete) [
        | inl soft ↦
            let head =
              codes "UPDATE "
              ++ quote_ident b.dialect b.table
              ++ codes " SET "
              ++ join_with (codes ", ") (set_clauses b.dialect (codes "deleted_at" ∷ [])) in
            let stamp : build_delete_stmt now b
                ≡ build_update b.dialect b.table b.wheres (codes "deleted_at" ∷ []) (now ∷ []) =
              rw soft refl in
            (
              some_where,
              (
                head,
                same
                    ∙ ap (λ (s : Text × List V). normalize_placeholders b.dialect s.0) stamp
                    ∙ ap (λ (w : Text). normalize_placeholders b.dialect (head ++ w)) filter,
              ),
            )
        | inr hard ↦
            let head = codes "DELETE FROM " ++ quote_ident b.dialect b.table in
            let real : build_delete_stmt now b ≡ build_delete b.dialect b.table b.wheres =
              rw hard refl in
            (
              some_where,
              (
                head,
                same
                    ∙ ap (λ (s : Text × List V). normalize_placeholders b.dialect s.0) real
                    ∙ ap (λ (w : Text). normalize_placeholders b.dialect (head ++ w)) filter,
              ),
            )
      ]

  -- Neither an Update nor a Delete, also where it only stamps deleted_at, reaches the database
  -- without the clauses of its caller, of which there is at least one: what it sends ends with them,
  -- behind a WHERE. The builder is not a raw one.
  pub guarded-HasWhere :
      (now : V) (values : List (Text × V)) (b : Builder V) (q : Text) (args : List V)
      → b.raw_sql ≡ []
      → (update values b ≡ sends q args) ⊎ (delete now b ≡ sends q args)
      → HasWhere b q
  guarded-HasWhere now values b q args raw (inl h) = update-HasWhere values b q args raw h
  guarded-HasWhere now values b q args raw (inr h) = delete-HasWhere now b q args raw h

module _ {V : Type 0} where
  -- A statement for a builder with no clause does not pass the checks of Update and Delete.
  guarded-refused :
      (b : Builder V) (c : Call V)
      → b.wheres ≡ []
      → b.raw_sql ≡ []
      → (r : Refusal) × (checked b.err (guarded b c) ≡ refused r)
  unfolding checked guarded
  guarded-refused b c bare raw = elim (Option-cases b.err) [
    | inl fine ↦ (no_where, rw (fine, checked, bare, raw) refl)
    | inr (e, failed) ↦ (not_built e, rw (failed, checked) refl)
  ]

  exec-bare :
      (b : Builder V)
      → b.wheres ≡ []
      → b.raw_sql ≡ []
      → exec b
        ≡ sends
            (normalize_placeholders b.dialect
              (codes "DELETE FROM " ++ quote_ident b.dialect b.table))
            []
  unfolding exec send build_delete build_where where_text
  exec-bare b bare raw =
      rw (raw, bare)
        (ap (λ (t : Text). sends (normalize_placeholders b.dialect t) [])
          (append-nil (codes "DELETE FROM " ++ quote_ident b.dialect b.table)))

  -- On a builder that is not a raw one and has no WHERE clause, whatever else has been called on it,
  -- Update, Delete and ForceDelete are refused. Exec of the same builder deletes every row of the
  -- table, also where the builder is for soft deletes and where a call of the chain has failed.
  pub exec_lem :
      (now : V) (values : List (Text × V)) (b : Builder V)
      → b.wheres ≡ []
      → b.raw_sql ≡ []
      → ((r : Refusal) × (update values b ≡ refused r))
        × ((r : Refusal) × (delete now b ≡ refused r))
        × ((r : Refusal) × (force_delete now b ≡ refused r))
        × (exec b
            ≡ sends
                (normalize_placeholders b.dialect
                  (codes "DELETE FROM " ++ quote_ident b.dialect b.table))
                [])
  unfolding update delete force_delete
  exec_lem now values b bare raw =
      let hard : Builder V = record b { soft_delete = false } in
      (
        guarded-refused b _ bare raw,
        guarded-refused b _ bare raw,
        guarded-refused hard _ bare raw,
        exec-bare b bare raw,
      )

first_error-some :
    (o : Option BuildError) (e : BuildError) → (e' : BuildError) × (first_error o e ≡ some e')
unfolding first_error
first_error-some none e = (e, refl)
first_error-some (some old) e = (old, refl)

err-order_by :
    {V : Type 0} (clause : Text) (b : Builder V)
    → sanitize_order_by b.dialect clause ≡ none
    → (e : BuildError) × ((order_by clause b).err ≡ some e)
unfolding order_by add_order_by set_err
err-order_by {V} clause b h =
    let (e, failed) = first_error-some b.err (unsafe_order_by clause) in
    (e, ap (λ (o : Option Text). (add_order_by clause o b).err) h ∙ failed)

checked-some :
    {V : Type 0} (e : BuildError) (c : Call V) → checked (some e) c ≡ refused (not_built e)
unfolding checked
checked-some e c = refl

-- An order clause that is not in the grammar is never sent: First, All, Count, Pluck, Scan, Paginate,
-- in both of its statements, Update, Delete and ForceDelete return the error of the chain.
pub order_by-refused :
    {V : Type 0} (now : V) (values : List (Text × V)) (col : Text) (page per_page : ℕ)
    (clause : Text) (b : Builder V)
    → sanitize_order_by b.dialect clause ≡ none
    → let b' = order_by clause b in
      (e : BuildError) × (first b' ≡ refused (not_built e))
      × (all_rows b' ≡ refused (not_built e))
      × (count_rows b' ≡ refused (not_built e))
      × (pluck col b' ≡ refused (not_built e))
      × (scan b' ≡ refused (not_built e))
      × (paginate page per_page b' ≡ (refused (not_built e), refused (not_built e)))
      × (update values b' ≡ refused (not_built e))
      × (delete now b' ≡ refused (not_built e))
      × (force_delete now b' ≡ refused (not_built e))
unfolding first all_rows count_rows pluck scan paginate update delete force_delete
order_by-refused {V} now values col page per_page clause b h =
    let (e, failed) = err-order_by clause b h in
    let stops =
      λ (c : Call V). ap (λ (o : Option BuildError). checked o c) failed ∙ checked-some e c in
    (
      e,
      stops _,
      stops _,
      stops _,
      stops _,
      stops _,
      ap₂ (λ (counted rows : Call V). (counted, rows)) (stops _) (stops _),
      stops _,
      stops _,
      stops _,
    )
