-- ===== src/Blog/Bigtable/Rows.antt =====
-- The numbers of the posts in bigtable/src/blog_bigtable.cc, over the rows of a table.
use bigtable_postgres_blog_s.Base.{
  if◌then◌else◌, ℕ, ◌<◌, Bool, true, false, List, [], ◌∷◌, Option, none, some, ◌≡◌, refl, ap, sym,
  ◌∙◌, arith, All, map,
}
use mathlib.Core.Path.{subst}
use bigtable_postgres_blog_s.Base.Dict.Ordered.{insert-All}
use bigtable_postgres_blog_s.Base.Dict.{lookup, insert, lookup-insert}
use bigtable_postgres_blog_s.Base.Int.{int_limit, ℤ, pos, negsuc, succ_int}
use bigtable_postgres_blog_s.Base.Text.Decimal.{print_int, stoi, stoi_base}
use bigtable_postgres_blog_s.Base.Text.{Bytes, codes, str_eq, str_eq_refl, str_lt}
use bigtable_postgres_blog_s.Blog.Stores.{Stores}
use bigtable_postgres_blog_s.Blog.Bigtable.{
  Cell, Row, Table, latest_row_key, post_cells, blog_of, insert_blog, get_blog, blog_bigtable,
}

abbrev pub Rows : Type 0
Rows = List (Bytes × List Cell)

abbrev pub row : Bytes × List Cell → Option Row
row (k, cells) = some (record { row_key = k; cells = cells })

abbrev pub found_row : Bytes → Option (List Cell) → Bool × Row
found_row k none = (false, record { row_key = []; cells = [] })
found_row k (some cells) = (true, record { row_key = k; cells = cells })

-- The cells in the order of their columns' qualifiers, as texts.
abbrev pub by_qualifier : Cell → List Cell → List Cell
by_qualifier c [] = c ∷ []
by_qualifier c (d ∷ cells) =
    let rest = by_qualifier c cells in
    if str_lt d.column_qualifier c.column_qualifier then d ∷ rest else c ∷ d ∷ cells

abbrev pub sorted_cells : List Cell → List Cell
sorted_cells [] = []
sorted_cells (c ∷ cells) = by_qualifier c (sorted_cells cells)

-- A table without failures: its reader gives the rows in the order of their keys, as texts; a mutation
-- makes the row if there is none, whose cells stand in the order of their qualifiers, and of a row that
-- is there it may keep older cells.
pub record IsTable {S : Type 0} (table : Table S) (stored : S → Rows) : Type 0 where
  pub reads : (s : S) → table.read_rows s ≡ map row (stored s)
  pub finds : (k : Bytes) (s : S) → table.read_row k s ≡ some (found_row k (lookup k (stored s)))
  pub sets :
      (k : Bytes) (cells : List Cell) (s : S)
      → (kept : List Cell) × (stored (table.apply k cells s).1 ≡ insert k kept (stored s))
        × (lookup k (stored s) ≡ none → kept ≡ sorted_cells cells)

-- The keys are numbers, and the last of them is `k`.
abbrev pub EndsWith : Bytes → Rows → Type 0
EndsWith k [] = ⊥
EndsWith k ((j, cells) ∷ []) = j ≡ k
EndsWith k ((j, cells) ∷ r ∷ rows) = EndsWith k (r ∷ rows)

abbrev pub IsNumber : Bytes × List Cell → Type 0
IsNumber (k, cells) = (n : ℤ) × (stoi k ≡ some n)

EndsWith-cons :
    (k j : Bytes) (cells : List Cell) (rows : Rows)
    → EndsWith k rows
    → EndsWith k ((j, cells) ∷ rows)
EndsWith-cons k j cells [] e = absurd e
EndsWith-cons k j cells (r ∷ rows) e = e

-- A key before the last one leaves it the last.
EndsWith-insert :
    (k j : Bytes) (cells : List Cell) (rows : Rows)
    → str_lt j k ≡ true
    → str_eq k j ≡ false
    → EndsWith k rows
    → EndsWith k (insert j cells rows)
unfolding insert
EndsWith-insert k j cells [] lt ne e = absurd e
EndsWith-insert k j cells ((i, c) ∷ []) lt ne e = rw (e, ne, lt) refl
EndsWith-insert k j cells ((i, c) ∷ r ∷ rows) lt ne e = ground (
  arith,
  EndsWith-cons k i c (insert j cells (r ∷ rows)),
  EndsWith-insert k j cells (r ∷ rows) lt ne,
)

latest_row_key-number :
    (postid n : ℤ) (k : Bytes) (cells : List Cell) (rows : Rows)
    → stoi k ≡ some n
    → latest_row_key postid (map row ((k, cells) ∷ rows))
      ≡ latest_row_key (succ_int n) (map row rows)
unfolding latest_row_key
latest_row_key-number postid n k cells rows e = rw (e, latest_row_key) refl

latest_row_key-EndsWith :
    (postid n : ℤ) (k : Bytes) (rows : Rows)
    → All IsNumber rows
    → EndsWith k rows
    → stoi k ≡ some n
    → latest_row_key postid (map row rows) ≡ (succ_int n, false)
latest_row_key-EndsWith postid n k [] t e is_n = absurd e
latest_row_key-EndsWith postid n k ((j, c) ∷ []) t e is_n =
    latest_row_key-number postid n j c [] (ap stoi e ∙ is_n) ∙ unfold latest_row_key in refl
latest_row_key-EndsWith postid n k ((j, c) ∷ r ∷ rows) ((m, is_m), t) e is_n =
    latest_row_key-number postid m j c (r ∷ rows) is_m
    ∙ latest_row_key-EndsWith (succ_int m) n k (r ∷ rows) t e is_n

threw_not :
    (postid : ℤ) (rows : Rows)
    → All IsNumber rows
    → (latest_row_key postid (map row rows)).1 ≡ false
threw_not postid [] t = unfold latest_row_key in refl
threw_not postid ((j, c) ∷ rows) ((m, is_m), t) =
    ap (λ r. r.1) (latest_row_key-number postid m j c rows is_m) ∙ threw_not (succ_int m) rows t

-- The body stands before the title.
blog_of-post_cells :
    (postid : ℤ) (title body : Bytes)
    → blog_of postid (sorted_cells (post_cells title body))
      ≡ record { postid = postid; title = title; body = body }
unfolding blog_of str_eq str_lt
blog_of-post_cells postid title body = refl

nine : stoi (codes "9") ≡ some (pos 9)
unfolding stoi_base
nine = refl

nine_after : succ_int (pos 9) ≡ pos 10
unfolding succ_int
nine_after = refl

print_ten : print_int (pos 10) ≡ codes "10"
unfolding print_int
print_ten = refl

ten_IsNumber : (n : ℤ) × (stoi (codes "10") ≡ some n)
unfolding stoi_base
ten_IsNumber = (pos 10, refl)

before_nine : str_lt (codes "10") (codes "9") ≡ true
unfolding str_lt
before_nine = refl

not_nine : str_eq (codes "9") (codes "10") ≡ false
unfolding str_eq
not_nine = refl

-- The numbers of posts that are inserted one after the other.
abbrev pub numbers : {S : Type 0} → Table S → List (Bytes × Bytes) → S → List ℤ
numbers table [] s = []
numbers table ((title, body) ∷ posts) s =
    let r = insert_blog table title body s in r.0 ∷ numbers table posts r.1

module _ {S : Type 0} (table : Table S) (stored : S → Rows) (laws : IsTable table stored) where
  -- Where all keys are numbers, the post goes to the row of the number that is returned.
  insert_blog-apply :
      (title body : Bytes) (s : S)
      → All IsNumber (stored s)
      → let postid = (latest_row_key (negsuc 0) (map row (stored s))).0 in
        insert_blog table title body s
        ≡ (postid, (table.apply (print_int postid) (post_cells title body) s).1)
  unfolding insert_blog
  insert_blog-apply title body s t = rw (laws.reads s) (rw (threw_not (negsuc 0) (stored s) t) refl)

  get_blog-found :
      (postid : ℤ) (s : S) (cells : List Cell)
      → lookup (print_int postid) (stored s) ≡ some cells
      → get_blog table postid s ≡ blog_of postid cells
  unfolding get_blog
  get_blog-found postid s cells e = rw (laws.finds (print_int postid) s, get_blog) (rw e refl)

  -- In a table whose keys are all numbers, the post stands under the number that `insert_blog` returns,
  -- if no row had that number.
  pub get_blog-insert_blog_fresh :
      (title body : Bytes) (s : S)
      → All IsNumber (stored s)
      → lookup (print_int (insert_blog table title body s).0) (stored s) ≡ none
      → get_blog table (insert_blog table title body s).0 (insert_blog table title body s).1
        ≡ record { postid = (insert_blog table title body s).0; title = title; body = body }
  get_blog-insert_blog_fresh title body s t fresh =
      let postid = (latest_row_key (negsuc 0) (map row (stored s))).0 in
      let k = print_int postid in
      let cells = post_cells title body in
      let row_cells = sorted_cells cells in
      let one = insert_blog-apply title body s t in
      let (kept, after, same) = laws.sets k cells s in
      let kept_cells = same (ap (λ r. lookup (print_int r.0) (stored s)) (sym one) ∙ fresh) in
      let found =
        ap (lookup k) after
        ∙ lookup-insert k k kept (stored s)
        ∙ rw (str_eq_refl k) (ap some kept_cells) in
      rw one (
        get_blog-found postid (table.apply k cells s).1 row_cells found
        ∙ blog_of-post_cells postid title body)

  -- A table stores the post if the number is not negative and no row has it.
  pub blog_bigtable-Stores :
      (title body : Bytes) (s : S) (n : ℕ)
      → All IsNumber (stored s)
      → (insert_blog table title body s).0 ≡ pos n
      → n < int_limit
      → lookup (print_int (pos n)) (stored s) ≡ none
      → Stores (blog_bigtable table) title body s n
  blog_bigtable-Stores title body s n t number fits fresh = record {
    id_fits = fits;
    numbered = number;
    found = rw number at (
        get_blog-insert_blog_fresh title body s t
          (ap (λ z. lookup (print_int z) (stored s)) number ∙ fresh));
  }

  insert_blog_nine :
      (title body : Bytes) (s : S)
      → All IsNumber (stored s)
      → EndsWith (codes "9") (stored s)
      → ((insert_blog table title body s).0 ≡ pos 10)
        × All IsNumber (stored (insert_blog table title body s).1)
        × EndsWith (codes "9") (stored (insert_blog table title body s).1)
  insert_blog_nine title body s t e =
      let last = latest_row_key-EndsWith (negsuc 0) (pos 9) (codes "9") (stored s) t e nine in
      let ten = ap (λ r. r.0) last ∙ nine_after in
      let cells = post_cells title body in
      let k = print_int (latest_row_key (negsuc 0) (map row (stored s))).0 in
      let k_ten : k ≡ codes "10" = ap print_int ten ∙ print_ten in
      let (kept, after, same) = laws.sets k cells s in
      let after_ten = after ∙ ap (λ j. insert j kept (stored s)) k_ten in
      rw (insert_blog-apply title body s t) (
        ten,
        subst (All IsNumber) (sym after_ten)
            (insert-All IsNumber (codes "10") kept (stored s) ten_IsNumber t),
        subst (EndsWith (codes "9")) (sym after_ten)
            (EndsWith-insert (codes "9") (codes "10") kept (stored s) before_nine not_nine e),
      )

  -- In a table whose keys are numbers and whose last key, in the order of texts, is "9", every post that
  -- is inserted, and every one after it, gets number 10.
  pub numbers_nine :
      (posts : List (Bytes × Bytes)) (s : S)
      → All IsNumber (stored s)
      → EndsWith (codes "9") (stored s)
      → All (λ n. n ≡ pos 10) (numbers table posts s)
  numbers_nine [] s t e = tt
  numbers_nine ((title, body) ∷ posts) s t e =
      let (ten, t', e') = insert_blog_nine title body s t e in
      (ten, numbers_nine posts (insert_blog table title body s).1 t' e')
