-- ===== src/Blog/Bigtable.antt =====
-- `blog_bigtable` of bigtable/src/blog_bigtable.cc. The client of Cloud Bigtable is a parameter.
pub mod Rows
mod Tests
use bigtable_postgres_blog_s.Base.{Bool, List, [], ◌∷◌, Option, none, some, if◌then◌else◌}
use bigtable_postgres_blog_s.Base.Int.{ℤ, negsuc, succ_int}
use bigtable_postgres_blog_s.Base.Text.Decimal.{print_int, stoi, stoi_base}
use bigtable_postgres_blog_s.Base.Text.{Bytes, codes, str_eq}
use bigtable_postgres_blog_s.Blog.{Blog, no_blog, Database}

-- `cbt::Cell` and `cbt::Row`
pub record Cell : Type 0 where
  pub column_qualifier : Bytes
  pub value : Bytes

pub record Row : Type 0 where
  pub row_key : Bytes
  pub cells : List Cell

-- `cbt::Table`, over its state.
pub record Table (S : Type 0) : Type 0 where
  -- all rows in the order of the reader; `none` is a status in place of a row
  pub read_rows : S → List (Option Row)
  -- one row by its key, and whether it is there; `none` is a status
  pub read_row : Bytes → S → Option (Bool × Row)
  -- a mutation that sets the cells of one row, whether its status is ok, and the state after it
  pub apply : Bytes → List Cell → S → Bool × S

-- The loop of `insert_blog` over the rows: the number that it leaves, and whether it threw. `stoi`
-- throws on a key that is no number; so does a status in place of a row here, where the code reads a
-- key that is not there.
unfoldable pub latest_row_key : ℤ → List (Option Row) → ℤ × Bool
unfolding stoi_base
latest_row_key postid [] = (postid, Bool.false)
latest_row_key postid (none ∷ rows) = (postid, Bool.true)
latest_row_key postid (some row ∷ rows) = elim (stoi row.row_key) [
  | none ↦ (postid, Bool.true)
  | some n ↦ latest_row_key (succ_int n) rows
]

-- The cells of a post.
abbrev pub post_cells : Bytes → Bytes → List Cell
post_cells title body =
    record { column_qualifier = codes "title"; value = title }
    ∷ record { column_qualifier = codes "body"; value = body }
    ∷ []

-- The loop over the cells of a row: the title and the body that it leaves.
unfoldable pub read_cells : Bytes → Bytes → List Cell → Bytes × Bytes
read_cells title body [] = (title, body)
read_cells title body (c ∷ cells) =
    read_cells (if str_eq c.column_qualifier (codes "title") then c.value else title)
      (if str_eq c.column_qualifier (codes "title")
        then body
        else if str_eq c.column_qualifier (codes "body")
        then c.value
        else body)
      cells

unfoldable pub blog_of : ℤ → List Cell → Blog
unfolding read_cells
blog_of postid cells =
    let texts = read_cells [] [] cells in
    record { postid = postid; title = texts.0; body = texts.1 }

-- The loop of `get_all_blogs`, which an exception ends.
unfoldable pub collect_rows : List (Option Row) → List Blog
unfolding blog_of stoi_base
collect_rows [] = []
collect_rows (none ∷ rows) = []
collect_rows (some row ∷ rows) = elim (stoi row.row_key) [
  | none ↦ []
  | some postid ↦ blog_of postid row.cells ∷ collect_rows rows
]

module _ {S : Type 0} (table : Table S) where
  -- What throws before the mutation leaves the table as it was. The number is returned in any case.
  unfoldable pub insert_blog : Bytes → Bytes → S → ℤ × S
  unfolding latest_row_key
  insert_blog title body s =
      let (postid, threw) = latest_row_key (negsuc 0) (table.read_rows s) in
      (postid, if threw then s else (table.apply (print_int postid) (post_cells title body) s).1)

  -- A row that is not there is logged, and goes on.
  unfoldable pub get_blog : ℤ → S → Blog
  unfolding blog_of
  get_blog postid s = elim (table.read_row (print_int postid) s) [
    | none ↦ no_blog
    | some (found, row) ↦ blog_of postid row.cells
  ]

  unfoldable pub get_all_blogs : S → List Blog
  unfolding collect_rows
  get_all_blogs s = collect_rows (table.read_rows s)

  abbrev pub blog_bigtable : Database S
  blog_bigtable = record {
    insert_blog = insert_blog;
    get_blog = get_blog;
    get_all_blogs = get_all_blogs;
  }
