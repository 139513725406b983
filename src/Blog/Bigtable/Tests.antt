-- ===== src/Blog/Bigtable/Tests.antt =====
-- The properties of the Bigtable database, over a table in a list.
use bigtable_postgres_blog_s.Base.{true, List, [], ◌∷◌, none, some, ◌≡◌, refl, All, map}
use bigtable_postgres_blog_s.Base.Dict.{lookup, insert}
use bigtable_postgres_blog_s.Base.Int.{pos, negsuc, succ_int}
use bigtable_postgres_blog_s.Base.Text.Decimal.{print_int, stoi_base}
use bigtable_postgres_blog_s.Base.Text.{Bytes, codes, str_eq, str_lt}
use bigtable_postgres_blog_s.Blog.Bigtable.Rows.{
  Rows, row, found_row, sorted_cells, IsTable, IsNumber, numbers, numbers_nine,
  get_blog-insert_blog_fresh,
}
use bigtable_postgres_blog_s.Blog.Bigtable.{Table, insert_blog, get_blog, post_cells}

abbrev table : Table Rows
table = record {
  read_rows = λ s. map row s;
  read_row = λ k s. some (found_row k (lookup k s));
  apply = λ k cells s. (true, insert k (sorted_cells cells) s);
}

table-IsTable : IsTable table (λ s. s)
table-IsTable = record {
  reads = λ s. refl;
  finds = λ k s. refl;
  sets = λ k cells s. (sorted_cells cells, refl, λ e. refl);
}

abbrev two_rows : Rows
two_rows =
    (codes "-1", sorted_cells (post_cells [] []))
    ∷ (codes "9", sorted_cells (post_cells [] []))
    ∷ []

two_rows-IsNumber : All IsNumber two_rows
unfolding stoi_base
two_rows-IsNumber = ((negsuc 0, refl), ((pos 9, refl), tt))

abbrev posts : List (Bytes × Bytes)
posts = (codes "Day 10", codes "x") ∷ (codes "Day 11", codes "y") ∷ []

numbers_nine_example : All (λ n. n ≡ pos 10) (numbers table posts two_rows)
numbers_nine_example =
    numbers_nine table (λ s. s) table-IsTable posts two_rows two_rows-IsNumber refl

-- The numbers from an empty table: the first post gets -1, and from the twelfth on all get 10.
abbrev post : Bytes × Bytes
post = ([], [])

numbers_from_empty :
    numbers table
      (post ∷ post ∷ post ∷ post ∷ post ∷ post ∷ post ∷ post ∷ post ∷ post ∷ post ∷ post ∷ post
        ∷ [])
      []
    ≡ negsuc 0
      ∷ pos 0
      ∷ pos 1
      ∷ pos 2
      ∷ pos 3
      ∷ pos 4
      ∷ pos 5
      ∷ pos 6
      ∷ pos 7
      ∷ pos 8
      ∷ pos 9
      ∷ pos 10
      ∷ pos 10
      ∷ []
unfolding insert_blog insert str_eq str_lt stoi_base print_int succ_int
numbers_from_empty = refl

-- A post that is not there is one without texts, and not the sentinel.
get_blog_missing : get_blog table (pos 3) [] ≡ record { postid = pos 3; title = []; body = [] }
unfolding get_blog lookup
get_blog_missing = refl

abbrev five : Rows
five = (codes "5", sorted_cells (post_cells (codes "Day 5") (codes "x"))) ∷ []

five-IsNumber : All IsNumber five
unfolding stoi_base
five-IsNumber = ((pos 5, refl), tt)

five_fresh : lookup (print_int (insert_blog table (codes "Day 6") (codes "y") five).0) five ≡ none
unfolding insert_blog lookup str_eq stoi_base print_int succ_int
five_fresh = refl

get_blog-insert_blog_fresh_example :
    get_blog table
      (insert_blog table (codes "Day 6") (codes "y") five).0
      (insert_blog table (codes "Day 6") (codes "y") five).1
    ≡ record {
      postid = (insert_blog table (codes "Day 6") (codes "y") five).0;
      title = codes "Day 6";
      body = codes "y";
    }
get_blog-insert_blog_fresh_example =
    get_blog-insert_blog_fresh table (λ s. s) table-IsTable (codes "Day 6") (codes "y") five
      five-IsNumber five_fresh
