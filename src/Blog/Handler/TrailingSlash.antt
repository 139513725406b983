-- ===== src/Blog/Handler/TrailingSlash.antt =====
-- The answer to a post under a prefix that ends in a slash names a location that shows the error page.
use mathlib.Core.Option.{some-injective}
use bigtable_postgres_blog_s.Base.{
  ℕ, zero, suc, ◌+◌, ◌≤◌, ◌<◌, true, false, List, [], ◌∷◌, ◌++◌, none, some, ◌≡◌, ◌≢◌, refl, sym,
  ap, ◌∙◌, arith, length, length-append, drop, drop-append, get_elem?, inl, inr, Bool-cases,
}
use bigtable_postgres_blog_s.Base.Dict.{lookup}
use bigtable_postgres_blog_s.Base.Int.{pos, negsuc, int_limit, int_of_size_small, pred_int, to_size}
use bigtable_postgres_blog_s.Base.Text.Decimal.{print_nat, print_int}
use bigtable_postgres_blog_s.Base.Text.{Bytes, codes, contains, contains-eq}
use bigtable_postgres_blog_s.Blog.Handler.{
  ends_with_slash, blog_location, error_page, handle_get, get_remain, handle_get_one_blog,
  handle_post_blog,
}
use bigtable_postgres_blog_s.Blog.Handler.Posts.{location_header, long_enough}
use bigtable_postgres_blog_s.Blog.MockDatabase.{
  length-insert_blog, mock_database, insert_blog, get_blog,
}
use bigtable_postgres_blog_s.Blog.{Blog, Database, no_blog}
use bigtable_postgres_blog_s.Http.Library.{respond}
use bigtable_postgres_blog_s.Http.{ok}

get_elem?-past : (xs : List Blog) (i : ℕ) → length xs ≤ i → get_elem? xs i ≡ none
get_elem?-past [] i h = refl
get_elem?-past (x ∷ xs) zero h = absurd (omega arith)
get_elem?-past (x ∷ xs) (suc i) h = get_elem?-past xs i (omega arith)

-- A prefix and a byte other than a slash is not found in the prefix and a slash.
not_list_byte :
    (prefix : Bytes) (c : ℕ) → c ≢ b'/' → contains (prefix ++ c ∷ []) (prefix ++ codes "/") ≡ false
not_list_byte prefix c ne = elim (Bool-cases (contains (prefix ++ c ∷ []) (prefix ++ codes "/"))) [
  | inr h ↦ h
  | inl h ↦
      let same =
        contains-eq (prefix ++ c ∷ []) (prefix ++ codes "/") h
          (length-append prefix (c ∷ []) ∙ sym (length-append prefix (codes "/"))) in
      let tails : c ∷ [] ≡ b'/' ∷ [] =
        sym (drop-append prefix (c ∷ []))
        ∙ ap (drop (length prefix)) same
        ∙ drop-append prefix (codes "/") in
      absurd (ne (cc))
]

handle_get-byte :
    {S : Type 0} (db : Database S) (prefix : Bytes) (c : ℕ) (s : S)
    → c ≢ b'/'
    → handle_get db prefix (prefix ++ c ∷ []) s ≡ some (handle_get_one_blog db prefix (negsuc 0) s)
unfolding handle_get get_remain
handle_get-byte db prefix c s ne =
    rw (long_enough prefix (c ∷ []))
      (rw (not_list_byte prefix c ne) (rw (drop-append prefix (c ∷ []))))

print_nat_digit : (n : ℕ) → n < 10 → print_nat n ≡ (b'0' + n) ∷ []
unfolding print_nat
print_nat_digit n h = ground arith

no_blog_found : (db : List Blog) → length db < int_limit → get_blog (negsuc 0) db ≡ no_blog
unfolding get_blog
no_blog_found db h =
    rw
      (get_elem?-past db (to_size (pred_int (negsuc 0))) (unfold pred_int in omega arith), get_blog)

blog_location-slash :
    (prefix : Bytes) (n : ℕ)
    → ends_with_slash prefix ≡ true
    → n < 10
    → blog_location prefix (pos n) ≡ prefix ++ (b'0' + n) ∷ []
unfolding blog_location print_int
blog_location-slash prefix n h small = rw h (ap (λ s. prefix ++ s) (print_nat_digit n small))

-- Under a prefix that ends in a slash, a GET of the location in the answer to a POST returns the page
-- "Unable to get blog entry from id" and not the post, while the mock database holds fewer than nine.
pub handle_get-location_slash :
    (prefix title body : Bytes) (db : List Blog)
    → ends_with_slash prefix ≡ true
    → length db < 9
    → (location : Bytes)
    → lookup (codes "Location") (handle_post_blog mock_database prefix title body db).0.headers
      ≡ some location
    → handle_get mock_database prefix location
        (handle_post_blog mock_database prefix title body db).1
      ≡ some (respond ok error_page (codes "text/html"))
handle_get-location_slash prefix title body db h k location e =
    let s = (insert_blog title body db).1 in
    let id : (insert_blog title body db).0 ≡ pos (length db + 1) =
      unfold insert_blog in int_of_size_small (length db + 1) (omega arith) in
    let place : location ≡ prefix ++ (b'0' + (length db + 1)) ∷ [] =
      some-injective _ _ (sym e ∙ location_header mock_database prefix title body db)
      ∙ ap (blog_location prefix) id
      ∙ blog_location-slash prefix (length db + 1) h (omega arith) in
    let size : length s < int_limit = omega (arith, length-insert_blog title body db) in
    rw place (
      handle_get-byte mock_database prefix (b'0' + (length db + 1)) _ (λ x. omega arith)
      ∙ ap some (unfold handle_get_one_blog handle_post_blog in rw (no_blog_found s size)))
