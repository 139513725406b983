-- ===== src/Blog/Handler/Posts.antt =====
-- Posting a blog through the form, and reading it under the location that the answer names.
use bigtable_postgres_blog_s.Base.{
  ℕ, suc, ◌+◌, ◌<◌, true, false, List, [], ◌∷◌, ◌++◌, some, ◌≡◌, ◌≢◌, refl, sym, ap, ◌∙◌, arith,
  All, length, length-append, drop-append, ltb, leb, inl, inr, Bool-cases,
}
use mathlib.Core.Option.{some-injective}
use bigtable_postgres_blog_s.Base.Dict.{lookup, insert, lookup-insert}
use bigtable_postgres_blog_s.Base.Int.{ℤ, pos, int_limit}
use bigtable_postgres_blog_s.Base.Text.Decimal.RoundTrip.{
  print_nat-All, print_nat-cons, stoi-print_nat,
}
use bigtable_postgres_blog_s.Base.Text.Decimal.{print_nat, print_int, is_digit_byte, stoi}
use bigtable_postgres_blog_s.Base.Text.{Bytes, codes, str_eq, str_lt, contains, contains-length}
use bigtable_postgres_blog_s.Blog.Decode.{
  urldecode, urlencode, urldecode-urlencode, urldecode_other,
}
use bigtable_postgres_blog_s.Blog.Form.{
  parse_request_body, parse-print_fields, insert_fields, without_equals,
}
use bigtable_postgres_blog_s.Blog.Handler.{
  is_number, field, ends_with_slash, blog_location, blog_page, handle_get, get_remain,
  handle_get_one_blog, handle_post, handle_post_blog,
}
use bigtable_postgres_blog_s.Blog.MockDatabase.{mock_database, mock_database-Stores}
use bigtable_postgres_blog_s.Blog.Stores.{Stores}
use bigtable_postgres_blog_s.Blog.{Blog, Database}
use bigtable_postgres_blog_s.Http.Library.{respond}
use bigtable_postgres_blog_s.Http.{ok, moved_temporarily}

abbrev pub IsByte : ℕ → Type 0
IsByte c = c < 256

-- What a browser sends for the form of the upload page.
abbrev pub encode_form : Bytes → Bytes → Bytes
encode_form title body =
    codes "submissiontitle="
    ++ (urlencode title ++ (codes "&submissionbody=" ++ (urlencode body ++ [])))

-- The same with nothing encoded.
abbrev pub plain_form : Bytes → Bytes → Bytes
plain_form title body =
    codes "submissiontitle=" ++ (title ++ (codes "&submissionbody=" ++ (body ++ [])))

abbrev IsUnescaped : ℕ → Type 0
IsUnescaped c = (c ≢ b'+') × (c ≢ b'%')

urldecode_unescaped :
    (s rest : Bytes) → All IsUnescaped s → urldecode (s ++ rest) ≡ s ++ urldecode rest
urldecode_unescaped [] rest t = refl
urldecode_unescaped (c ∷ s) rest ((h, k), t) =
    urldecode_other c (s ++ rest) h k ∙ ap (◌∷◌ c) (urldecode_unescaped s rest t)

urldecode-encode_form :
    (title body : Bytes)
    → All IsByte title
    → All IsByte body
    → urldecode (encode_form title body) ≡ plain_form title body
urldecode-encode_form title body t u =
    urldecode_unescaped (codes "submissiontitle=") _ (omega arith)
    ∙ ap (λ s. codes "submissiontitle=" ++ s)
        (urldecode-urlencode title _ t
          ∙ ap (λ s. title ++ s)
              (urldecode_unescaped (codes "&submissionbody=") _ (omega arith)
                ∙ ap (λ s. codes "&submissionbody=" ++ s)
                    (urldecode-urlencode body [] u
                      ∙ ap (λ s. body ++ s) (unfold urldecode in refl))))

abbrev pub HasNoAmpersand : Bytes → Type 0
HasNoAmpersand s = All (λ c. c ≢ b'&') s

-- The fields that the map holds after a form of a title and a body.
form_fields :
    (title body : Bytes)
    → HasNoAmpersand title
    → HasNoAmpersand body
    → parse_request_body (plain_form title body)
      ≡ insert_fields [] ((codes "submissiontitle", title) ∷ (codes "submissionbody", body) ∷ [])
form_fields title body t u =
    parse-print_fields (codes "submissiontitle") title ((codes "submissionbody", body) ∷ [])
      (omega arith, t) ((omega arith, u), tt)

-- A post of the upload form, encoded as a browser does, stores the title and the body that were
-- typed, less their equals signs. Neither holds an ampersand, and both are bytes.
pub handle_post-encode_form :
    {S : Type 0} (db : Database S) (location_prefix title body : Bytes) (s : S)
    → All IsByte title
    → All IsByte body
    → HasNoAmpersand title
    → HasNoAmpersand body
    → handle_post db location_prefix (encode_form title body) s
      ≡ handle_post_blog db location_prefix (without_equals title) (without_equals body) s
unfolding handle_post
handle_post-encode_form db location_prefix title body s t u p q =
    let e = urldecode-encode_form title body t u in
    let f = form_fields title body p q in
    rw e (rw f (unfold field lookup insert str_eq str_lt in refl))

is_number-digits :
    (c : ℕ) (s : Bytes) → All (λ d. is_digit_byte d ≡ true) (c ∷ s) → is_number (c ∷ s) ≡ true
unfolding is_number
is_number-digits c [] (h, t) = h
is_number-digits c (d ∷ s) (h, t) = ground (arith, is_number-digits d s t)

-- A location behind the prefix is no part of the prefix and a slash.
not_list :
    (prefix : Bytes) (c : ℕ) (s : Bytes)
    → contains (prefix ++ b'/' ∷ c ∷ s) (prefix ++ codes "/") ≡ false
not_list prefix c s = elim (Bool-cases (contains (prefix ++ b'/' ∷ c ∷ s) (prefix ++ codes "/"))) [
  | inl h ↦ absurd (
      omega (
        arith,
        contains-length _ _ h,
        length-append {0} prefix (b'/' ∷ c ∷ s),
        length-append {0} prefix (codes "/"),
      ))
  | inr h ↦ h
]

pub long_enough : (prefix rest : Bytes) → ltb (length (prefix ++ rest)) (length prefix) ≡ false
long_enough prefix rest = ground (arith, length-append prefix rest)

handle_get-remain :
    {S : Type 0} (db : Database S) (prefix : Bytes) (c : ℕ) (rest : Bytes) (s : S)
    → handle_get db prefix (prefix ++ b'/' ∷ c ∷ rest) s ≡ get_remain db prefix (b'/' ∷ c ∷ rest) s
unfolding handle_get
handle_get-remain db prefix c rest s =
    rw (long_enough prefix (b'/' ∷ c ∷ rest))
      (rw (not_list prefix c rest) (rw (drop-append prefix (b'/' ∷ c ∷ rest))))

leb_two : (n : ℕ) → leb (suc (suc n)) 1 ≡ false
leb_two n = ground arith

get_remain-digits :
    {S : Type 0} (db : Database S) (prefix : Bytes) (c : ℕ) (rest : Bytes) (n : ℤ) (s : S)
    → is_number (c ∷ rest) ≡ true
    → stoi (c ∷ rest) ≡ some n
    → get_remain db prefix (b'/' ∷ c ∷ rest) s ≡ some (handle_get_one_blog db prefix n s)
unfolding get_remain
get_remain-digits db prefix c rest n s h e = rw (h, leb_two (length rest)) (rw e)

-- A GET of the prefix, a slash and a number that fits an `int` asks for the post of that number.
pub handle_get-number :
    {S : Type 0} (db : Database S) (prefix : Bytes) (n : ℕ) (s : S)
    → n < int_limit
    → handle_get db prefix (prefix ++ b'/' ∷ print_nat n) s
      ≡ some (handle_get_one_blog db prefix (pos n) s)
handle_get-number db prefix n s h =
    let (d, rest, printed, small) = print_nat-cons n in
    let digits = is_number-digits (b'0' + d) rest (rw printed at (print_nat-All n)) in
    rw printed (
      handle_get-remain db prefix (b'0' + d) rest s
      ∙ get_remain-digits db prefix (b'0' + d) rest (pos n) s digits
          (rw printed at (stoi-print_nat n h)))

pub location_header :
    {S : Type 0} (db : Database S) (prefix title body : Bytes) (s : S)
    → lookup (codes "Location") (handle_post_blog db prefix title body s).0.headers
      ≡ some (blog_location prefix (db.insert_blog title body s).0)
unfolding handle_post_blog str_eq
location_header db prefix title body s = simp lookup-insert

pub redirect_code :
    {S : Type 0} (db : Database S) (prefix title body : Bytes) (s : S)
    → (handle_post_blog db prefix title body s).0.code ≡ moved_temporarily
unfolding handle_post_blog
redirect_code db prefix title body s = refl

blog_location-number :
    (prefix : Bytes) (n : ℕ)
    → ends_with_slash prefix ≡ false
    → blog_location prefix (pos n) ≡ prefix ++ b'/' ∷ print_nat n
unfolding blog_location print_int
blog_location-number prefix n h = rw h

pub location_number :
    {S : Type 0} (db : Database S) (prefix title body : Bytes) (s : S) (id : ℕ)
    → ends_with_slash prefix ≡ false
    → Stores db title body s id
    → lookup (codes "Location") (handle_post_blog db prefix title body s).0.headers
      ≡ some (prefix ++ b'/' ∷ print_nat id)
location_number db prefix title body s id h stored =
    location_header db prefix title body s
    ∙ ap some (ap (blog_location prefix) stored.numbered ∙ blog_location-number prefix id h)

-- In any database that stores the post, the post is the page that a GET of the location in the answer
-- to the POST returns.
pub handle_get-stored :
    {S : Type 0} (db : Database S) (prefix title body : Bytes) (s : S) (id : ℕ)
    → Stores db title body s id
    → handle_get db prefix
        (prefix ++ b'/' ∷ print_nat id)
        (handle_post_blog db prefix title body s).1
      ≡ some (
          respond ok
            (blog_page (record { postid = pos id; title = title; body = body }))
            (codes "text/html"))
handle_get-stored db prefix title body s id stored =
    handle_get-number db prefix id _ stored.id_fits
    ∙ ap some (unfold handle_get_one_blog handle_post_blog in rw stored.found)

-- The post that a POST stores in the mock database is the page that a GET of the location in the
-- answer to the POST returns, with status 200. The prefix does not end in a slash, and the number of
-- posts fits an `int`.
pub handle_get-handle_post_blog :
    (prefix title body : Bytes) (db : List Blog)
    → ends_with_slash prefix ≡ false
    → length db + 1 < int_limit
    → (location : Bytes)
    → lookup (codes "Location") (handle_post_blog mock_database prefix title body db).0.headers
      ≡ some location
    → handle_get mock_database prefix location
        (handle_post_blog mock_database prefix title body db).1
      ≡ some (
          respond ok
            (blog_page (record { postid = pos (length db + 1); title = title; body = body }))
            (codes "text/html"))
handle_get-handle_post_blog prefix title body db h k location e =
    let stored = mock_database-Stores title body db k in
    let place =
      some-injective location _
        (sym e ∙ location_number mock_database prefix title body db (length db + 1) h stored) in
    rw place (handle_get-stored mock_database prefix title body db (length db + 1) stored)
