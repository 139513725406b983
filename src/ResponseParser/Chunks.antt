-- ===== src/ResponseParser/Chunks.antt =====
-- The parser sees a response as one stream, however the network cuts it.
use bigtable_postgres_blog_s.Base.{[], ◌∷◌, ◌++◌, ◌≡◌, refl, arith}
use bigtable_postgres_blog_s.Base.Text.{Bytes}
use bigtable_postgres_blog_s.Http.{ResponseBuilder}
use bigtable_postgres_blog_s.ResponseParser.{
  ResultType, good, bad, indeterminate, State, Outcome, consume, after, Parsed, parse_from, parse,
}

after-append :
    (xs ys : Bytes) (o : Outcome) (more more' : Parsed)
    → (more.result ≡ indeterminate → more' ≡ parse more.state more.builder ys)
    → (after o xs more).result ≡ indeterminate
    → after o (xs ++ ys) more' ≡ parse (after o xs more).state (after o xs more).builder ys
unfolding after
after-append xs ys (indeterminate, s, res) more more' ih h = ih h
after-append xs ys (bad, s, res) more more' ih h = cc
after-append xs ys (good, s, res) more more' ih h = ground (arith, ih)

parse_from-append :
    (xs ys : Bytes) (last : ResultType) (s : State) (res : ResponseBuilder)
    → (parse_from last s res xs).result ≡ indeterminate
    → parse_from last s res (xs ++ ys)
      ≡ parse (parse_from last s res xs).state (parse_from last s res xs).builder ys
unfolding parse_from
parse_from-append [] ys last s res h = rw h (unfold parse in refl)
parse_from-append (x ∷ xs) ys last s res h =
    let o = consume s res x in
    after-append xs ys o (parse_from o.0 o.1 o.2 xs) (parse_from o.0 o.1 o.2 (xs ++ ys))
      (parse_from-append xs ys o.0 o.1 o.2) h

-- Bytes that leave the parser wanting more can be parsed ahead of the others: the parser goes on
-- from the state that they leave as if all the bytes had come at once.
pub parse-append_reads :
    (xs ys : Bytes) (s : State) (res : ResponseBuilder)
    → (parse s res xs).result ≡ indeterminate
    → parse s res (xs ++ ys) ≡ parse (parse s res xs).state (parse s res xs).builder ys
unfolding parse
parse-append_reads xs ys s res h = parse_from-append xs ys indeterminate s res h
