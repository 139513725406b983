-- ===== src/RequestParser/Chunks.antt =====
-- The parser sees a request as one stream, however the network cuts it, and keeps all it has read.
use bigtable_postgres_blog_s.Base.{ℕ, [], ◌∷◌, ◌++◌, ◌≡◌, refl, ◌≢◌, arith, append_assoc, ◌∙◌, ap}
use bigtable_postgres_blog_s.Base.Text.{Bytes}
use bigtable_postgres_blog_s.Http.{RequestBuilder}
use bigtable_postgres_blog_s.RequestParser.{
  ResultType, good, bad, indeterminate, State, RequestParser, Outcome, consume, step, after, Parsed,
  parse,
}

module _ (xs ys : Bytes) where
  after-append :
      (o : Outcome) (more more' : Parsed)
      → ((more.result ≡ indeterminate) → more' ≡ parse more.parser more.builder ys)
      → (after o xs more).result ≡ indeterminate
      → after o (xs ++ ys) more' ≡ parse (after o xs more).parser (after o xs more).builder ys
  unfolding after
  after-append (indeterminate, p, req) more more' ih h = ih h
  after-append (bad, p, req) more more' ih h = cc
  after-append (good, p, req) more more' ih h = ground arith

  after-append_good :
      (o : Outcome) (more more' : Parsed)
      → (more.result ≡ good → more'.result ≡ bad)
      → ys ≢ []
      → (after o xs more).result ≡ good
      → (after o (xs ++ ys) more').result ≡ bad
  unfolding after
  after-append_good (indeterminate, p, req) more more' ih ne h = ih h
  after-append_good (bad, p, req) more more' ih ne h = cc
  after-append_good (good, p, req) more more' ih ne h = ground arith

-- Bytes that leave the parser wanting more can be parsed ahead of the others: the parser goes on
-- from the state that they leave as if all the bytes had come at once.
pub parse-append :
    (xs ys : Bytes) (p : RequestParser) (req : RequestBuilder)
    → (parse p req xs).result ≡ indeterminate
    → parse p req (xs ++ ys) ≡ parse (parse p req xs).parser (parse p req xs).builder ys
unfolding parse
parse-append [] ys p req h = refl
parse-append (x ∷ xs) ys p req h =
    let o = consume p req x in
    after-append xs ys o (parse o.1 o.2 xs) (parse o.1 o.2 (xs ++ ys)) (parse-append xs ys o.1 o.2)
      h

-- A complete request with any byte behind it in the same input is a bad request.
pub parse-append_good :
    (xs ys : Bytes) (p : RequestParser) (req : RequestBuilder)
    → ys ≢ []
    → (parse p req xs).result ≡ good
    → (parse p req (xs ++ ys)).result ≡ bad
unfolding parse
parse-append_good [] ys p req ne h = cc
parse-append_good (x ∷ xs) ys p req ne h =
    let o = consume p req x in
    after-append_good xs ys o (parse o.1 o.2 xs) (parse o.1 o.2 (xs ++ ys))
      (parse-append_good xs ys o.1 o.2 ne) ne h

after-append_bad :
    (xs ys : Bytes) (o : Outcome) (more more' : Parsed)
    → (more.result ≡ bad → more'.result ≡ bad)
    → (after o xs more).result ≡ bad
    → (after o (xs ++ ys) more').result ≡ bad
unfolding after
after-append_bad xs ys (indeterminate, p, req) more more' ih h = ih h
after-append_bad xs ys (bad, p, req) more more' ih h = refl
after-append_bad [] [] (good, p, req) more more' ih h = h
after-append_bad [] (y ∷ ys) (good, p, req) more more' ih h = refl
after-append_bad (x ∷ xs) ys (good, p, req) more more' ih h = refl

-- A bad beginning makes the whole bad.
parse-append_bad :
    (xs ys : Bytes) (p : RequestParser) (req : RequestBuilder)
    → (parse p req xs).result ≡ bad
    → (parse p req (xs ++ ys)).result ≡ bad
unfolding parse
parse-append_bad [] ys p req h = cc
parse-append_bad (x ∷ xs) ys p req h =
    let o = consume p req x in
    after-append_bad xs ys o (parse o.1 o.2 xs) (parse o.1 o.2 (xs ++ ys))
      (parse-append_bad xs ys o.1 o.2) h

not_good_bad : (r : ResultType) → (r ≡ good → ⊥) → (r ≡ bad → ⊥) → r ≡ indeterminate
not_good_bad good f g = absurd (f refl)
not_good_bad bad f g = absurd (g refl)
not_good_bad indeterminate f g = refl

-- A part of an accepted request leaves the parser wanting more.
pub parse-append_part :
    (xs ys : Bytes) (p : RequestParser) (req : RequestBuilder)
    → ys ≢ []
    → (parse p req (xs ++ ys)).result ≡ good
    → (parse p req xs).result ≡ indeterminate
parse-append_part xs ys p req ne h =
    not_good_bad _ (λ e. let k = parse-append_good xs ys p req ne e in cc)
      (λ e. let k = parse-append_bad xs ys p req e in cc)

step-fullmessage :
    (s : State) (p : RequestParser) (req : RequestBuilder) (c : ℕ)
    → (step s p req c).2.fullmessage ≡ req.fullmessage
unfolding step
step-fullmessage State.http_version_slash p req c = ground arith
step-fullmessage _ p req c = ground arith

consume-fullmessage :
    (p : RequestParser) (req : RequestBuilder) (c : ℕ)
    → (consume p req c).2.fullmessage ≡ req.fullmessage ++ c ∷ []
unfolding consume
consume-fullmessage p req c = step-fullmessage p.state p _ c

after-fullmessage :
    (o : Outcome) (xs : Bytes) (more : Parsed)
    → more.builder.fullmessage ++ more.rest ≡ o.2.fullmessage ++ xs
    → (after o xs more).builder.fullmessage ++ (after o xs more).rest ≡ o.2.fullmessage ++ xs
unfolding after
after-fullmessage (indeterminate, p, req) xs more ih = ih
after-fullmessage (bad, p, req) xs more ih = refl
after-fullmessage (good, p, req) [] more ih = refl
after-fullmessage (good, p, req) (x ∷ xs) more ih = refl

-- `fullmessage` holds what was there before, then the bytes consumed, and the iterator that `parse`
-- returns stands at the rest of the input.
pub parse-fullmessage :
    (s : Bytes) (p : RequestParser) (req : RequestBuilder)
    → (parse p req s).builder.fullmessage ++ (parse p req s).rest ≡ req.fullmessage ++ s
unfolding parse
parse-fullmessage [] p req = refl
parse-fullmessage (x ∷ xs) p req =
    let o = consume p req x in
    after-fullmessage o xs (parse o.1 o.2 xs) (parse-fullmessage xs o.1 o.2)
    ∙ ap (λ m. m ++ xs) (consume-fullmessage p req x)
    ∙ append_assoc req.fullmessage (x ∷ []) xs
