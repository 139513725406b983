-- ===== src/ResponseParser/Status.antt =====
-- The status code of an accepted response has three digits and one of the five classes.
use bigtable_postgres_blog_s.Base.{ℕ, ◌+◌, ◌-◌, ◌*◌, ◌≤◌, [], ◌∷◌, ◌≡◌, arith}
use bigtable_postgres_blog_s.Base.Int.{ℤ, pos, negsuc, mul10_add, mul10_add_small}
use bigtable_postgres_blog_s.Base.Text.{Bytes}
use bigtable_postgres_blog_s.Http.{is_digit, ResponseBuilder}
use bigtable_postgres_blog_s.ResponseParser.{
  ResultType, good, bad, indeterminate, State, Outcome, step, consume, after, Parsed, parse_from,
  parse, new_state, end_header,
}

abbrev pub InRange : ℕ → ℕ → ℤ → Type 0
InRange lo hi (pos n) = (lo ≤ n) × (n ≤ hi)
InRange lo hi (negsuc n) = ⊥

mul10_add-InRange :
    (lo hi d : ℕ) (z : ℤ)
    → InRange lo hi z
    → hi ≤ 59
    → d ≤ 9
    → InRange (lo * 10) (hi * 10 + 9) (mul10_add z d)
mul10_add-InRange lo hi d (pos n) (l, h) small digit =
    rw (mul10_add_small n d (omega arith)) (omega arith, omega arith)
mul10_add-InRange lo hi d (negsuc n) r small digit = absurd r

-- What each state knows of the code that is read.
abbrev Coded : State → ℤ → Type 0
Coded State.http_version_h z = Unit
Coded State.http_version_t_1 z = Unit
Coded State.http_version_t_2 z = Unit
Coded State.http_version_p z = Unit
Coded State.http_version_slash z = Unit
Coded State.http_version_major_start z = Unit
Coded State.http_version_major z = Unit
Coded State.http_version_minor_start z = Unit
Coded State.http_version_minor z = Unit
Coded State.status_code_1 z = Unit
Coded State.status_code_2 z = InRange 1 5 z
Coded State.status_code_3 z = InRange 10 59 z
Coded _ z = InRange 100 599 z

abbrev CodedNext : Outcome → Type 0
CodedNext (good, s, res) = Coded s res.code × InRange 100 599 res.code
CodedNext (_, s, res) = Coded s res.code

end_header-Coded : (res : ResponseBuilder) → InRange 100 599 res.code → CodedNext (end_header res)
unfolding end_header
end_header-Coded res f = ground arith

step-Coded :
    (s : State) (res : ResponseBuilder) (c : ℕ) → Coded s res.code → CodedNext (step s res c)
unfolding step is_digit
step-Coded State.status_code_2 res c f = ground (arith, mul10_add-InRange 1 5 (c - b'0') res.code f)
step-Coded State.status_code_3 res c f =
    ground (arith, mul10_add-InRange 10 59 (c - b'0') res.code f)
step-Coded State.header_value res c f = ground (arith, end_header-Coded res f)
step-Coded _ res c f = ground arith

after-Coded :
    (o : Outcome) (xs : Bytes) (more : Parsed)
    → CodedNext o
    → (Coded o.1 o.2.code
        → (o.0 ≡ good → InRange 100 599 o.2.code)
        → more.result ≡ good
        → InRange 100 599 more.builder.code)
    → (after o xs more).result ≡ good
    → InRange 100 599 (after o xs more).builder.code
unfolding after
after-Coded (indeterminate, s, res) xs more f ih h = ih f (λ e. cc) h
after-Coded (bad, s, res) xs more f ih h = cc
after-Coded (good, s, res) xs more (f, g) ih h = ground (arith, ih f (λ e. g))

parse_from-Coded :
    (xs : Bytes) (last : ResultType) (s : State) (res : ResponseBuilder)
    → Coded s res.code
    → (last ≡ good → InRange 100 599 res.code)
    → (parse_from last s res xs).result ≡ good
    → InRange 100 599 (parse_from last s res xs).builder.code
unfolding parse_from consume
parse_from-Coded [] last s res f g h = g h
parse_from-Coded (x ∷ xs) last s res f g h =
    let o = consume s res x in
    after-Coded o xs (parse_from o.0 o.1 o.2 xs) (step-Coded s _ x f)
      (parse_from-Coded xs o.0 o.1 o.2) h

-- Whatever the builder holds to begin with, an accepted response has a code from 100 to 599.
pub parse-InRange :
    (xs : Bytes) (res : ResponseBuilder)
    → (parse new_state res xs).result ≡ good
    → InRange 100 599 (parse new_state res xs).builder.code
unfolding parse
parse-InRange xs res h = parse_from-Coded xs indeterminate new_state res tt (λ e. cc) h
