-- ===== src/ResponseParser/Body.antt =====
-- A body of announced length, alone in the input and with bytes behind it.
use bigtable_postgres_blog_s.Base.{
  ℕ, suc, ◌+◌, ◌≤◌, false, [], ◌∷◌, ◌++◌, ◌≡◌, refl, ◌∙◌, ap, append-nil, arith, append_assoc,
  length,
}
use bigtable_postgres_blog_s.Base.Int.{ℤ, pos, negsuc, pred_int, int_limit}
use bigtable_postgres_blog_s.Base.Text.{Bytes}
use bigtable_postgres_blog_s.Http.{ResponseBuilder}
use bigtable_postgres_blog_s.ResponseParser.{
  ResultType, good, indeterminate, State, step, after, parse_from, parse, step_body,
}

-- The builder with a body byte more, and `left` to come.
abbrev with_byte : ℕ → ℤ → ResponseBuilder → ResponseBuilder
with_byte c left res = record res {
  contentsize = left;
  body = res.body ++ c ∷ [];
  fullmessage = res.fullmessage ++ c ∷ [];
}

-- One byte with more to come, and the last one; the loop goes on after both.
parse_byte :
    (c n : ℕ) (rest : Bytes) (last : ResultType) (res : ResponseBuilder)
    → parse_from last State.expecting_body
        (record res { contentsize = pos (suc (suc n)) })
        (c ∷ rest)
      ≡ parse_from indeterminate State.expecting_body (with_byte c (pos (suc n)) res) rest
unfolding parse_from after step step_body pred_int
parse_byte c n rest last res = refl

parse_last_byte :
    (c : ℕ) (rest : Bytes) (last : ResultType) (res : ResponseBuilder)
    → res.chunked ≡ false
    → parse_from last State.expecting_body (record res { contentsize = pos 1 }) (c ∷ rest)
      ≡ parse_from good State.expecting_body (with_byte c (pos 0) res) rest
unfolding parse_from after step step_body pred_int
parse_last_byte c rest last res h = ground arith

parse_from-body :
    (c : ℕ) (b rest : Bytes) (last : ResultType) (res : ResponseBuilder)
    → res.chunked ≡ false
    → parse_from last State.expecting_body
        (record res { contentsize = pos (suc (length b)) })
        (c ∷ (b ++ rest))
      ≡ parse_from good State.expecting_body
          (record res {
            contentsize = pos 0;
            body = res.body ++ c ∷ b;
            fullmessage = res.fullmessage ++ c ∷ b;
          })
          rest
parse_from-body c [] rest last res h = parse_last_byte c rest last res h
parse_from-body c (d ∷ b) rest last res h =
    parse_byte c (length b) (d ∷ (b ++ rest)) last res
    ∙ parse_from-body d b rest indeterminate (with_byte c (pos (suc (length b))) res) h
    ∙ simp append_assoc

-- Bytes past the end take the counter below zero.
parse_past :
    (c n : ℕ) (rest : Bytes) (last : ResultType) (res : ResponseBuilder)
    → suc (suc n) ≤ int_limit
    → parse_from last State.expecting_body (record res { contentsize = negsuc n }) (c ∷ rest)
      ≡ parse_from indeterminate State.expecting_body (with_byte c (negsuc (suc n)) res) rest
unfolding parse_from after step step_body pred_int
parse_past c n rest last res h = ground arith

parse_first_past :
    (c : ℕ) (rest : Bytes) (last : ResultType) (res : ResponseBuilder)
    → parse_from last State.expecting_body (record res { contentsize = pos 0 }) (c ∷ rest)
      ≡ parse_from indeterminate State.expecting_body (with_byte c (negsuc 0) res) rest
unfolding parse_from after step step_body pred_int
parse_first_past c rest last res = refl

parse_from-past :
    (extra : Bytes) (n : ℕ) (res : ResponseBuilder)
    → suc n + length extra ≤ int_limit
    → (parse_from indeterminate State.expecting_body
        (record res { contentsize = negsuc n })
        extra).result
      ≡ indeterminate
parse_from-past [] n res h = unfold parse_from in refl
parse_from-past (c ∷ extra) n res h =
    rw (parse_past c n extra indeterminate res (omega arith))
      (parse_from-past extra (suc n) (with_byte c (negsuc (suc n)) res) (omega arith))

parse_from_end :
    (last : ResultType) (s : State) (res : ResponseBuilder)
    → parse_from last s res [] ≡ record { result = last; rest = []; state = s; builder = res }
unfolding parse_from
parse_from_end last s res = refl

parse_from_exact :
    (c : ℕ) (b : Bytes) (res : ResponseBuilder)
    → res.chunked ≡ false
    → parse_from indeterminate State.expecting_body
        (record res { contentsize = pos (suc (length b)) })
        (c ∷ b)
      ≡ record {
        result = good;
        rest = [];
        state = State.expecting_body;
        builder = record res {
          contentsize = pos 0;
          body = res.body ++ c ∷ b;
          fullmessage = res.fullmessage ++ c ∷ b;
        };
      }
parse_from_exact c b res h =
    (simp append-nil at (parse_from-body c b [] indeterminate res h))
    ∙ parse_from_end good State.expecting_body _

-- A body that is not chunked and as long as announced is accepted, and stands whole in the builder.
pub parse_exact_body :
    (c : ℕ) (b : Bytes) (res : ResponseBuilder)
    → res.chunked ≡ false
    → ((parse State.expecting_body
          (record res { contentsize = pos (suc (length b)) })
          (c ∷ b)).result
        ≡ good)
      × ((parse State.expecting_body
            (record res { contentsize = pos (suc (length b)) })
            (c ∷ b)).builder.body
          ≡ res.body ++ c ∷ b)
unfolding parse
parse_exact_body c b res h =
    let e = parse_from_exact c b res h in (ap (λ r. r.result) e, ap (λ r. r.builder.body) e)

-- The same body with up to 2 ^ 31 bytes behind it in the same input is not accepted: the parser
-- goes past its end, and wants more.
pub parse_body_extra :
    (c d : ℕ) (b extra : Bytes) (res : ResponseBuilder)
    → res.chunked ≡ false
    → suc (length extra) ≤ int_limit
    → (parse State.expecting_body
        (record res { contentsize = pos (suc (length b)) })
        (c ∷ (b ++ d ∷ extra))).result
      ≡ indeterminate
unfolding parse
parse_body_extra c d b extra res h k =
    let r = record res { body = res.body ++ c ∷ b; fullmessage = res.fullmessage ++ c ∷ b } in
    rw (parse_from-body c b (d ∷ extra) indeterminate res h ∙ parse_first_past d extra good r)
      (parse_from-past extra 0 (with_byte d (negsuc 0) r) (omega arith))
