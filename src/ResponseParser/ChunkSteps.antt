-- ===== src/ResponseParser/ChunkSteps.antt =====
-- The parts of one chunk: the digits of its size, its bytes and its line ends.
use bigtable_postgres_blog_s.Base.{
  ℕ, suc, true, [], ◌∷◌, ◌++◌, some, ◌≡◌, ◌≢◌, refl, ◌∙◌, arith, append-nil, append_assoc, All,
  length,
}
use bigtable_postgres_blog_s.Base.Int.{pos, negsuc, pred_int}
use bigtable_postgres_blog_s.Base.Text.Decimal.{stoi_base}
use bigtable_postgres_blog_s.Base.Text.{Bytes, codes}
use bigtable_postgres_blog_s.Http.{is_hex, ResponseBuilder}
use bigtable_postgres_blog_s.ResponseParser.{
  indeterminate, State, step, consume, after, parse_from, parse, step_chunk, step_chunk_size,
  end_chunk_size,
}

abbrev pub took : Bytes → ResponseBuilder → ResponseBuilder
took xs res = record res { fullmessage = res.fullmessage ++ xs }

pub parse-consume :
    (c : ℕ) (rest : Bytes) (s s' : State) (res res' : ResponseBuilder)
    → consume s res c ≡ (indeterminate, s', res')
    → parse s res (c ∷ rest) ≡ parse s' res' rest
unfolding parse parse_from after
parse-consume c rest s s' res res' h = rw h

-- The digits of a chunk's size `n`.
pub record IsSize (digits : Bytes) (n : ℕ) : Type 0 where
  pub hex : All (λ c. is_hex c ≡ true) digits
  pub ne_nil : digits ≢ []
  pub value : stoi_base 16 digits ≡ some (pos n)

consume_size_start :
    (c : ℕ) (res : ResponseBuilder)
    → is_hex c ≡ true
    → consume State.chunk_size_start res c
      ≡ (indeterminate, State.chunk_size, took (c ∷ []) (record res { chunksizehex = c ∷ [] }))
unfolding consume step
consume_size_start c res h = ground arith

consume-size :
    (c : ℕ) (ds : Bytes) (res : ResponseBuilder)
    → is_hex c ≡ true
    → consume State.chunk_size (record res { chunksizehex = ds }) c ≡ (
      indeterminate,
      State.chunk_size,
      took (c ∷ []) (record res { chunksizehex = ds ++ c ∷ [] }),
    )
unfolding consume step step_chunk_size
consume-size c ds res h = ground arith

parse-size :
    (xs rest ds : Bytes) (res : ResponseBuilder)
    → All (λ c. is_hex c ≡ true) xs
    → parse State.chunk_size (record res { chunksizehex = ds }) (xs ++ rest)
      ≡ parse State.chunk_size (took xs (record res { chunksizehex = ds ++ xs })) rest
parse-size [] rest ds res t = simp append-nil
parse-size (c ∷ xs) rest ds res (t, ts) =
    parse-consume c (xs ++ rest) _ _ _ _ (consume-size c ds res t)
    ∙ parse-size xs rest (ds ++ c ∷ []) (took (c ∷ []) res) ts
    ∙ simp append_assoc

-- From the start of a chunk to the end of its size.
pub parse_size_line :
    (digits rest : Bytes) (n : ℕ) (res : ResponseBuilder)
    → IsSize digits n
    → parse State.chunk_size_start res (digits ++ rest)
      ≡ parse State.chunk_size (took digits (record res { chunksizehex = digits })) rest
parse_size_line [] rest n res i = absurd (i.ne_nil refl)
parse_size_line (c ∷ xs) rest n res i =
    parse-consume c (xs ++ rest) _ _ _ _ (consume_size_start c res i.hex.0)
    ∙ parse-size xs rest (c ∷ []) (took (c ∷ []) res) i.hex.1
    ∙ simp append_assoc

pub consume_size_end :
    (digits : Bytes) (n : ℕ) (res : ResponseBuilder)
    → stoi_base 16 digits ≡ some (pos (suc n))
    → consume State.chunk_size (record res { chunksizehex = digits }) b'\r' ≡ (
      indeterminate,
      State.expecting_newline_4,
      took (b'\r' ∷ []) (record res { chunksizehex = digits; chunksize = pos (suc n) }),
    )
unfolding consume step step_chunk_size end_chunk_size is_hex
consume_size_end digits n res h = ground arith

consume-chunk :
    (c n : ℕ) (res : ResponseBuilder)
    → consume State.expecting_chunk (record res { chunksize = pos (suc n) }) c ≡ (
      indeterminate,
      State.expecting_chunk,
      took (c ∷ []) (record res { chunksize = pos n; body = res.body ++ c ∷ [] }),
    )
unfolding consume step step_chunk pred_int
consume-chunk c n res = ground arith

pub parse-chunk :
    (b rest : Bytes) (res : ResponseBuilder)
    → parse State.expecting_chunk (record res { chunksize = pos (length b) }) (b ++ rest)
      ≡ parse State.expecting_chunk
          (took b (record res { chunksize = pos 0; body = res.body ++ b }))
          rest
parse-chunk [] rest res = simp append-nil
parse-chunk (c ∷ b) rest res =
    parse-consume c (b ++ rest) _ _ _ _ (consume-chunk c (length b) res)
    ∙ parse-chunk b rest (took (c ∷ []) (record res { body = res.body ++ c ∷ [] }))
    ∙ simp append_assoc

pub parse_chunk_end :
    (rest : Bytes) (res : ResponseBuilder)
    → parse State.expecting_chunk (record res { chunksize = pos 0 }) (codes "\r\n" ++ rest)
      ≡ parse State.chunk_size_start
          (took (codes "\r\n") (record res { chunksize = negsuc 0 }))
          rest
unfolding parse parse_from step step_chunk pred_int
parse_chunk_end rest res = simp append_assoc

pub parse-newline_4 :
    (rest : Bytes) (res : ResponseBuilder)
    → parse State.expecting_newline_4 res (b'\n' ∷ rest)
      ≡ parse State.expecting_chunk (took (b'\n' ∷ []) res) rest
unfolding parse parse_from step
parse-newline_4 rest res = refl
