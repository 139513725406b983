-- ===== src/Handlers/Proxy/Cuts.antt =====
-- `read_response` of src/proxy_request_handler.cc, however the network cuts a response into reads.
use bigtable_postgres_blog_s.Base.{
  ℕ, Bool, true, false, ◌&&◌, and-parts, List, [], ◌∷◌, ◌++◌, none, some, ◌≡◌, ◌≢◌, ◌⊎◌, inl, inr,
  refl, ap, sym, ◌∙◌, append-nil, append_assoc,
}
use bigtable_postgres_blog_s.Base.Text.{Bytes}
use bigtable_postgres_blog_s.Handlers.Proxy.Reads.{after_parse, read_loop, read_response}
use bigtable_postgres_blog_s.Http.{ResponseBuilder, build_response}
use bigtable_postgres_blog_s.ResponseParser.Chunks.{parse-append_reads}
use bigtable_postgres_blog_s.ResponseParser.{
  ResultType, good, bad, indeterminate, State, parse, parse_from, new_state,
}

abbrev waits : ResultType → Bool
waits indeterminate = true
waits good = false
waits bad = false

abbrev accepts : ResultType → Bool
accepts good = true
accepts indeterminate = false
accepts bad = false

-- The parser wants more after each byte but the last, and accepts with the last.
unfoldable pub is_whole : State → ResponseBuilder → Bytes → Bool
is_whole s res [] = false
is_whole s res (c ∷ []) = accepts (parse s res (c ∷ [])).result
is_whole s res (c ∷ d ∷ cs) =
    let p = parse s res (c ∷ []) in waits p.result && is_whole p.state p.builder (d ∷ cs)

-- What the reads bring, in one piece.
abbrev pub joined : List Bytes → Bytes
joined [] = []
joined (r ∷ reads) = r ++ joined reads

nil_or_not : (xs : Bytes) → (xs ≡ []) ⊎ (xs ≢ [])
nil_or_not [] = inl refl
nil_or_not (x ∷ xs) = inr (λ e. cc)

append_nil_right : (xs ys : Bytes) → xs ++ ys ≡ [] → ys ≡ []
append_nil_right [] ys e = e
append_nil_right (x ∷ xs) ys e = cc

waits_iff : (r : ResultType) → waits r ≡ true → r ≡ indeterminate
waits_iff good h = cc
waits_iff bad h = cc
waits_iff indeterminate h = refl

accepts_iff : (r : ResultType) → accepts r ≡ true → r ≡ good
accepts_iff good h = refl
accepts_iff bad h = cc
accepts_iff indeterminate h = cc

parse_nil :
    (s : State) (res : ResponseBuilder)
    → (parse s res []) ≡ record { result = indeterminate; rest = []; state = s; builder = res }
unfolding parse parse_from
parse_nil s res = refl

not_whole_nil : (s : State) (res : ResponseBuilder) → is_whole s res [] ≡ true → ⊥
unfolding is_whole
not_whole_nil s res h = cc

is_whole-cons :
    (x y : ℕ) (ys : Bytes) (s : State) (res : ResponseBuilder)
    → is_whole s res (x ∷ y ∷ ys) ≡ true
    → ((parse s res (x ∷ [])).result ≡ indeterminate)
      × (is_whole (parse s res (x ∷ [])).state (parse s res (x ∷ [])).builder (y ∷ ys) ≡ true)
unfolding is_whole
is_whole-cons x y ys s res h =
    let (first, others) = and-parts _ _ h in (waits_iff (parse s res (x ∷ [])).result first, others)

-- A part of a whole response leaves the parser waiting for what is left of it.
is_whole-append :
    (xs ys : Bytes) (s : State) (res : ResponseBuilder)
    → ys ≢ []
    → is_whole s res (xs ++ ys) ≡ true
    → ((parse s res xs).result ≡ indeterminate)
      × (is_whole (parse s res xs).state (parse s res xs).builder ys ≡ true)
is_whole-append [] ys s res ne h = rw (parse_nil s res) (refl, h)
is_whole-append (x ∷ []) [] s res ne h = absurd (ne refl)
is_whole-append (x ∷ []) (y ∷ ys) s res ne h = is_whole-cons x y ys s res h
is_whole-append (x ∷ z ∷ xs) ys s res ne h =
    let (first, others) = is_whole-cons x z (xs ++ ys) s res h in
    let p = parse s res (x ∷ []) in
    rw (parse-append_reads (x ∷ []) (z ∷ xs) s res first)
      (is_whole-append (z ∷ xs) ys p.state p.builder ne others)

parse_whole :
    (xs : Bytes) (s : State) (res : ResponseBuilder)
    → is_whole s res xs ≡ true
    → (parse s res xs).result ≡ good
parse_whole [] s res h = absurd (not_whole_nil s res h)
parse_whole (x ∷ []) s res h = accepts_iff (parse s res (x ∷ [])).result (unfold is_whole in h)
parse_whole (x ∷ y ∷ xs) s res h =
    let (first, others) = is_whole-cons x y xs s res h in
    let p = parse s res (x ∷ []) in
    rw (parse-append_reads (x ∷ []) (y ∷ xs) s res first)
      (parse_whole (y ∷ xs) p.state p.builder others)

pub read_loop-good :
    (r : Bytes) (reads : List Bytes) (s : State) (res : ResponseBuilder)
    → (parse s res r).result ≡ good
    → read_loop (r ∷ reads) s res ≡ some (build_response (parse s res r).builder)
unfolding read_loop after_parse
read_loop-good r reads s res h = rw h

read_loop-waits :
    (r : Bytes) (reads : List Bytes) (s : State) (res : ResponseBuilder)
    → (parse s res r).result ≡ indeterminate
    → read_loop (r ∷ reads) s res ≡ read_loop reads (parse s res r).state (parse s res r).builder
unfolding read_loop after_parse
read_loop-waits r reads s res h = rw h

read_loop-whole :
    (reads more : List Bytes) (s : State) (res : ResponseBuilder)
    → is_whole s res (joined reads) ≡ true
    → read_loop (reads ++ more) s res ≡ some (build_response (parse s res (joined reads)).builder)
read_loop-whole [] more s res h = absurd (not_whole_nil s res h)
read_loop-whole (r ∷ reads) more s res h = elim (nil_or_not (joined reads)) [
  | inl last ↦
      let e = ap (λ t. r ++ t) last ∙ append-nil r in
      let done = ap (is_whole s res) (sym e) ∙ h in
      read_loop-good r (reads ++ more) s res (parse_whole r s res done)
      ∙ ap (λ t. some (build_response (parse s res t).builder)) (sym e)
  | inr ne ↦
      let (first, others) = is_whole-append r (joined reads) s res ne h in
      let p = parse s res r in
      read_loop-waits r (reads ++ more) s res first
      ∙ read_loop-whole reads more p.state p.builder others
      ∙ ap (λ k. some (build_response k.builder))
          (sym (parse-append_reads r (joined reads) s res first))
]

read_loop-short :
    (reads : List Bytes) (rest : Bytes) (s : State) (res : ResponseBuilder)
    → rest ≢ []
    → is_whole s res (joined reads ++ rest) ≡ true
    → read_loop reads s res ≡ none
read_loop-short [] rest s res ne h = unfold read_loop in refl
read_loop-short (r ∷ reads) rest s res ne h =
    let (first, others) =
      is_whole-append r (joined reads ++ rest) s res
        (λ e. ne (append_nil_right (joined reads) rest e))
        (ap (is_whole s res) (sym (append_assoc r (joined reads) rest)) ∙ h) in
    let p = parse s res r in
    read_loop-waits r reads s res first ∙ read_loop-short reads rest p.state p.builder ne others

-- However the network cuts a whole response into reads, and whatever more there is to read, it is
-- read as if it had come at once. A whole response is one that the parser accepts with its last byte
-- and not before.
pub read_response-joined :
    (reads more : List Bytes) (res : ResponseBuilder)
    → is_whole new_state res (joined reads) ≡ true
    → read_response res (reads ++ more)
      ≡ some (build_response (parse new_state res (joined reads)).builder)
unfolding read_response
read_response-joined reads more res h = read_loop-whole reads more new_state res h

-- Reads that end before the last byte of a whole response are an error.
pub read_response_short :
    (reads : List Bytes) (rest : Bytes) (res : ResponseBuilder)
    → rest ≢ []
    → is_whole new_state res (joined reads ++ rest) ≡ true
    → read_response res reads ≡ none
unfolding read_response
read_response_short reads rest res ne h = read_loop-short reads rest new_state res ne h
