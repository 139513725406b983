-- ===== src/Session/Delivery.antt =====
-- A request that reaches a session of src/session.cc in several reads, with other sessions between.
use bigtable_postgres_blog_s.Base.{
  false, List, [], ◌∷◌, ◌++◌, some, ◌≡◌, ◌≢◌, refl, ap, sym, ◌∙◌, append-nil, append_assoc,
}
use mathlib.Core.Path.{subst}
use bigtable_postgres_blog_s.Base.Int.{ℤ}
use bigtable_postgres_blog_s.Base.Text.{Bytes}
use bigtable_postgres_blog_s.Dispatcher.{RequestDispatcher}
use bigtable_postgres_blog_s.Handlers.{World}
use bigtable_postgres_blog_s.Http.{MethodEnum, Response, RequestBuilder, build_request}
use bigtable_postgres_blog_s.RequestParser.Chunks.{parse-append, parse-append_part}
use bigtable_postgres_blog_s.RequestParser.RoundTrip.{
  Message, IsMessage, print, built, any_keep_alive, parse-print,
}
use bigtable_postgres_blog_s.RequestParser.{indeterminate, good, parse, new_parser, new_builder}
use bigtable_postgres_blog_s.Session.Reads.{waiting}
use bigtable_postgres_blog_s.Session.Serve.{sent, handle_read-print}
use bigtable_postgres_blog_s.Session.{
  Session, read, Connection, answer, respond_to, handle_read, start,
}

-- A read, with the dispatcher and the state that the other sessions have left before it.
pub record Round (S : Type 0) : Type 0 where
  pub dispatcher : RequestDispatcher
  pub state : S
  pub bytes : Bytes

abbrev pub delivered : {S : Type 0} → List (Round S) → Bytes
delivered [] = []
delivered (r ∷ rounds) = r.bytes ++ delivered rounds

append_ne_nil : (xs ys : Bytes) → ys ≢ [] → xs ++ ys ≢ []
append_ne_nil [] ys ne = ne
append_ne_nil (x ∷ xs) ys ne = λ e. cc

module _ {S : Type 0} (world : World S) (unset : MethodEnum) where
  -- The session at a read, and one that waits for the next read after it.
  abbrev pub at_round : Connection S → Round S → Connection S
  at_round c r = record c { dispatcher = r.dispatcher; state = r.state }

  abbrev pub waits_at : Session → Round S → Connection S
  waits_at session r = record {
    session = session;
    dispatcher = r.dispatcher;
    state = r.state;
    pending = read;
  }

  -- One `handle_read` after the other, from the first session to the second: each waits for the next
  -- read, and leaves the dispatcher and the state as the other sessions have left them.
  abbrev pub Waits : List (Round S) → Connection S → Connection S → Type 0
  Waits [] c c' = c ≡ c'
  Waits (r ∷ rounds) c c' =
      (session : Session) × (handle_read world unset false r.bytes (at_round c r)
        ≡ some (waits_at session r))
      × Waits rounds (waits_at session r) c'

  -- The session after the bytes `bs`, which are no complete request.
  abbrev holding : RequestBuilder → Bytes → Session
  holding req bs = record {
    parser = (parse new_parser req bs).parser;
    builder = (parse new_parser req bs).builder;
  }

  abbrev connection : Session → RequestDispatcher → S → Connection S
  connection session rd s = record { session = session; dispatcher = rd; state = s; pending = read }

  module _ (req : RequestBuilder) (bs xs : Bytes)
      (left : (parse new_parser req bs).result ≡ indeterminate) where
    at_once :
        parse new_parser req (bs ++ xs)
        ≡ parse (parse new_parser req bs).parser (parse new_parser req bs).builder xs
    at_once = parse-append bs xs new_parser req left

    next_read :
        (rd : RequestDispatcher) (s : S)
        → (parse new_parser req (bs ++ xs)).result ≡ indeterminate
        → handle_read world unset false xs (connection (holding req bs) rd s)
          ≡ some (connection (holding req (bs ++ xs)) rd s)
    next_read rd s more =
        waiting world unset xs (connection (holding req bs) rd s)
          (ap (λ p. p.result) (sym at_once) ∙ more)
        ∙ ap (λ p. some (connection (record { parser = p.parser; builder = p.builder }) rd s))
            (sym at_once)

    last_read :
        (rd : RequestDispatcher) (s : S)
        → handle_read world unset false xs (connection (holding req bs) rd s)
          ≡ handle_read world unset false (bs ++ xs) (start req rd s)
    unfolding handle_read start
    last_read rd s =
        ap
          (λ p.
            respond_to world unset p.result (record { parser = p.parser; builder = p.builder }) rd
              s)
          (sym at_once)

  started_lem :
      (req : RequestBuilder) (rd : RequestDispatcher) (s : S)
      → start req rd s ≡ connection (holding req []) rd s
  unfolding start parse
  started_lem req rd s = refl

  waits_lem :
      (rounds : List (Round S)) (bs xs : Bytes) (req : RequestBuilder) (rd0 : RequestDispatcher)
      (s0 : S)
      → xs ≢ []
      → (parse new_parser req (bs ++ (delivered rounds ++ xs))).result ≡ good
      → (rd : RequestDispatcher) × (s : S) × Waits rounds
          (connection (holding req bs) rd0 s0)
          (connection (holding req (bs ++ delivered rounds)) rd s)
  waits_lem [] bs xs req rd0 s0 ne whole =
      (rd0, s0, ap (λ t. connection (holding req t) rd0 s0) (sym (append-nil bs)))
  waits_lem (r ∷ rounds) bs xs req rd0 s0 ne whole =
      let rest = delivered rounds ++ xs in
      let rest_ne = append_ne_nil (delivered rounds) xs ne in
      let assoc : (bs ++ r.bytes) ++ rest ≡ bs ++ (delivered (r ∷ rounds) ++ xs) =
        simp append_assoc in
      let whole' = ap (λ t. (parse new_parser req t).result) assoc ∙ whole in
      let left =
        parse-append_part bs (r.bytes ++ rest) new_parser req (append_ne_nil r.bytes rest rest_ne) (
          ap (λ t. (parse new_parser req t).result) (sym (append_assoc bs r.bytes rest))
          ∙ whole') in
      let more = parse-append_part (bs ++ r.bytes) rest new_parser req rest_ne whole' in
      let (rd, s, waits) = waits_lem rounds (bs ++ r.bytes) xs req r.dispatcher r.state ne whole' in
      (
        rd,
        s,
        (
          holding req (bs ++ r.bytes),
          next_read req bs r.bytes left r.dispatcher r.state more,
          subst
              (λ t.
                Waits rounds (connection (holding req (bs ++ r.bytes)) r.dispatcher r.state)
                  (connection (holding req t) rd s))
              (append_assoc bs r.bytes (delivered rounds)) waits,
        ),
      )

  -- A well-formed request is answered however it is cut into reads and whatever other sessions do
  -- before each: the reads before the last one, which brings a byte at least, only wait for the next
  -- read and leave the dispatcher and the state as they are, and the last one writes the answer of the
  -- handler, if the handler gives one at that time.
  pub deliver-print :
      (major minor size : ℤ) (m : Message) (rounds : List (Round S)) (last : Round S)
      (rd0 : RequestDispatcher) (s0 : S) (response : Response) (rd' : RequestDispatcher) (s' : S)
      → IsMessage m
      → delivered rounds ++ last.bytes ≡ print m
      → last.bytes ≢ []
      → answer world unset (build_request unset (built size m)) last.dispatcher last.state
        ≡ some (response, rd', s')
      → (c : Connection S) × (c' : Connection S) × Waits rounds
          (start (new_builder major minor size) rd0 s0)
          c
        × (c.pending ≡ read)
        × (handle_read world unset false last.bytes (at_round c last) ≡ some c')
        × (c'.pending ≡ sent (any_keep_alive m.headers) response)
        × (c'.dispatcher ≡ rd')
        × (c'.state ≡ s')
  deliver-print major minor size m rounds last rd0 s0 response rd' s' i cut ne e =
      let req = new_builder major minor size in
      let bs = delivered rounds in
      let whole =
        ap (λ t. (parse new_parser req t).result) cut ∙ (parse-print major minor size m i).0 in
      let (rd, s, waits) = waits_lem rounds [] last.bytes req rd0 s0 ne whole in
      let left = parse-append_part bs last.bytes new_parser req ne whole in
      let run =
        last_read req bs last.bytes left last.dispatcher last.state
        ∙ ap (λ t. handle_read world unset false t (start req last.dispatcher last.state)) cut in
      let (c', done, pending, kept, state_kept) =
        handle_read-print world unset last.dispatcher last.state major minor size m response rd' s'
          i e in
      (
        connection (holding req bs) rd s,
        c',
        subst (λ c. Waits rounds c (connection (holding req bs) rd s))
            (sym (started_lem req rd0 s0)) waits,
        refl,
        run ∙ done,
        pending,
        kept,
        state_kept,
      )
