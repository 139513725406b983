-- ===== src/Session/Reach.antt =====
-- A session of src/session.cc over any reads and writes, while others change what they share.
use bigtable_postgres_blog_s.Base.{false, List, [], ◌++◌, some, ◌≡◌, refl, ap, sym, ◌∙◌}
use bigtable_postgres_blog_s.Base.Int.{ℤ, pos}
use bigtable_postgres_blog_s.Base.Text.{Bytes}
use bigtable_postgres_blog_s.Dispatcher.{RequestDispatcher}
use bigtable_postgres_blog_s.Handlers.{World}
use bigtable_postgres_blog_s.Http.{MethodEnum}
use bigtable_postgres_blog_s.RequestParser.Chunks.{parse-append}
use bigtable_postgres_blog_s.RequestParser.Count.{reset-parse}
use bigtable_postgres_blog_s.RequestParser.{indeterminate, parse, reset, new_parser, new_builder}
use bigtable_postgres_blog_s.Session.ReadCases.{handle_read-read, handle_read-write}
use bigtable_postgres_blog_s.Session.{
  Session, read, write_then_read, Connection, respond_to, handle_read, handle_write, start,
}

module _ {S : Type 0} (world : World S) (unset : MethodEnum) where
  -- A session reached from a new one, and the bytes that it has read since its last answer. Other
  -- sessions change the dispatcher and the state between its handlers.
  pub data Reach : Connection S → Bytes → Type 0 where
    started :
        (major minor size : ℤ) (rd : RequestDispatcher) (s : S)
        → Reach (start (new_builder major minor size) rd s) []
    read_more :
        (c c' : Connection S) (bs xs : Bytes)
        → Reach c bs
        → c.pending ≡ read
        → handle_read world unset false xs c ≡ some c'
        → c'.pending ≡ read
        → Reach c' (bs ++ xs)
    answered :
        (c c' : Connection S) (bs xs : Bytes) (out : List Bytes)
        → Reach c bs
        → c.pending ≡ read
        → handle_read world unset false xs c ≡ some c'
        → c'.pending ≡ write_then_read out
        → Reach c' []
    written :
        (c : Connection S) (bs : Bytes) (out : List Bytes)
        → Reach c bs
        → c.pending ≡ write_then_read out
        → Reach (handle_write world unset false c) bs
    interleaved :
        (c : Connection S) (bs : Bytes) (rd : RequestDispatcher) (s : S)
        → Reach c bs
        → Reach (record c { dispatcher = rd; state = s }) bs

  -- The session holds what a new parser and a new builder hold after the bytes, which are no complete
  -- request.
  record Holds (session : Session) (bs : Bytes) : Type 0 where
    major : ℤ
    minor : ℤ
    size : ℤ
    parser : session.parser ≡ (parse new_parser (new_builder major minor size) bs).parser
    builder : session.builder ≡ (parse new_parser (new_builder major minor size) bs).builder
    incomplete : (parse new_parser (new_builder major minor size) bs).result ≡ indeterminate

  -- `parse` from a session, as one run from a new parser.
  at_once :
      (session : Session) (bs xs : Bytes) (h : Holds session bs)
      → parse new_parser (new_builder h.major h.minor h.size) (bs ++ xs)
        ≡ parse session.parser session.builder xs
  at_once session bs xs h =
      parse-append bs xs new_parser (new_builder h.major h.minor h.size) h.incomplete
      ∙ rw (h.parser, h.builder) refl

  handle_write-session : (c : Connection S) → (handle_write world unset false c).session ≡ c.session
  unfolding handle_write
  handle_write-session c = refl

  Reach-Holds : (c : Connection S) (bs : Bytes) → Reach c bs → Holds c.session bs
  Reach-Holds _ _ (started major minor size rd s) =
      unfold start parse in
      record {
        major = major;
        minor = minor;
        size = size;
        parser = refl;
        builder = refl;
        incomplete = refl;
      }
  Reach-Holds _ _ (read_more c c' bs xs r p e q) =
      let h = Reach-Holds c bs r in
      let one = at_once c.session bs xs h in
      let (left, same) = handle_read-read world unset c c' xs e q in
      record {
        major = h.major;
        minor = h.minor;
        size = h.size;
        parser = ap (λ k. k.parser) same ∙ ap (λ k. k.parser) (sym one);
        builder = ap (λ k. k.builder) same ∙ ap (λ k. k.builder) (sym one);
        incomplete = ap (λ k. k.result) one ∙ left;
      }
  Reach-Holds _ _ (answered c c' bs xs out r p e q) =
      let h = Reach-Holds c bs r in
      let one = at_once c.session bs xs h in
      let (done, same) = handle_read-write world unset c c' xs out e q in
      let back_to_new =
        ap (λ k. reset k.parser) (sym one)
        ∙ reset-parse h.major h.minor h.size (bs ++ xs) (ap (λ k. k.result) one ∙ done) in
      record {
        major = pos 0;
        minor = pos 0;
        size = pos 0;
        parser = ap (λ k. k.parser) same ∙ back_to_new ∙ unfold parse in refl;
        builder = ap (λ k. k.builder) same ∙ unfold parse in refl;
        incomplete = unfold parse in refl;
      }
  Reach-Holds _ _ (written c bs out r p) = rw (handle_write-session c) (Reach-Holds c bs r)
  Reach-Holds _ _ (interleaved c bs rd s r) = Reach-Holds c bs r

  -- The numbers of the new session's builder are the same for every read.
  pub Reach-numbers :
      (c : Connection S) (bs : Bytes)
      → Reach c bs
      → (major : ℤ) × (minor : ℤ) × (size : ℤ) × ((xs : Bytes)
          → handle_read world unset false xs c
            ≡ handle_read world unset false
                (bs ++ xs)
                (start (new_builder major minor size) c.dispatcher c.state))
  Reach-numbers c bs r =
      let h = Reach-Holds c bs r in
      (
        h.major,
        h.minor,
        h.size,
        λ xs.
            unfold handle_read start in
            ap
              (λ k.
                respond_to world unset k.result (record { parser = k.parser; builder = k.builder })
                  c.dispatcher c.state)
              (sym (at_once c.session bs xs h)),
      )

  -- However the bytes since the last answer came, and whatever other sessions did, a read does what
  -- one read of all of them does in a new session with the same dispatcher and state, whose builder
  -- holds some three numbers.
  pub handle_read-Reach :
      (c : Connection S) (bs xs : Bytes)
      → Reach c bs
      → (major : ℤ) × (minor : ℤ) × (size : ℤ) × (handle_read world unset false xs c
          ≡ handle_read world unset false
              (bs ++ xs)
              (start (new_builder major minor size) c.dispatcher c.state))
  handle_read-Reach c bs xs r =
      let (major, minor, size, same) = Reach-numbers c bs r in (major, minor, size, same xs)
