-- ===== src/Server/Sessions.antt =====
-- The sessions of a server of src/server.cc do not disturb each other's requests.
use bigtable_postgres_blog_s.Base.{
  Bool, true, false, List, [], ◌∷◌, ◌++◌, some, ◌≡◌, ◌⊎◌, inl, inr, refl, ap, sym, ◌∙◌, All,
  All-append, All-concat,
}
use mathlib.Core.Path.{subst}
use mathlib.Core.Option.{some-injective}
use bigtable_postgres_blog_s.Base.Int.{ℤ}
use bigtable_postgres_blog_s.Base.Text.{Bytes}
use bigtable_postgres_blog_s.Dispatcher.{RequestDispatcher}
use bigtable_postgres_blog_s.Handlers.{World}
use bigtable_postgres_blog_s.Http.{MethodEnum}
use bigtable_postgres_blog_s.RequestParser.{new_builder}
use bigtable_postgres_blog_s.Server.{
  Client, Server, connection, client, after_handler, new_server, handle_accept, start_accept, Heard,
  clients_of, left_over, Running, launched, accept_failed, accepted, read_done, write_done,
  last_write_done,
}
use bigtable_postgres_blog_s.Session.Reach.{
  Reach, started, read_more, answered, written, interleaved, Reach-numbers,
}
use bigtable_postgres_blog_s.Session.{
  Pending, read, write_then_read, deleted, shut_down, Connection, handle_read, handle_write,
  shutdown, start,
}

module _ {S : Type 0} (world : World S) (unset : MethodEnum) where
  abbrev shared : RequestDispatcher → S → Client → Connection S
  shared rd s c = record { session = c.session; dispatcher = rd; state = s; pending = c.pending }

  abbrev GoesOn : Pending → Type 0
  GoesOn p = (p ≡ read) ⊎ ((out : List Bytes) × (p ≡ write_then_read out))

  -- A client whose session goes on has been reached from a new session, with the bytes beside it.
  abbrev Live : RequestDispatcher → S → Heard → Type 0
  Live rd s (c, bs) = GoesOn c.pending → Reach world unset (shared rd s c) bs

  abbrev LiveAfter : Connection S → Bytes → Type 0
  LiveAfter c bs = Live c.dispatcher c.state (client c, bs)

  All-Live-shared :
      (rd rd' : RequestDispatcher) (s s' : S) (heard : List Heard)
      → All (Live rd s) heard
      → All (Live rd' s') heard
  All-Live-shared rd rd' s s' [] t = tt
  All-Live-shared rd rd' s s' ((c, bs) ∷ heard) (x, t) =
      (λ g. interleaved (shared rd s c) bs rd' s' (x g), All-Live-shared rd rd' s s' heard t)

  deleted_read :
      (xs : Bytes) (c c' : Connection S)
      → handle_read world unset true xs c ≡ some c'
      → record c { pending = deleted } ≡ c'
  unfolding handle_read
  deleted_read xs c c' e = some-injective (record c { pending = deleted }) c' e

  deleted_stops : GoesOn deleted → ⊥
  deleted_stops (inl r) = cc
  deleted_stops (inr (out, w)) = cc

  shut_down_stops : GoesOn shut_down → ⊥
  shut_down_stops (inl r) = cc
  shut_down_stops (inr (out, w)) = cc

  handle_read-Live :
      (error : Bool) (xs bs : Bytes) (c : Client) (rd : RequestDispatcher) (s : S)
      (c' : Connection S)
      → Live rd s (c, bs)
      → c.pending ≡ read
      → handle_read world unset error xs (shared rd s c) ≡ some c'
      → LiveAfter c' (left_over c'.pending (bs ++ xs))
  handle_read-Live true xs bs c rd s c' live p e g = absurd (
      deleted_stops
        (subst GoesOn (sym (ap (λ k. k.pending) (deleted_read xs (shared rd s c) c' e))) g))
  handle_read-Live false xs bs c rd s c' live p e (inl reads) =
      subst (Reach world unset c') (sym (ap (λ k. left_over k (bs ++ xs)) reads))
        (read_more (shared rd s c) c' bs xs (live (inl p)) p e reads)
  handle_read-Live false xs bs c rd s c' live p e (inr (out, writes)) =
      subst (Reach world unset c') (sym (ap (λ k. left_over k (bs ++ xs)) writes))
        (answered (shared rd s c) c' bs xs out (live (inl p)) p e writes)

  handle_write-Live :
      (error : Bool) (bs : Bytes) (c : Client) (rd : RequestDispatcher) (s : S) (out : List Bytes)
      → Live rd s (c, bs)
      → c.pending ≡ write_then_read out
      → LiveAfter (handle_write world unset error (shared rd s c)) bs
  unfolding handle_write
  handle_write-Live true bs c rd s out live p g = absurd (deleted_stops g)
  handle_write-Live false bs c rd s out live p g =
      unfold handle_write in written (shared rd s c) bs out (live (inr (out, p))) p

  shutdown-Live :
      (error : Bool) (bs : Bytes) (c : Client) (rd : RequestDispatcher) (s : S)
      → LiveAfter (shutdown world unset error (shared rd s c)) bs
  unfolding shutdown
  shutdown-Live true bs c rd s g = absurd (deleted_stops g)
  shutdown-Live false bs c rd s g = absurd (shut_down_stops g)

  clients_of-append :
      (before behind : List Heard)
      → clients_of (before ++ behind) ≡ clients_of before ++ clients_of behind
  clients_of-append [] behind = refl
  clients_of-append ((c, bs) ∷ before) behind = ap (◌∷◌ c) (clients_of-append before behind)

  All-middle :
      (P : Heard → Type 0) (before behind : List Heard) (c : Heard)
      → All P (before ++ c ∷ behind)
      → All P before × P c × All P behind
  All-middle P [] behind c t = (tt, t.0, t.1)
  All-middle P (b ∷ before) behind c (x, t) =
      let (l, m, r) = All-middle P before behind c t in ((x, l), m, r)

  abbrev IsNew : Server S → Type 0
  IsNew server =
      (major : ℤ) × (minor : ℤ) × (size : ℤ) × (server.accepting ≡ new_builder major minor size)

  -- The sessions of the server are those of the list, and each that goes on is live.
  record Attended (server : Server S) (heard : List Heard) : Type 0 where
    same_clients : server.clients ≡ clients_of heard
    live : All (Live server.dispatcher server.state) heard
    new : IsNew server

  -- After a handler of one session, if that session is live.
  after_handler-Attended :
      (before behind heard : List Heard) (c : Client) (bs bs' : Bytes) (server : Server S)
      (c' : Connection S)
      → Attended server heard
      → heard ≡ before ++ (c, bs) ∷ behind
      → (Live server.dispatcher server.state (c, bs) → LiveAfter c' bs')
      → Attended
          (after_handler (clients_of before) (clients_of behind) server c')
          (before ++ (client c', bs') ∷ behind)
  after_handler-Attended before behind heard c bs bs' server c' t e step =
      let P = Live server.dispatcher server.state in
      let (l, m, r) = All-middle P before behind (c, bs) (subst (All P) e t.live) in
      record {
        same_clients = sym (clients_of-append before ((client c', bs') ∷ behind));
        live =
            All-append _ before ((client c', bs') ∷ behind)
              (All-Live-shared server.dispatcher c'.dispatcher server.state c'.state before l)
              (
                step m,
                All-Live-shared server.dispatcher c'.dispatcher server.state c'.state behind r,
              );
        new = t.new;
      }

  start-Live :
      (major minor size : ℤ) (rd : RequestDispatcher) (s : S)
      → LiveAfter (start (new_builder major minor size) rd s) []
  unfolding start
  start-Live major minor size rd s g = unfold start in started major minor size rd s

  accept_failed-Attended :
      (major minor size : ℤ) (server : Server S) (heard : List Heard)
      → Attended server heard
      → Attended (handle_accept true (new_builder major minor size) server) heard
  unfolding handle_accept start_accept
  accept_failed-Attended major minor size server heard t = record {
    same_clients = t.same_clients;
    live = t.live;
    new = (major, minor, size, refl);
  }

  accepted-Attended :
      (major minor size : ℤ) (server : Server S) (heard : List Heard)
      → Attended server heard
      → Attended
          (handle_accept false (new_builder major minor size) server)
          (heard ++ (client (start server.accepting server.dispatcher server.state), []) ∷ [])
  unfolding handle_accept start_accept start
  accepted-Attended major minor size server heard t =
      let (a, b, n, new) = t.new in
      record {
        same_clients =
            ap (λ l. l ++ client (start server.accepting server.dispatcher server.state) ∷ [])
              t.same_clients
            ∙ sym (clients_of-append heard _);
        live = All-concat _ heard _ t.live (
            subst (λ k. LiveAfter (start k server.dispatcher server.state) []) (sym new)
              (start-Live a b n server.dispatcher server.state));
        new = (major, minor, size, refl);
      }

  Running-Attended :
      (server : Server S) (heard : List Heard)
      → Running world unset server heard
      → Attended server heard
  Running-Attended _ _ (launched major minor size rd s) =
      unfold new_server start_accept in
      record { same_clients = refl; live = tt; new = (major, minor, size, refl) }
  Running-Attended _ _ (accept_failed major minor size server heard r) =
      accept_failed-Attended major minor size server heard (Running-Attended server heard r)
  Running-Attended _ _ (accepted major minor size server heard r) =
      accepted-Attended major minor size server heard (Running-Attended server heard r)
  Running-Attended _ _ (read_done error xs bs before behind heard c server c' r e p done) =
      after_handler-Attended before behind heard c bs _ server c' (Running-Attended server heard r)
        e (λ live. handle_read-Live error xs bs c server.dispatcher server.state c' live p done)
  Running-Attended _ _ (write_done error bs before behind heard c server out r e p) =
      after_handler-Attended before behind heard c bs bs server _ (Running-Attended server heard r)
        e (λ live. handle_write-Live error bs c server.dispatcher server.state out live p)
  Running-Attended _ _ (last_write_done error bs before behind heard c server out r e p) =
      after_handler-Attended before behind heard c bs bs server _ (Running-Attended server heard r)
        e (λ live. shutdown-Live error bs c server.dispatcher server.state)

  -- In any server that is reached, whatever its sessions have read, answered and written so far and in
  -- whatever order, its sessions are those that the run lists with the bytes that each has read since
  -- its last answer; and a read of one that reads does what one read of just these bytes and the ones
  -- that come does in a new session with the dispatcher and the state of that time, whose builder holds
  -- some three numbers. No byte of another session, and none of an earlier request, has a part in it.
  pub handle_read-Running :
      (server : Server S) (heard before behind : List Heard) (c : Client) (bs : Bytes)
      → Running world unset server heard
      → heard ≡ before ++ (c, bs) ∷ behind
      → c.pending ≡ read
      → (server.clients ≡ clients_of heard)
        × (major : ℤ) × (minor : ℤ) × (size : ℤ) × ((xs : Bytes)
            → handle_read world unset false xs (connection server c)
              ≡ handle_read world unset false
                  (bs ++ xs)
                  (start (new_builder major minor size) server.dispatcher server.state))
  handle_read-Running server heard before behind c bs r e p =
      let t = Running-Attended server heard r in
      let P = Live server.dispatcher server.state in
      let (l, live, behind_live) = All-middle P before behind (c, bs) (subst (All P) e t.live) in
      let (major, minor, size, same) =
        Reach-numbers world unset (connection server c) bs (live (inl p)) in
      (t.same_clients, major, minor, size, same)
