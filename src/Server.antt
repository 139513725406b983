-- ===== src/Server.antt =====
-- `server` of src/server.cc: it accepts connections one at a time, and the handlers of their sessions
-- run one after the other.
pub mod Sessions
mod Tests
use bigtable_postgres_blog_s.Base.{Bool, true, false, List, [], ◌∷◌, ◌++◌, some, ◌≡◌, if◌then◌else◌}
use bigtable_postgres_blog_s.Base.Int.{ℤ}
use bigtable_postgres_blog_s.Base.Text.{Bytes}
use bigtable_postgres_blog_s.Dispatcher.{RequestDispatcher}
use bigtable_postgres_blog_s.Handlers.{World}
use bigtable_postgres_blog_s.Http.{MethodEnum, RequestBuilder}
use bigtable_postgres_blog_s.RequestParser.{new_builder}
use bigtable_postgres_blog_s.Session.{
  Session, Pending, read, write_then_read, write_then_shutdown, shut_down, deleted, Connection,
  handle_read, handle_write, shutdown, start,
}

-- A session that was started, and the operation that it waits for.
pub record Client : Type 0 where
  pub session : Session
  pub pending : Pending

-- The dispatcher and the state are shared by the sessions. The acceptor waits for a client of the
-- session that `start_accept` has made, whose builder is `accepting`.
pub record Server (S : Type 0) : Type 0 where
  pub dispatcher : RequestDispatcher
  pub state : S
  pub clients : List Client
  pub accepting : RequestBuilder

abbrev pub connection : {S : Type 0} → Server S → Client → Connection S
connection server c = record {
  session = c.session;
  dispatcher = server.dispatcher;
  state = server.state;
  pending = c.pending;
}

abbrev pub client : {S : Type 0} → Connection S → Client
client c = record { session = c.session; pending = c.pending }

-- `new session(...)`, whose builder is `builder`, and `async_accept`.
unfoldable pub start_accept : {S : Type 0} → RequestBuilder → Server S → Server S
start_accept builder server = record server { accepting = builder }

-- The constructor.
unfoldable pub new_server : {S : Type 0} → RequestBuilder → RequestDispatcher → S → Server S
unfolding start_accept
new_server builder rd s =
    start_accept builder (record { dispatcher = rd; state = s; clients = []; accepting = builder })

-- The session is started, or deleted after an error, and the next one waits in its place.
unfoldable pub handle_accept : {S : Type 0} → Bool → RequestBuilder → Server S → Server S
unfolding start_accept
handle_accept error builder server = start_accept builder (
    if error then server else record server {
      clients =
          server.clients ++ client (start server.accepting server.dispatcher server.state) ∷ [];
    })

-- The server after a handler of one session, which stands between the others.
abbrev pub after_handler :
    {S : Type 0} → List Client → List Client → Server S → Connection S → Server S
after_handler before behind server c = record server {
  dispatcher = c.dispatcher;
  state = c.state;
  clients = before ++ client c ∷ behind;
}

-- A session with the bytes that it has read since its last answer.
abbrev pub Heard : Type 0
Heard = Client × Bytes

abbrev pub clients_of : List Heard → List Client
clients_of [] = []
clients_of ((c, bs) ∷ heard) = c ∷ clients_of heard

-- An answer ends the bytes of a request: what is left of `bs` when a read has led to an operation.
abbrev pub left_over : Pending → Bytes → Bytes
left_over read bs = bs
left_over (write_then_read out) bs = []
left_over (write_then_shutdown out) bs = []
left_over shut_down bs = []
left_over deleted bs = []

-- The servers that are reached by the end of one asynchronous operation after the other, in any order,
-- with the bytes that each of their sessions has read since its last answer.
module _ {S : Type 0} (world : World S) (unset : MethodEnum) where
  pub data Running : Server S → List Heard → Type 0 where
    launched :
        (major minor size : ℤ) (rd : RequestDispatcher) (s : S)
        → Running (new_server (new_builder major minor size) rd s) []
    accept_failed :
        (major minor size : ℤ) (server : Server S) (heard : List Heard)
        → Running server heard
        → Running (handle_accept true (new_builder major minor size) server) heard
    accepted :
        (major minor size : ℤ) (server : Server S) (heard : List Heard)
        → Running server heard
        → Running
            (handle_accept false (new_builder major minor size) server)
            (heard ++ (client (start server.accepting server.dispatcher server.state), []) ∷ [])
    read_done :
        (error : Bool) (xs bs : Bytes) (before behind heard : List Heard) (c : Client)
        (server : Server S) (c' : Connection S)
        → Running server heard
        → heard ≡ before ++ (c, bs) ∷ behind
        → c.pending ≡ read
        → handle_read world unset error xs (connection server c) ≡ some c'
        → Running
            (after_handler (clients_of before) (clients_of behind) server c')
            (before ++ (client c', left_over c'.pending (bs ++ xs)) ∷ behind)
    write_done :
        (error : Bool) (bs : Bytes) (before behind heard : List Heard) (c : Client)
        (server : Server S) (out : List Bytes)
        → Running server heard
        → heard ≡ before ++ (c, bs) ∷ behind
        → c.pending ≡ write_then_read out
        → Running
            (after_handler
              (clients_of before)
              (clients_of behind)
              server
              (handle_write world unset error (connection server c)))
            (before ++ (client (handle_write world unset error (connection server c)), bs) ∷ behind)
    last_write_done :
        (error : Bool) (bs : Bytes) (before behind heard : List Heard) (c : Client)
        (server : Server S) (out : List Bytes)
        → Running server heard
        → heard ≡ before ++ (c, bs) ∷ behind
        → c.pending ≡ write_then_shutdown out
        → Running
            (after_handler
              (clients_of before)
              (clients_of behind)
              server
              (shutdown world unset error (connection server c)))
            (before ++ (client (shutdown world unset error (connection server c)), bs) ∷ behind)
