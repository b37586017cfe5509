-- ===== src/ServerListener.antt =====
-- jni/main/ServerListener.h and ServerListener.cpp: the thread that accepts the clients of the text
-- protocol and serves them by `select`.
pub mod Connectors
pub mod Objects
pub mod Sdks
pub mod Rounds
pub mod Selection
pub mod Descriptors
pub mod Sent
pub mod Service
pub mod Startup
pub mod EndToEnd
pub mod Wakeup
use vr_admin.Prelude.{
  ℕ, zero, suc, Bool, true, false, not, ◌&&◌, ltb_ℤ, eqb_ℤ, ◌==◌, if◌then◌else◌, Option, none, some,
  List, [], ◌∷◌, ◌++◌, ℤ, pos, negsuc, minus_one, Exec, ok, undefined, ◌>>=◌,
}
use vr_admin.CString.{Bytes, codes}
use vr_admin.VrSdk.{PropertyCalls}
use vr_admin.XmlDatabase.{XmlDatabase, empty_database, get_sdks_count, parser}
use vr_admin.XmlDatabase.Libxml.{Xml}
use vr_admin.ClientConnector.{Socket, Outcome, result_quit, post_select, pre_select}

-- A connector is known by its descriptor: all of them are of class ClientConnector, and refer to the
-- one database.
pub record ServerListener : Type 0 where
  pub wakeup_read : ℤ
  pub wakeup_write : ℤ
  pub listen_fd : ℤ
  pub connectors : List ℤ
  pub xml_data : XmlDatabase

abbrev pub then_parse :
    Xml
    → ℕ
    → Bytes
    → Option (ℤ × XmlDatabase × PropertyCalls)
    → Option (ℤ × XmlDatabase × PropertyCalls)
then_parse xml fuel path none = none
then_parse xml fuel path (some (ret, db, calls)) = parser xml fuel (some path) db calls

abbrev pub unstarted :
    Option (ℤ × XmlDatabase × PropertyCalls) → Option (ServerListener × PropertyCalls)
unstarted none = none
unstarted (some (ret, db, calls)) = some (
  record {
    wakeup_read = minus_one;
    wakeup_write = minus_one;
    listen_fd = minus_one;
    connectors = [];
    xml_data = db;
  },
  calls,
)

-- The constructor, which reads the two information files; `none` means that the fuel of `parser`
-- ran out.
unfoldable pub new_listener : Xml → ℕ → PropertyCalls → Option (ServerListener × PropertyCalls)
new_listener xml fuel calls = unstarted (
    then_parse xml fuel (codes "/system/vendor/etc/lvrinfo.xml")
      (parser xml fuel (some (codes "/system/vendor/etc/svrinfo.xml")) empty_database calls))

unfoldable pub has_connector : ℤ → List ℤ → Bool
has_connector confd [] = false
has_connector confd (fd ∷ fds) = if eqb_ℤ fd confd then true else has_connector confd fds

-- `addConnector`.
unfoldable pub add_connector : ℤ → ServerListener → ServerListener × ℤ
unfolding has_connector
add_connector confd l =
    if has_connector confd l.connectors
    then (l, minus_one)
    else (record l { connectors = l.connectors ++ (confd ∷ []) }, pos 0)

-- The list without its first connector of this descriptor.
unfoldable pub erase : ℤ → List ℤ → List ℤ
erase confd [] = []
erase confd (fd ∷ fds) = if eqb_ℤ fd confd then fds else fd ∷ erase confd fds

-- `delConnector`.
unfoldable pub del_connector : ℤ → ServerListener → ServerListener × ℤ
unfolding erase
del_connector confd l = (record l { connectors = erase confd l.connectors }, pos 0)

-- What the system gives in one round of the loop: the result of `select` and whether its error is
-- EINTR, the descriptors that it leaves in the set, the result of `accept`, and the sockets.
pub record Round : Type 0 where
  pub nfds : ℤ
  pub interrupted : Bool
  pub ready : ℤ → Bool
  pub accepted : ℤ
  pub sockets : ℤ → Socket

abbrev pub max_ℤ : ℤ → ℤ → ℤ
max_ℤ a b = if ltb_ℤ a b then b else a

-- The loop over `preSelect`: the set and the largest descriptor.
unfoldable pub pre_select_all : List ℤ → List ℤ × ℤ → List ℤ × ℤ
unfolding pre_select
pre_select_all [] (rset, maxfd) = (rset, maxfd)
pre_select_all (fd ∷ fds) (rset, maxfd) =
    let (rset', ret) = pre_select fd rset in pre_select_all fds (rset', max_ℤ maxfd ret)

-- The set and the largest descriptor that `select` is called with.
unfoldable pub select_set : ServerListener → List ℤ × ℤ
unfolding pre_select_all
select_set l = pre_select_all l.connectors (
  l.listen_fd ∷ l.wakeup_read ∷ [],
  if ltb_ℤ l.listen_fd l.wakeup_read then l.wakeup_read else l.listen_fd,
)

-- What a round wrote to the clients, and what it closed.
pub record Log : Type 0 where
  pub sent : List (ℤ × Bytes)
  pub closed : List ℤ

abbrev pub nothing : Log
nothing = record { sent = []; closed = [] }

abbrev pub sent_to : ℤ → Option Bytes → List (ℤ × Bytes) → List (ℤ × Bytes)
sent_to fd none sent = sent
sent_to fd (some text) sent = (fd, text) ∷ sent

-- The loop over `postSelect`: what was written, and the connectors that quit.
unfoldable pub post_select_all : XmlDatabase → Round → List ℤ → Exec (List (ℤ × Bytes) × List ℤ)
post_select_all db round [] = ok ([], [])
post_select_all db round (fd ∷ fds) =
    let rest = post_select_all db round fds in
    (post_select db fd (round.ready fd) (round.sockets fd) >>= λ outcome. rest >>= λ (sent, quits).
    ok (sent_to fd outcome.sent sent, if eqb_ℤ outcome.ret result_quit then fd ∷ quits else quits))

-- The loop over the connectors that quit, each deleted and then closed.
unfoldable pub del_all : List ℤ → ServerListener → ServerListener
unfolding del_connector
del_all [] l = l
del_all (fd ∷ fds) l = del_all fds (del_connector fd l).0

abbrev pub serve : Round → ServerListener → Exec (Option (ServerListener × Log))
serve round l = do
  (sent, quits) ← post_select_all l.xml_data round l.connectors
  ok (some (del_all quits l, record { sent = sent; closed = quits }))

-- The listening socket is ready: a connection is taken, if `accept` gives a positive descriptor.
abbrev pub accept : Round → ServerListener → ServerListener
accept round l = if ltb_ℤ (pos 0) round.accepted then (add_connector round.accepted l).0 else l

abbrev pub after_wakeup : Round → ServerListener → Exec (Option (ServerListener × Log))
after_wakeup round l =
    if round.ready l.listen_fd
    then if eqb_ℤ round.nfds (pos 1)
      then ok (some (accept round l, nothing))
      else serve round (accept round l)
    else serve round l

-- One round of the loop of `run`, from `select` on; `none` means that `run` returns.
unfoldable pub run_round : Round → ServerListener → Exec (Option (ServerListener × Log))
run_round round l =
    if eqb_ℤ round.nfds minus_one
    then ok (if round.interrupted then some (l, nothing) else none)
    else if round.ready l.wakeup_read && eqb_ℤ round.nfds (pos 1)
    then ok (some (l, nothing))
    else after_wakeup round l

-- The rounds of a run: the listener after them, what was written and closed in all of them, and
-- whether the loop has been left.
pub record History : Type 0 where
  pub listener : ServerListener
  pub sent : List (ℤ × Bytes)
  pub closed : List ℤ
  pub returned : Bool

abbrev pub prepend : Log → History → History
prepend log h = record h { sent = log.sent ++ h.sent; closed = log.closed ++ h.closed }

abbrev pub continue_run :
    (ServerListener → Exec History) → ServerListener → Option (ServerListener × Log) → Exec History
continue_run rest l none = ok (record { listener = l; sent = []; closed = []; returned = true })
continue_run rest l (some (l', log)) = rest l' >>= λ h. ok (prepend log h)

unfoldable pub run_rounds : List Round → ServerListener → Exec History
run_rounds [] l = ok (record { listener = l; sent = []; closed = []; returned = false })
run_rounds (round ∷ rounds) l = run_round round l >>= continue_run (run_rounds rounds) l

-- What the system gives before the loop: the two ends that `pipe` makes, `none` for its failure, the
-- control socket, and whether `listen` succeeds.
pub record Setup : Type 0 where
  pub pipe : Option (ℤ × ℤ)
  pub control_socket : ℤ
  pub listens : Bool

-- `run` before its loop: it returns, having closed the given descriptors, or it enters the loop.
pub data Prologue : Type 0 where
  returns : ServerListener → List ℤ → Prologue
  enters : ServerListener → Prologue

abbrev listen_on : Setup → ServerListener → Prologue
listen_on setup l =
    if setup.listens
    then enters (record l { listen_fd = setup.control_socket })
    else returns l (setup.control_socket ∷ [])

abbrev open_pipe : Setup → Option (ℤ × ℤ) → ServerListener → Prologue
open_pipe setup none l = returns l []
open_pipe setup (some (r, w)) l = listen_on setup (record l { wakeup_read = r; wakeup_write = w })

unfoldable pub prologue : Setup → ServerListener → Prologue
unfolding get_sdks_count
prologue setup l =
    if get_sdks_count l.xml_data == 0 then returns l [] else open_pipe setup setup.pipe l

abbrev run_after : List Round → Prologue → Exec History
run_after rounds (returns l closed) =
    ok (record { listener = l; sent = []; closed = closed; returned = true })
run_after rounds (enters l) = run_rounds rounds l

-- `run`, over the rounds that the system gives.
unfoldable pub run : Setup → List Round → ServerListener → Exec History
unfolding prologue run_rounds
run setup rounds l = run_after rounds (prologue setup l)
