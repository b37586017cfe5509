-- ===== src/ServerListener/Objects/Loop.antt =====
-- The loop of `ServerListener::run` over the pointers to its connectors.
use vr_admin.Prelude.{
  ℕ, Bool, true, false, ◌&&◌, eqb_ℤ, ltb_ℤ, if◌then◌else◌, Option, none, some, List, [], ◌∷◌, ◌++◌,
  ℤ, pos, minus_one, Exec, ok, undefined, ◌>>=◌,
}
use vr_admin.CString.{Bytes}
use vr_admin.Heap.{Heap, live}
use vr_admin.ClientConnector.{result_quit, post_select_with}
use vr_admin.XmlDatabase.Objects.{SdkObjects}
use vr_admin.ClientConnector.Pointers.{sdk_objects}
use vr_admin.ServerListener.{max_ℤ, Round, Log, nothing, sent_to}
use vr_admin.ServerListener.Objects.{ClientConnector, deref, Objects, add_object, del_object}

-- The listener, with the pointers of `mXmlData` and of `mConnectors`.
pub record HeapListener : Type 0 where
  pub wakeup_read : ℤ
  pub wakeup_write : ℤ
  pub listen_fd : ℤ
  pub sdks : SdkObjects
  pub objects : Objects

-- A round, and the address that `new` gives in it.
pub record HeapRound : Type 0 where
  pub round : Round
  pub address : ℕ

-- `FD_SETSIZE`.
abbrev pub fd_setsize : ℤ
fd_setsize = pos 1024

-- `FD_SET`, which writes outside the set for a descriptor that it has no bit for.
unfoldable pub fd_set : ℤ → List ℤ → Exec (List ℤ)
fd_set fd rset =
    if ltb_ℤ fd (pos 0)
    then undefined
    else if ltb_ℤ fd fd_setsize
    then ok (fd ∷ rset)
    else undefined

-- `preSelect`.
unfoldable pub pre_select_object : ClientConnector → List ℤ → Exec (List ℤ × ℤ)
unfolding fd_set
pre_select_object c rset =
    if ltb_ℤ (pos 0) c.conn_id
    then (fd_set c.conn_id rset >>= λ rset'. ok (rset', c.conn_id))
    else ok (rset, c.conn_id)

-- `(*iter)->preSelect(&rset)` for all of them.
unfoldable pub pre_select_objects : Heap ClientConnector → List ℕ → List ℤ × ℤ → Exec (List ℤ × ℤ)
pre_select_objects heap [] (rset, maxfd) = ok (rset, maxfd)
pre_select_objects heap (p ∷ ps) (rset, maxfd) = live (heap p) >>= λ c.
    pre_select_object c rset >>= λ (rset', ret). pre_select_objects heap ps (rset', max_ℤ maxfd ret)

-- The set and the largest descriptor that `select` is called with.
unfoldable pub select_objects : HeapListener → Exec (List ℤ × ℤ)
unfolding fd_set
select_objects h = do
  woken ← fd_set h.wakeup_read []
  rset ← fd_set h.listen_fd woken
  pre_select_objects h.objects.heap h.objects.pointers
      (rset, if ltb_ℤ h.listen_fd h.wakeup_read then h.wakeup_read else h.listen_fd)

-- `FD_ISSET` of `postSelect`, which is not asked for a negative descriptor.
unfoldable pub is_ready : Round → ℤ → Exec Bool
is_ready round fd =
    if ltb_ℤ fd (pos 0)
    then ok false
    else if ltb_ℤ fd fd_setsize
    then ok (round.ready fd)
    else undefined

-- `(*iter)->postSelect(&rset)` for all of them, each with the database that it refers to.
unfoldable pub post_select_objects :
    SdkObjects → Round → Heap ClientConnector → List ℕ → Exec (List (ℤ × Bytes) × List ℤ)
post_select_objects sdks round heap [] = ok ([], [])
post_select_objects sdks round heap (p ∷ ps) =
    let rest = post_select_objects sdks round heap ps in
    (live (heap p) >>= λ c. is_ready round c.conn_id >>= λ ready.
    post_select_with (sdk_objects (deref c.db sdks)) c.conn_id ready (round.sockets c.conn_id)
    >>= λ outcome. rest >>= λ (sent, quits). ok (
      sent_to c.conn_id outcome.sent sent,
      if eqb_ℤ outcome.ret result_quit then c.conn_id ∷ quits else quits,
    ))

unfoldable pub del_objects : List ℤ → Objects → Exec Objects
del_objects [] o = ok o
del_objects (fd ∷ fds) o = del_object fd o >>= λ (o', ret). del_objects fds o'

abbrev pub serve_objects : Round → HeapListener → Exec (Option (HeapListener × Log))
serve_objects round h = do
  (sent, quits) ← post_select_objects h.sdks round h.objects.heap h.objects.pointers
  o ← del_objects quits h.objects
  ok (some (record h { objects = o }, record { sent = sent; closed = quits }))

abbrev pub accepted_object : HeapListener → Objects × ℤ → Exec HeapListener
accepted_object h (o, ret) = ok (record h { objects = o })

abbrev pub accept_object : HeapRound → HeapListener → Exec HeapListener
accept_object r h =
    if ltb_ℤ (pos 0) r.round.accepted
    then (add_object r.address r.round.accepted h.objects >>= accepted_object h)
    else ok h

abbrev pub heap_after_wakeup : HeapRound → HeapListener → Exec (Option (HeapListener × Log))
heap_after_wakeup r h =
    if r.round.ready h.listen_fd
    then (accept_object r h >>= λ h'.
        if eqb_ℤ r.round.nfds (pos 1) then ok (some (h', nothing)) else serve_objects r.round h')
    else serve_objects r.round h

abbrev pub heap_after_select : HeapRound → HeapListener → Exec (Option (HeapListener × Log))
heap_after_select r h =
    if eqb_ℤ r.round.nfds minus_one
    then ok (if r.round.interrupted then some (h, nothing) else none)
    else if r.round.ready h.wakeup_read && eqb_ℤ r.round.nfds (pos 1)
    then ok (some (h, nothing))
    else heap_after_wakeup r h

-- One round of the loop, with the calls of `preSelect` before `select`.
unfoldable pub heap_round : HeapRound → HeapListener → Exec (Option (HeapListener × Log))
heap_round r h = select_objects h >>= λ set. heap_after_select r h

pub record HeapHistory : Type 0 where
  pub listener : HeapListener
  pub sent : List (ℤ × Bytes)
  pub closed : List ℤ
  pub returned : Bool

abbrev pub heap_prepend : Log → HeapHistory → HeapHistory
heap_prepend log h = record h { sent = log.sent ++ h.sent; closed = log.closed ++ h.closed }

abbrev pub heap_continue :
    (HeapListener → Exec HeapHistory)
    → HeapListener
    → Option (HeapListener × Log)
    → Exec HeapHistory
heap_continue rest h none = ok (record { listener = h; sent = []; closed = []; returned = true })
heap_continue rest h (some (h', log)) = rest h' >>= λ k. ok (heap_prepend log k)

unfoldable pub heap_rounds : List HeapRound → HeapListener → Exec HeapHistory
heap_rounds [] h = ok (record { listener = h; sent = []; closed = []; returned = false })
heap_rounds (r ∷ rs) h = heap_round r h >>= heap_continue (heap_rounds rs) h
