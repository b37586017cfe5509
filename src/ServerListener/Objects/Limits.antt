-- ===== src/ServerListener/Objects/Limits.antt =====
-- What `select` is called with by jni/main/ServerListener.cpp, and the limit FD_SETSIZE, which the
-- code does not look at.
use vr_admin.Prelude.{
  ℕ, ◌≡◌, refl, inl, inr, Bool, true, not, ◌&&◌, Bool-cases, ltb_ℤ, if◌then◌else◌, All, List, [],
  ◌∷◌, ℤ, pos, ok, undefined, arith,
}
use vr_admin.Heap.{Heap, Points}
use vr_admin.ClientConnector.{pre_select}
use vr_admin.ServerListener.{ServerListener, max_ℤ, pre_select_all, select_set}
use vr_admin.ServerListener.Connectors.{IsValid}
use vr_admin.ServerListener.Service.{Watched, select_set-Watched}
use vr_admin.ServerListener.Objects.{ClientConnector}
use vr_admin.ServerListener.Objects.Ownership.{clients, IsOwner}
use vr_admin.ServerListener.Objects.Loop.{
  HeapListener, fd_setsize, fd_set, pre_select_object, pre_select_objects, select_objects,
}

-- The descriptor has a bit in the set.
abbrev pub is_small : ℤ → Bool
is_small fd = not (ltb_ℤ fd (pos 0)) && ltb_ℤ fd fd_setsize

unfoldable pub all_small : List ℤ → Bool
all_small [] = true
all_small (fd ∷ fds) = is_small fd && all_small fds

fd_set_if :
    (fd : ℤ) (rset : List ℤ) → fd_set fd rset ≡ (if is_small fd then ok (fd ∷ rset) else undefined)
unfolding fd_set
fd_set_if fd rset = ground arith

pre_select_objects_if :
    (heap : Heap ClientConnector) (ps : List ℕ) (fds : List ℤ) (set : List ℤ × ℤ)
    → All (λ fd. ltb_ℤ (pos 0) fd ≡ true) fds
    → Points heap ps (clients fds)
    → pre_select_objects heap ps set
      ≡ (if all_small fds then ok (pre_select_all fds set) else undefined)
unfolding pre_select_objects pre_select_all pre_select_object pre_select all_small
pre_select_objects_if heap [] [] (rset, maxfd) positive h = refl
pre_select_objects_if heap [] (fd ∷ fds) set positive h = absurd h
pre_select_objects_if heap (p ∷ ps) [] set positive h = absurd h
pre_select_objects_if heap (p ∷ ps) (fd ∷ fds) (rset, maxfd) (over, positive) (e, n, h) =
    elim (Bool-cases (is_small fd)) [
      | inl s ↦
          rw (e, over, fd_set_if fd rset, s)
            (pre_select_objects_if heap ps fds (fd ∷ rset, max_ℤ maxfd fd) positive h)
      | inr s ↦ rw (e, over, fd_set_if fd rset, s) refl
    ]

-- All descriptors of the listener have a bit in the set.
abbrev pub fits_set : ServerListener → Bool
fits_set l = is_small l.wakeup_read && (is_small l.listen_fd && all_small l.connectors)

select_objects_if :
    (h : HeapListener) (l : ServerListener)
    → h.listen_fd ≡ l.listen_fd
    → h.wakeup_read ≡ l.wakeup_read
    → IsOwner h.objects l.connectors
    → IsValid l
    → select_objects h ≡ (if fits_set l then ok (select_set l) else undefined)
unfolding select_objects select_set
select_objects_if h l same_listen same_wakeup owns valid =
    rw (same_listen, same_wakeup, fd_set_if l.wakeup_read [])
      (elim (Bool-cases (is_small l.wakeup_read)) [
        | inr w ↦ rw w refl
        | inl w ↦
            rw (w, fd_set_if l.listen_fd (l.wakeup_read ∷ []))
              (elim (Bool-cases (is_small l.listen_fd)) [
                | inr f ↦ rw f refl
                | inl f ↦ rw f (
                    pre_select_objects_if h.objects.heap h.objects.pointers l.connectors _
                      valid.positive owns.points)
              ])
      ])

-- Where the pointers own valid connectors, the call of `select` is reached exactly if the wake-up
-- pipe, the listening socket and all connectors have descriptors below FD_SETSIZE that are not
-- negative; otherwise a `FD_SET` before it writes outside the set. The call then watches each of them:
-- it is in the set, and not above the number that is passed.
pub select_objects-Watched :
    (h : HeapListener) (l : ServerListener)
    → h.listen_fd ≡ l.listen_fd
    → h.wakeup_read ≡ l.wakeup_read
    → IsOwner h.objects l.connectors
    → IsValid l
    → (select_objects h ≡ (if fits_set l then ok (select_set l) else undefined))
      × Watched (select_set l) l.listen_fd
      × Watched (select_set l) l.wakeup_read
      × All (Watched (select_set l)) l.connectors
select_objects-Watched h l same_listen same_wakeup owns valid =
    let (listening, waking, serving) = select_set-Watched l valid in
    (select_objects_if h l same_listen same_wakeup owns valid, listening, waking, serving)
