-- ===== src/ServerListener/Service.antt =====
-- What `select` is called with, and the way from the constructor into the loop.
use vr_admin.Prelude.{◌≡◌, true, ltb_ℤ, eqb_ℤ_refl, ◌≤ℤ◌, List, [], ◌∷◌, All, ℤ, pos, arith}
use vr_admin.ClientConnector.{pre_select}
use vr_admin.ServerListener.Connectors.{IsValid}
use vr_admin.ServerListener.{ServerListener, has_connector, max_ℤ, pre_select_all, select_set}

-- `select` watches the descriptor: it is in the set, and not above the largest.
abbrev pub Watched : List ℤ × ℤ → ℤ → Type 0
Watched (rset, maxfd) fd = (has_connector fd rset ≡ true) × (fd ≤ℤ maxfd)

Watched-pre_select :
    (fd x : ℤ) (rset : List ℤ) (maxfd : ℤ)
    → Watched (rset, maxfd) x
    → Watched ((pre_select fd rset).0, max_ℤ maxfd (pre_select fd rset).1) x
unfolding pre_select has_connector
Watched-pre_select fd x rset maxfd (m, b) = (ground arith, ground arith)

Watched-added :
    (fd : ℤ) (rset : List ℤ) (maxfd : ℤ)
    → ltb_ℤ (pos 0) fd ≡ true
    → Watched ((pre_select fd rset).0, max_ℤ maxfd (pre_select fd rset).1) fd
unfolding pre_select has_connector
Watched-added fd rset maxfd p = (rw (p, eqb_ℤ_refl fd), ground arith)

Watched-pre_select_all :
    (fds : List ℤ) (x : ℤ) (rset : List ℤ) (maxfd : ℤ)
    → Watched (rset, maxfd) x
    → Watched (pre_select_all fds (rset, maxfd)) x
unfolding pre_select_all
Watched-pre_select_all [] x rset maxfd w = w
Watched-pre_select_all (fd ∷ fds) x rset maxfd w =
    Watched-pre_select_all fds x _ _ (Watched-pre_select fd x rset maxfd w)

pre_select_all_watches :
    (fds : List ℤ) (rset : List ℤ) (maxfd : ℤ)
    → All (λ fd. ltb_ℤ (pos 0) fd ≡ true) fds
    → All (Watched (pre_select_all fds (rset, maxfd))) fds
unfolding pre_select_all
pre_select_all_watches [] rset maxfd h = tt
pre_select_all_watches (fd ∷ fds) rset maxfd (p, h) = (
  Watched-pre_select_all fds fd _ _ (Watched-added fd rset maxfd p),
  pre_select_all_watches fds _ _ h,
)

-- With valid connectors, `select` watches the listening socket, the wake-up pipe and every connector: each is in the set,
-- and none is above the number that is passed.
pub select_set-Watched :
    (l : ServerListener)
    → IsValid l
    → Watched (select_set l) l.listen_fd
      × Watched (select_set l) l.wakeup_read
      × All (Watched (select_set l)) l.connectors
unfolding select_set
select_set-Watched l v = (
  Watched-pre_select_all l.connectors l.listen_fd _ _
      (unfold has_connector in (rw (eqb_ℤ_refl l.listen_fd), ground arith)),
  Watched-pre_select_all l.connectors l.wakeup_read _ _
      (unfold has_connector in (ground (arith, eqb_ℤ_refl l.wakeup_read), ground arith)),
  pre_select_all_watches l.connectors _ _ v.positive,
)
