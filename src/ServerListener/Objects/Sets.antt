-- ===== src/ServerListener/Objects/Sets.antt =====
-- What `select` is called with and the clients that are served, over the pointers and over the
-- descriptors.
use vr_admin.Prelude.{
  ℕ, ◌≡◌, refl, inl, inr, true, false, Bool-cases, ltb_ℤ, All, List, [], ◌∷◌, ℤ, pos, ok,
}
use vr_admin.Heap.{Heap, Points}
use vr_admin.XmlDatabase.{XmlDatabase}
use vr_admin.ClientConnector.{pre_select}
use vr_admin.XmlDatabase.Objects.{SdkObjects}
use vr_admin.XmlDatabase.Objects.Refinement.{OwnsSdks}
use vr_admin.ClientConnector.Pointers.{sdk_objects_lem}
use vr_admin.ServerListener.{max_ℤ, Round, pre_select_all, post_select_all}
use vr_admin.ServerListener.Objects.{ClientConnector, m_xml_data, new_connector, deref}
use vr_admin.ServerListener.Objects.Ownership.{clients}
use vr_admin.ServerListener.Objects.Loop.{
  pre_select_objects, post_select_objects, fd_setsize, fd_set, pre_select_object, is_ready,
}

-- A descriptor that has a bit in the set.
abbrev pub IsSmall : ℤ → Type 0
IsSmall fd = (ltb_ℤ fd (pos 0) ≡ false) × (ltb_ℤ fd fd_setsize ≡ true)

pub fd_set_lem : (fd : ℤ) (rset : List ℤ) → IsSmall fd → fd_set fd rset ≡ ok (fd ∷ rset)
unfolding fd_set
fd_set_lem fd rset (nonnegative, below) = rw (nonnegative, below) refl

pre_select_object_lem :
    (fd : ℤ) (rset : List ℤ)
    → IsSmall fd
    → pre_select_object (new_connector fd m_xml_data) rset ≡ ok (pre_select fd rset)
unfolding pre_select_object pre_select
pre_select_object_lem fd rset small = elim (Bool-cases (ltb_ℤ (pos 0) fd)) [
  | inl e ↦ rw (e, fd_set_lem fd rset small) refl
  | inr e ↦ rw e refl
]

pub pre_select_objects_lem :
    (heap : Heap ClientConnector) (ps : List ℕ) (fds : List ℤ) (set : List ℤ × ℤ)
    → All IsSmall fds
    → Points heap ps (clients fds)
    → pre_select_objects heap ps set ≡ ok (pre_select_all fds set)
unfolding pre_select_objects pre_select_all
pre_select_objects_lem heap [] [] (rset, maxfd) small h = refl
pre_select_objects_lem heap [] (fd ∷ fds) set small h = absurd h
pre_select_objects_lem heap (p ∷ ps) [] set small h = absurd h
pre_select_objects_lem heap (p ∷ ps) (fd ∷ fds) (rset, maxfd) (fits, small) (e, n, h) =
    rw (e, pre_select_object_lem fd rset fits)
      (pre_select_objects_lem heap ps fds
        ((pre_select fd rset).0, max_ℤ maxfd (pre_select fd rset).1) small h)

is_ready_lem : (round : Round) (fd : ℤ) → IsSmall fd → is_ready round fd ≡ ok (round.ready fd)
unfolding is_ready
is_ready_lem round fd (nonnegative, below) = rw (nonnegative, below) refl

pub post_select_objects_lem :
    (sdks : SdkObjects) (db : XmlDatabase) (round : Round) (heap : Heap ClientConnector)
    (ps : List ℕ) (fds : List ℤ)
    → OwnsSdks sdks db.sdks
    → All IsSmall fds
    → Points heap ps (clients fds)
    → post_select_objects sdks round heap ps ≡ post_select_all db round fds
unfolding post_select_objects post_select_all deref
post_select_objects_lem sdks db round heap [] [] owns small h = refl
post_select_objects_lem sdks db round heap [] (fd ∷ fds) owns small h = absurd h
post_select_objects_lem sdks db round heap (p ∷ ps) [] owns small h = absurd h
post_select_objects_lem sdks db round heap (p ∷ ps) (fd ∷ fds) owns (fits, small) (e, n, h) =
    rw
      (
        e,
        is_ready_lem round fd fits,
        post_select_objects_lem sdks db round heap ps fds owns small h,
        sdk_objects_lem sdks db owns,
      )
      refl
