-- ===== src/ServerListener/Objects/Ownership.antt =====
-- The objects are those of the list, and the list is the one of the descriptors.
use vr_admin.Prelude.{
  ℕ, ◌≡◌, refl, ◌∙◌, ap, inl, inr, ◌==◌, ==_refl, true, false, Bool-cases, eqb_ℤ, none, some, List,
  [], ◌∷◌, ◌++◌, ℤ, Exec, ok, arith,
}
use vr_admin.Heap.{Heap, write_cell, NotAt, Points, Owns, Points-write_cell, push-Owns}
use vr_admin.ServerListener.{ServerListener, has_connector, add_connector, erase, del_connector}
use vr_admin.ServerListener.Objects.{
  ClientConnector, m_xml_data, new_connector, get_conn_id, any_conn_id, Objects, add_object,
  erase_object, del_object,
}

-- The objects of these descriptors.
abbrev pub clients : List ℤ → List ClientConnector
clients [] = []
clients (fd ∷ fds) = new_connector fd m_xml_data ∷ clients fds

clients-append :
    (fds : List ℤ) (fd : ℤ)
    → clients (fds ++ (fd ∷ [])) ≡ clients fds ++ (new_connector fd m_xml_data ∷ [])
clients-append [] fd = refl
clients-append (x ∷ fds) fd = ap (◌∷◌ (new_connector x m_xml_data)) (clients-append fds fd)

-- The pointers lead to distinct live objects, one for each descriptor and in their order, and no
-- other object lives.
abbrev pub IsOwner : Objects → List ℤ → Type 0
IsOwner o fds = Owns o.heap o.pointers (clients fds)

any_conn_id_lem :
    (confd : ℤ) (heap : Heap ClientConnector) (ps : List ℕ) (fds : List ℤ)
    → Points heap ps (clients fds)
    → any_conn_id confd heap ps ≡ ok (has_connector confd fds)
unfolding any_conn_id get_conn_id has_connector
any_conn_id_lem confd heap [] [] h = refl
any_conn_id_lem confd heap [] (fd ∷ fds) h = absurd h
any_conn_id_lem confd heap (p ∷ ps) [] h = absurd h
any_conn_id_lem confd heap (p ∷ ps) (fd ∷ fds) (e, n, h) =
    rw (e, any_conn_id_lem confd heap ps fds h) (ground arith)

-- What the loop of `delConnector` leaves.
record Erased (confd : ℤ) (ps : List ℕ) (heap : Heap ClientConnector) (ids : List ℤ) (o : Objects)
    : Type 0 where
  points : Points o.heap o.pointers (clients (erase confd ids))
  fewer : (q : ℕ) → NotAt q ps → NotAt q o.pointers
  elsewhere : (q : ℕ) → NotAt q ps → o.heap q ≡ heap q
  freed : (q : ℕ) → NotAt q o.pointers → (NotAt q ps → heap q ≡ none) → o.heap q ≡ none

abbrev Erases : ℤ → List ℕ → Heap ClientConnector → List ℤ → Exec Objects → Type 0
Erases confd ps heap ids run = (o : Objects) × (run ≡ ok o) × Erased confd ps heap ids o

erase_first :
    (confd : ℤ) (p : ℕ) (ps : List ℕ) (heap : Heap ClientConnector) (id : ℤ) (ids : List ℤ)
    → eqb_ℤ id confd ≡ true
    → NotAt p ps
    → Points heap ps (clients ids)
    → Erased confd
        (p ∷ ps)
        heap
        (id ∷ ids)
        (record { pointers = ps; heap = write_cell heap p none })
unfolding erase
erase_first confd p ps heap id ids e n h = record {
  points = rw e (Points-write_cell heap p none ps (clients ids) n h);
  fewer = λ q a. a.1;
  elsewhere = λ q a. ground (arith, a.0);
  freed = λ q a free. elim (Bool-cases (p == q)) [
    | inl s ↦ rw s refl
    | inr s ↦ rw s (free ((λ r. ground (arith, ==_refl p)), a))
  ];
}

erase_later :
    (confd : ℤ) (p : ℕ) (ps : List ℕ) (heap : Heap ClientConnector) (id : ℤ) (ids : List ℤ)
    (o : Objects)
    → eqb_ℤ id confd ≡ false
    → heap p ≡ some (new_connector id m_xml_data)
    → NotAt p ps
    → Erased confd ps heap ids o
    → Erased confd (p ∷ ps) heap (id ∷ ids) (record o { pointers = p ∷ o.pointers })
unfolding erase
erase_later confd p ps heap id ids o e at_p n r = record {
  points = rw e (r.elsewhere p n ∙ at_p, r.fewer p n, r.points);
  fewer = λ q a. (a.0, r.fewer q a.1);
  elsewhere = λ q a. r.elsewhere q a.1;
  freed = λ q a free. r.freed q a.1 (λ b. free (a.0, b));
}

erase_object-Erases :
    (confd : ℤ) (ps : List ℕ) (heap : Heap ClientConnector) (ids : List ℤ)
    → Points heap ps (clients ids)
    → Erases confd ps heap ids (erase_object confd ps heap)
unfolding erase_object get_conn_id erase
erase_object-Erases confd [] heap [] h = (
  _,
  refl,
  record { points = tt; fewer = λ q a. tt; elsewhere = λ q a. refl; freed = λ q a free. free tt },
)
erase_object-Erases confd [] heap (id ∷ ids) h = absurd h
erase_object-Erases confd (p ∷ ps) heap [] h = absurd h
erase_object-Erases confd (p ∷ ps) heap (id ∷ ids) (e, n, h) = elim (Bool-cases (eqb_ℤ id confd)) [
  | inl s ↦ (_, rw (e, s) refl, erase_first confd p ps heap id ids s n h)
  | inr s ↦
      let (o, run, r) = erase_object-Erases confd ps heap ids h in
      (_, rw (e, s, run) refl, erase_later confd p ps heap id ids o s e n r)
]

abbrev pub Owned : ServerListener × ℤ → Exec (Objects × ℤ) → Type 0
Owned (l, ret) run = (o : Objects) × (run ≡ ok (o, ret)) × IsOwner o l.connectors

abbrev pushed : ℕ → ℤ → Objects → Objects
pushed address confd o = record {
  pointers = o.pointers ++ (address ∷ []);
  heap = write_cell o.heap address (some (new_connector confd m_xml_data));
}

-- Where the pointers own the objects of the descriptors, `addConnector` through the pointers, `new`
-- giving a free address, is `addConnector` on the descriptors.
pub add_object-Owned :
    (address : ℕ) (confd : ℤ) (o : Objects) (l : ServerListener)
    → o.heap address ≡ none
    → IsOwner o l.connectors
    → Owned (add_connector confd l) (add_object address confd o)
unfolding add_object add_connector
add_object-Owned address confd o l free owns =
    elim (Bool-cases (has_connector confd l.connectors)) [
      | inl e ↦ (
        o,
        rw (any_conn_id_lem confd o.heap o.pointers l.connectors owns.points, e) refl,
        rw e owns,
      )
      | inr e ↦ (
        pushed address confd o,
        rw (any_conn_id_lem confd o.heap o.pointers l.connectors owns.points, e) refl,
        rw (e, clients-append l.connectors confd)
            (push-Owns o.heap address (new_connector confd m_xml_data) o.pointers
              (clients l.connectors) free owns),
      )
    ]

-- And so is `delConnector`.
pub del_object-Owned :
    (confd : ℤ) (o : Objects) (l : ServerListener)
    → IsOwner o l.connectors
    → Owned (del_connector confd l) (del_object confd o)
unfolding del_object del_connector
del_object-Owned confd o l owns =
    let (o', run, r) = erase_object-Erases confd o.pointers o.heap l.connectors owns.points in
    (o', rw run refl, record { points = r.points; no_leak = λ p a. r.freed p a (owns.no_leak p) })
