-- ===== src/ServerListener/Objects/Refinement.antt =====
-- The loop over the pointers is the loop over the descriptors.
use vr_admin.Prelude.{
  ◌≡◌, refl, ◌∙◌, ap, sym, inl, inr, Bool, true, false, ◌&&◌, Bool-cases, eqb_ℤ, ltb_ℤ,
  if◌then◌else◌, All, All-append, Option, none, some, List, [], ◌∷◌, ℤ, pos, minus_one, Exec, ok,
  undefined, ◌>>=◌, arith,
}
use vr_admin.CString.{Bytes}
use vr_admin.ServerListener.Connectors.{All-erase}
use vr_admin.ServerListener.Rounds.{accept-xml_data}
use vr_admin.XmlDatabase.Objects.Refinement.{OwnsSdks}
use vr_admin.ServerListener.{
  ServerListener, has_connector, select_set, add_connector, del_connector, Round, Log, nothing,
  post_select_all, del_all, serve, accept, after_wakeup, run_round,
}
use vr_admin.ServerListener.Objects.{Objects}
use vr_admin.ServerListener.Objects.Ownership.{IsOwner, add_object-Owned, del_object-Owned}
use vr_admin.ServerListener.Objects.Loop.{
  HeapListener, HeapRound, select_objects, del_objects, serve_objects, accept_object,
  heap_after_wakeup, heap_round, fd_setsize,
}
use vr_admin.ServerListener.Objects.Sets.{
  IsSmall, fd_set_lem, pre_select_objects_lem, post_select_objects_lem,
}

-- The listener on the heap, and its model with the descriptors.
pub record Represents (h : HeapListener) (l : ServerListener) : Type 0 where
  pub owns_sdks : OwnsSdks h.sdks l.xml_data.sdks
  pub same_listen : h.listen_fd ≡ l.listen_fd
  pub same_wakeup : h.wakeup_read ≡ l.wakeup_read
  pub owns : IsOwner h.objects l.connectors
  pub small : All IsSmall l.connectors
  pub small_listen : IsSmall l.listen_fd
  pub small_wakeup : IsSmall l.wakeup_read

-- A record of what deleting leaves, with the fields that it does not touch.
record Deleted (fds : List ℤ) (l : ServerListener) (run : Exec Objects) : Type 0 where
  objects : Objects
  returned : run ≡ ok objects
  owns : IsOwner objects (del_all fds l).connectors
  same_data : (del_all fds l).xml_data ≡ l.xml_data
  same_listen : (del_all fds l).listen_fd ≡ l.listen_fd
  same_wakeup : (del_all fds l).wakeup_read ≡ l.wakeup_read

del_objects-Deleted :
    (fds : List ℤ) (o : Objects) (l : ServerListener)
    → IsOwner o l.connectors
    → Deleted fds l (del_objects fds o)
unfolding del_objects del_all del_connector
del_objects-Deleted [] o l owns = record {
  objects = o;
  returned = refl;
  owns = owns;
  same_data = refl;
  same_listen = refl;
  same_wakeup = refl;
}
del_objects-Deleted (fd ∷ fds) o l owns =
    let (o', run, owns') = del_object-Owned fd o l owns in
    let d = del_objects-Deleted fds o' (del_connector fd l).0 owns' in
    record {
      objects = d.objects;
      returned = rw run d.returned;
      owns = d.owns;
      same_data = d.same_data;
      same_listen = d.same_listen;
      same_wakeup = d.same_wakeup;
    }

All-del_all :
    (P : ℤ → Type 0) (fds : List ℤ) (l : ServerListener)
    → All P l.connectors
    → All P (del_all fds l).connectors
unfolding del_all del_connector
All-del_all P [] l h = h
All-del_all P (fd ∷ fds) l h =
    All-del_all P fds (del_connector fd l).0 (All-erase P fd l.connectors h)

All-add_connector :
    (P : ℤ → Type 0) (fd : ℤ) (l : ServerListener)
    → P fd
    → All P l.connectors
    → All P (add_connector fd l).0.connectors
unfolding add_connector
All-add_connector P fd l new h = elim (Bool-cases (has_connector fd l.connectors)) [
  | inl e ↦ rw e h
  | inr e ↦ rw e (All-append P l.connectors (fd ∷ []) h (new, tt))
]

-- Both undefined, both left, or both going on with the same log.
abbrev pub Corresponds :
    Exec (Option (HeapListener × Log)) → Exec (Option (ServerListener × Log)) → Type 0
Corresponds undefined undefined = Unit {0}
Corresponds undefined (ok r) = ⊥
Corresponds (ok r) undefined = ⊥
Corresponds (ok none) (ok none) = Unit {0}
Corresponds (ok none) (ok (some r)) = ⊥
Corresponds (ok (some r)) (ok none) = ⊥
Corresponds (ok (some (h, log))) (ok (some (l, log'))) = Represents h l × (log ≡ log')

Corresponds-if :
    (a b : Bool) (x y : Exec (Option (HeapListener × Log)))
    (x' y' : Exec (Option (ServerListener × Log)))
    → a ≡ b
    → Corresponds x x'
    → Corresponds y y'
    → Corresponds (if a then x else y) (if b then x' else y')
Corresponds-if true b x y x' y' e hx hy = rw (← e) hx
Corresponds-if false b x y x' y' e hx hy = rw (← e) hy

serve_quits :
    (h : HeapListener) (l : ServerListener) (run : Exec (List (ℤ × Bytes) × List ℤ))
    → Represents h l
    → Corresponds
        (run >>= λ (sent, quits). del_objects quits h.objects >>= λ o.
          ok (some (record h { objects = o }, record { sent = sent; closed = quits })))
        (run >>= λ (sent, quits).
          ok (some (del_all quits l, record { sent = sent; closed = quits })))
serve_quits h l undefined r = tt
serve_quits h l (ok (sent, quits)) r =
    let d = del_objects-Deleted quits h.objects l r.owns in
    rw d.returned (
      record {
        owns_sdks = rw d.same_data r.owns_sdks;
        same_listen = r.same_listen ∙ sym d.same_listen;
        same_wakeup = r.same_wakeup ∙ sym d.same_wakeup;
        owns = d.owns;
        small = All-del_all IsSmall quits l r.small;
        small_listen = rw d.same_listen r.small_listen;
        small_wakeup = rw d.same_wakeup r.small_wakeup;
      },
      refl,
    )

serve_objects_lem :
    (round : Round) (h : HeapListener) (l : ServerListener)
    → Represents h l
    → Corresponds (serve_objects round h) (serve round l)
serve_objects_lem round h l r =
    rw
      (post_select_objects_lem h.sdks l.xml_data round h.objects.heap h.objects.pointers
        l.connectors r.owns_sdks r.small r.owns.points)
      (serve_quits h l (post_select_all l.xml_data round l.connectors) r)

-- `new` gives a free address, and `accept` no descriptor of FD_SETSIZE or more.
abbrev pub IsAllowed : HeapRound → HeapListener → Type 0
IsAllowed r h = (h.objects.heap r.address ≡ none) × (ltb_ℤ r.round.accepted fd_setsize ≡ true)

Accepts : HeapRound → HeapListener → ServerListener → Type 0
Accepts r h l = (h' : HeapListener) × (accept_object r h ≡ ok h') × Represents h' (accept r.round l)

accept_object-Accepts :
    (r : HeapRound) (h : HeapListener) (l : ServerListener)
    → IsAllowed r h
    → Represents h l
    → Accepts r h l
unfolding Accepts
accept_object-Accepts r h l ready rep = elim (Bool-cases (ltb_ℤ (pos 0) r.round.accepted)) [
  | inl e ↦
      let (o, run, owns) =
        add_object-Owned r.address r.round.accepted h.objects l ready.0 rep.owns in
      (
        record h { objects = o },
        rw (e, run) refl,
        record {
          owns_sdks = rw (accept-xml_data r.round l) rep.owns_sdks;
          same_listen = rep.same_listen ∙ sym (unfold add_connector in ground arith);
          same_wakeup = rep.same_wakeup ∙ sym (unfold add_connector in ground arith);
          owns = rw e owns;
          small =
              rw e (All-add_connector IsSmall r.round.accepted l (ground arith, ready.1) rep.small);
          small_listen = unfold add_connector in ground (arith, rep.small_listen);
          small_wakeup = unfold add_connector in ground (arith, rep.small_wakeup);
        },
      )
  | inr e ↦ (h, rw e refl, rw e rep)
]

heap_after_wakeup_lem :
    (r : HeapRound) (h : HeapListener) (l : ServerListener)
    → IsAllowed r h
    → Represents h l
    → Corresponds (heap_after_wakeup r h) (after_wakeup r.round l)
unfolding Accepts
heap_after_wakeup_lem r h l ready rep =
    let (h', run, rep') = accept_object-Accepts r h l ready rep in
    rw run (
      Corresponds-if _ _ _ _ _ _ (ap r.round.ready rep.same_listen)
        (Corresponds-if (eqb_ℤ r.round.nfds (pos 1)) (eqb_ℤ r.round.nfds (pos 1))
          (ok (some (h', nothing))) _ (ok (some (accept r.round l, nothing))) _ refl (rep', refl)
          (serve_objects_lem r.round h' (accept r.round l) rep'))
        (serve_objects_lem r.round h l rep))

heap_after_select_failed :
    (b : Bool) (h : HeapListener) (l : ServerListener)
    → Represents h l
    → Corresponds
        (ok (if b then some (h, nothing) else none))
        (ok (if b then some (l, nothing) else none))
heap_after_select_failed true h l rep = (rep, refl)
heap_after_select_failed false h l rep = tt

heap_after_select_done :
    (r : HeapRound) (h : HeapListener) (l : ServerListener)
    → IsAllowed r h
    → Represents h l
    → Corresponds
        (if r.round.ready h.wakeup_read && eqb_ℤ r.round.nfds (pos 1)
          then ok (some (h, nothing))
          else heap_after_wakeup r h)
        (if r.round.ready l.wakeup_read && eqb_ℤ r.round.nfds (pos 1)
          then ok (some (l, nothing))
          else after_wakeup r.round l)
heap_after_select_done r h l ready rep =
    Corresponds-if (r.round.ready h.wakeup_read && eqb_ℤ r.round.nfds (pos 1)) _
      (ok (some (h, nothing))) _ (ok (some (l, nothing))) _
      (ap (λ fd. r.round.ready fd && eqb_ℤ r.round.nfds (pos 1)) rep.same_wakeup) (rep, refl)
      (heap_after_wakeup_lem r h l ready rep)

select_objects_lem :
    (h : HeapListener) (l : ServerListener) → Represents h l → select_objects h ≡ ok (select_set l)
unfolding select_objects select_set
select_objects_lem h l rep =
    rw
      (
        rep.same_listen,
        rep.same_wakeup,
        fd_set_lem l.wakeup_read [] rep.small_wakeup,
        fd_set_lem l.listen_fd (l.wakeup_read ∷ []) rep.small_listen,
      )
      (pre_select_objects_lem h.objects.heap h.objects.pointers l.connectors _ rep.small
        rep.owns.points)

pub heap_round_lem :
    (r : HeapRound) (h : HeapListener) (l : ServerListener)
    → IsAllowed r h
    → Represents h l
    → Corresponds (heap_round r h) (run_round r.round l)
unfolding heap_round run_round
heap_round_lem r h l ready rep = rw (select_objects_lem h l rep) (
    Corresponds-if (eqb_ℤ r.round.nfds minus_one) (eqb_ℤ r.round.nfds minus_one)
      (ok (if r.round.interrupted then some (h, nothing) else none)) _
      (ok (if r.round.interrupted then some (l, nothing) else none)) _ refl
      (heap_after_select_failed r.round.interrupted h l rep)
      (heap_after_select_done r h l ready rep))
