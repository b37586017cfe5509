-- ===== src/ServerListener/Objects/Histories.antt =====
-- The rounds over the pointers are the rounds over the descriptors, and no object leaks.
use mathlib.Core.Path.{subst}
use vr_admin.Prelude.{◌≡◌, refl, Option, none, some, List, [], ◌∷◌, All, Exec, ok, undefined, ◌>>=◌}
use vr_admin.XmlDatabase.Texts.{HasTexts}
use vr_admin.ServerListener.Connectors.{IsValid}
use vr_admin.ServerListener.Descriptors.{run_rounds-Conserves}
use vr_admin.ServerListener.Rounds.{Fits}
use vr_admin.XmlDatabase.Objects.Refinement.{OwnsSdks}
use vr_admin.ServerListener.Objects.Ownership.{IsOwner}
use vr_admin.ServerListener.{
  ServerListener, Round, Log, run_round, History, prepend, continue_run, run_rounds,
}
use vr_admin.ServerListener.Objects.Refinement.{IsAllowed, Represents, Corresponds, heap_round_lem}
use vr_admin.ServerListener.Objects.Loop.{
  HeapListener, HeapRound, heap_round, HeapHistory, heap_prepend, heap_continue, heap_rounds,
}

-- In each round `new` gives a free address, and `accept` no descriptor of FD_SETSIZE or more.
abbrev Later : (HeapListener → Type 0) → Exec (Option (HeapListener × Log)) → Type 0
Later P undefined = Unit {0}
Later P (ok none) = Unit {0}
Later P (ok (some (h, log))) = P h

unfoldable pub AllAllowed : List HeapRound → HeapListener → Type 0
AllAllowed [] h = Unit {0}
AllAllowed (r ∷ rs) h = IsAllowed r h × Later (AllAllowed rs) (heap_round r h)

abbrev pub rounds_of : List HeapRound → List Round
rounds_of [] = []
rounds_of (r ∷ rs) = r.round ∷ rounds_of rs

-- The same history over the pointers.
pub record Refines (run : Exec HeapHistory) (h : History) : Type 0 where
  pub history : HeapHistory
  pub returned : run ≡ ok history
  pub owns : IsOwner history.listener.objects h.listener.connectors
  pub owns_sdks : OwnsSdks history.listener.sdks h.listener.xml_data.sdks
  pub same_sent : history.sent ≡ h.sent
  pub same_closed : history.closed ≡ h.closed
  pub same_returned : history.returned ≡ h.returned

unfoldable pub Simulates : Exec HeapHistory → Exec History → Type 0
Simulates run undefined = run ≡ undefined
Simulates run (ok h) = Refines run h

Simulates-prepend :
    (log : Log) (run : Exec HeapHistory) (run' : Exec History)
    → Simulates run run'
    → Simulates (run >>= λ k. ok (heap_prepend log k)) (run' >>= λ k. ok (prepend log k))
unfolding Simulates
Simulates-prepend log run undefined s = rw s refl
Simulates-prepend log run (ok h) s = record {
  history = heap_prepend log s.history;
  returned = rw s.returned refl;
  owns = s.owns;
  owns_sdks = s.owns_sdks;
  same_sent = rw s.same_sent refl;
  same_closed = rw s.same_closed refl;
  same_returned = s.same_returned;
}

heap_continue-Simulates :
    (rs : List HeapRound) (h : HeapListener) (l : ServerListener)
    (x : Exec (Option (HeapListener × Log))) (y : Exec (Option (ServerListener × Log)))
    → Represents h l
    → Corresponds x y
    → Later (AllAllowed rs) x
    → ((h' : HeapListener) (l' : ServerListener)
        → AllAllowed rs h'
        → Represents h' l'
        → Simulates (heap_rounds rs h') (run_rounds (rounds_of rs) l'))
    → Simulates
        (x >>= heap_continue (heap_rounds rs) h)
        (y >>= continue_run (run_rounds (rounds_of rs)) l)
unfolding Simulates
heap_continue-Simulates rs h l undefined undefined rep c free more = refl
heap_continue-Simulates rs h l undefined (ok r) rep c free more = absurd c
heap_continue-Simulates rs h l (ok r) undefined rep c free more = absurd c
heap_continue-Simulates rs h l (ok none) (ok none) rep c free more = record {
  history = _;
  returned = refl;
  owns = rep.owns;
  owns_sdks = rep.owns_sdks;
  same_sent = refl;
  same_closed = refl;
  same_returned = refl;
}
heap_continue-Simulates rs h l (ok none) (ok (some r)) rep c free more = absurd c
heap_continue-Simulates rs h l (ok (some r)) (ok none) rep c free more = absurd c
heap_continue-Simulates rs h l (ok (some (h', log))) (ok (some (l', log'))) rep (rep', same) free
      more =
    rw (← same) (
      Simulates-prepend log (heap_rounds rs h') (run_rounds (rounds_of rs) l')
        (more h' l' free rep'))

pub heap_rounds-Simulates :
    (rs : List HeapRound) (h : HeapListener) (l : ServerListener)
    → AllAllowed rs h
    → Represents h l
    → Simulates (heap_rounds rs h) (run_rounds (rounds_of rs) l)
unfolding Simulates heap_rounds run_rounds AllAllowed
heap_rounds-Simulates [] h l free rep = record {
  history = _;
  returned = refl;
  owns = rep.owns;
  owns_sdks = rep.owns_sdks;
  same_sent = refl;
  same_closed = refl;
  same_returned = refl;
}
heap_rounds-Simulates (r ∷ rs) h l (free, more) rep =
    heap_continue-Simulates rs h l (heap_round r h) (run_round r.round l) rep
      (heap_round_lem r h l free rep) more (heap_rounds-Simulates rs)

-- Let the pointers of the listener own its connectors: they lead to distinct live objects, one for
-- each descriptor in the order of the list, and no other object lives; and let its descriptors be below
-- FD_SETSIZE. Let the connectors be valid, the database hold C strings, no socket give more than 64
-- bytes at once, and, in each round, `new` give a free address and `accept` no descriptor of FD_SETSIZE
-- or more. Then the loop over the pointers completes, without following a dangling
-- pointer or any other undefined behaviour, with what the loop over the descriptors writes, closes
-- and returns; and after it the pointers own the connectors of that loop, so that no object leaks.
pub heap_rounds-Refines :
    (rs : List HeapRound) (h : HeapListener) (l : ServerListener)
    → AllAllowed rs h
    → Represents h l
    → IsValid l
    → All HasTexts l.xml_data.sdks
    → All Fits (rounds_of rs)
    → (k : History) × (run_rounds (rounds_of rs) l ≡ ok k) × Refines (heap_rounds rs h) k
unfolding Simulates
heap_rounds-Refines rs h l free rep valid texts fits =
    let (k, e, c) = run_rounds-Conserves (rounds_of rs) l valid texts fits in
    (k, e, subst (Simulates (heap_rounds rs h)) e (heap_rounds-Simulates rs h l free rep))
