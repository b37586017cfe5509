-- ===== src/Tests/Objects.antt =====
-- The connectors and the SDKs of jni/main/ServerListener.cpp as objects: an address is used again.
use vr_admin.Prelude.{
  ◌≡◌, refl, ◌==◌, if◌then◌else◌, none, some, [], ◌∷◌, List, All, pos, Exec, ok, arith,
}
use vr_admin.ServerListener.Service.{Watched}
use vr_admin.ServerListener.Objects.Limits.{fits_set, select_objects-Watched}
use vr_admin.ServerListener.{select_set, History, run, run_rounds}
use vr_admin.ServerListener.Sdks.{new_listener_objects}
use vr_admin.ServerListener.Objects.Run.{heap_prologue, heap_run, listener_life}
use vr_admin.ServerListener.Objects.Life.{IsAllowedLife, Lives, listener_life-Lives}
use vr_admin.Heap.{delete_all}
use vr_admin.XmlDatabase.Objects.{
  find_type, find_sdk, append_object_types, all_object_types, generate_object, visit_object,
  visit_objects, parse_objects, destroy_sdks, SdkObjects,
}
use vr_admin.ServerListener.Objects.{
  m_xml_data, new_connector, deref, get_conn_id, any_conn_id, Objects, add_object, erase_object,
  del_object,
}
use vr_admin.ServerListener.Objects.Ownership.{IsOwner}
use vr_admin.ServerListener.Objects.Loop.{
  HeapListener, HeapRound, fd_set, pre_select_object, is_ready, pre_select_objects, select_objects,
  post_select_objects, del_objects, heap_round, heap_rounds,
}
use vr_admin.ServerListener.Objects.Refinement.{Represents}
use vr_admin.ServerListener.Objects.Histories.{AllAllowed, rounds_of, Refines, heap_rounds-Refines}
use vr_admin.Tests.Data.{svr_sdk, lvr_sdk, info-GivesTexts, info-HasTexts, info_xml}
use vr_admin.Tests.Listener.{
  program, two_clients, two_clients-IsValid, busy, arrival, setup, fresh, new_listener-info,
  busy-Fits, arrival-Fits,
}

heap_program : Unit {0}
unfolding delete_all find_type find_sdk append_object_types all_object_types generate_object
    visit_object visit_objects parse_objects destroy_sdks new_listener_objects heap_prologue
    heap_run listener_life program fd_set pre_select_object is_ready deref get_conn_id any_conn_id
    add_object erase_object del_object pre_select_objects select_objects post_select_objects
    del_objects heap_round heap_rounds AllAllowed
heap_program = tt

-- The connectors of 7 and 8, at the addresses 16 and 32.
abbrev two_objects : Objects
two_objects = record {
  pointers = 16 ∷ 32 ∷ [];
  heap = λ p.
      if p == 16
      then some (new_connector (pos 7) m_xml_data)
      else if p == 32
      then some (new_connector (pos 8) m_xml_data)
      else none;
}

abbrev two_sdks : SdkObjects
two_sdks = record {
  pointers = 80 ∷ 96 ∷ [];
  heap = λ p. if p == 80 then some svr_sdk else if p == 96 then some lvr_sdk else none;
}

abbrev heap_listener : HeapListener
heap_listener = record {
  wakeup_read = pos 3;
  wakeup_write = pos 4;
  listen_fd = pos 5;
  sdks = two_sdks;
  objects = two_objects;
}

-- 7 ends while 9 arrives; then 7 arrives again, and its object gets the address of the old one.
abbrev heap_busy : List HeapRound
heap_busy = record { round = busy; address = 48 } ∷ record { round = arrival; address = 16 } ∷ []

two_objects-IsOwner : IsOwner two_objects (pos 7 ∷ pos 8 ∷ [])
two_objects-IsOwner = record {
  points = (refl, ((λ e. ground arith), tt), (refl, tt, tt));
  no_leak = λ p (a, (b, u)). ground arith;
}

heap_listener-Represents : Represents heap_listener two_clients
heap_listener-Represents = record {
  owns_sdks = record {
    points = (refl, ((λ e. ground arith), tt), (refl, tt, tt));
    no_leak = λ p (a, (b, u)). ground arith;
  };
  same_listen = refl;
  same_wakeup = refl;
  owns = two_objects-IsOwner;
  small = ((refl, refl), ((refl, refl), tt));
  small_listen = (refl, refl);
  small_wakeup = (refl, refl);
}

heap_busy-AllAllowed : AllAllowed heap_busy heap_listener
unfolding heap_program
heap_busy-AllAllowed = ((refl, refl), ((refl, refl), tt))

heap_rounds-Refines_example :
    (k : History) × (run_rounds (rounds_of heap_busy) two_clients ≡ ok k)
    × Refines (heap_rounds heap_busy heap_listener) k
heap_rounds-Refines_example =
    heap_rounds-Refines heap_busy heap_listener two_clients heap_busy-AllAllowed
      heap_listener-Represents two_clients-IsValid info-HasTexts (busy-Fits, (arrival-Fits, tt))

-- A pointer that was not erased would be followed.
dangling : add_object 48 (pos 9) (record two_objects { heap = λ p. none }) ≡ Exec.undefined
unfolding heap_program
dangling = refl

-- A client arrives in the first round, and in the second another one, while both are ready.
abbrev life_rounds : List HeapRound
life_rounds = record { round = arrival; address = 48 } ∷ record { round = busy; address = 64 } ∷ []

life_rounds-IsAllowedLife :
    IsAllowedLife setup life_rounds (new_listener_objects info_xml 10 16 32 [])
unfolding heap_program
life_rounds-IsAllowedLife = ((refl, refl), (refl, refl), ((refl, refl), ((refl, refl), tt)))

listener_life-Lives_example :
    (h : History) × (run setup (rounds_of life_rounds) fresh ≡ ok h)
    × Lives (listener_life info_xml 10 16 32 [] setup life_rounds) h
listener_life-Lives_example =
    listener_life-Lives info_xml 10 16 32 [] _ fresh setup life_rounds info-GivesTexts
      new_listener-info (λ e. ground arith) (arrival-Fits, (busy-Fits, tt))
      life_rounds-IsAllowedLife

select_objects-Watched_example :
    (select_objects heap_listener
      ≡ (if fits_set two_clients then ok (select_set two_clients) else Exec.undefined))
    × Watched (select_set two_clients) (pos 5)
    × Watched (select_set two_clients) (pos 3)
    × All (Watched (select_set two_clients)) (pos 7 ∷ pos 8 ∷ [])
select_objects-Watched_example =
    select_objects-Watched heap_listener two_clients refl refl two_objects-IsOwner
      two_clients-IsValid

-- The wake-up pipe has the descriptor 1024.
overrun : select_objects (record heap_listener { wakeup_read = pos 1024 }) ≡ Exec.undefined
unfolding heap_program
overrun = refl
