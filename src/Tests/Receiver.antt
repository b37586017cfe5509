-- ===== src/Tests/Receiver.antt =====
-- The receiver of events of jni/VRNativeJNI.cpp on a small Java runtime.
use vr_admin.Prelude.{
  true, ℕ, ◌+◌, ◌≡◌, refl, Option, none, some, List, [], ◌∷◌, ◌++◌, pos, Exec, ok, undefined, arith,
}
use vr_admin.CString.{Bytes, codes}
use vr_admin.Jni.Runtime.{Runtime, GlobalRefs, plus_ref, minus_ref}
use vr_admin.Jni.Receiver.{new_receiver, delete_receiver, post_event, post_all, Posting}
use vr_admin.Jni.Receiver.References.{receiver_lifetime, post_event_unfound}
use vr_admin.Jni.Registration.{
  system_call_method, on_load, declared, descriptor, resolve, on_load-resolve,
}

program : Unit {0}
unfolding new_receiver delete_receiver post_event post_all
program = tt

-- The global references, the number of the next, and the texts that were posted.
abbrev Machine : Type 0
Machine = List ℕ × ℕ × List Bytes

abbrev give_ref : Option ℕ → Machine → Option ℕ × Machine
give_ref none w = (none, w)
give_ref (some r) (refs, n, texts) = (some n, (n ∷ refs, n + 1, texts))

abbrev drop_ref : Option ℕ → Machine → Machine
drop_ref r (refs, n, texts) = (minus_ref r refs, n, texts)

-- A call needs a class, a method and a text.
abbrev call_method : Option ℕ → Option ℕ → Option Bytes → Machine → Exec Machine
call_method none m s w = undefined
call_method (some c) none s w = undefined
call_method (some c) (some m) none w = undefined
call_method (some c) (some m) (some s) (refs, n, texts) = ok (refs, n, texts ++ (s ∷ []))

-- Every object is of the class 1, which has the method or not.
abbrev java : Option ℕ → Runtime
java method = record {
  World = Machine;
  Method = ℕ;
  get_object_class = λ r w. (some 1, w);
  get_static_method_id = λ c w. (method, w);
  new_global_ref = give_ref;
  delete_global_ref = drop_ref;
  new_string_utf = λ s w. (some 9, w);
  delete_local_ref = λ r w. w;
  call_static_void = λ c m o what arg1 arg2 s w. call_method c m (some (codes "text")) w;
}

called_globals :
    (c : Option ℕ) (m : Option ℕ) (s : Option Bytes) (w w' : Machine)
    → call_method c m s w ≡ ok w'
    → w'.0 ≡ w.0
called_globals none m s w w' e = cc
called_globals (some c) none s w w' e = cc
called_globals (some c) (some m) none w w' e = cc
called_globals (some c) (some m) (some s) w w' e = ground arith

unfoldable java_laws : (method : Option ℕ) → GlobalRefs (java method)
java_laws method = record {
  globals = λ w. w.0;
  globals-new_global_ref = given;
  globals-delete_global_ref = λ r w. refl;
  globals-get_object_class = λ r w. refl;
  globals-get_static_method_id = λ c w. refl;
  globals-new_string_utf = λ s w. refl;
  globals-delete_local_ref = λ r w. refl;
  globals-call_static_void =
      λ c m o what arg1 arg2 s w w' e. called_globals c m (some (codes "text")) w w' e;
}
  where
    given : (r : Option ℕ) (w : Machine) → (give_ref r w).1.0 ≡ plus_ref (give_ref r w).0 w.0
    given none w = refl
    given (some r) w = refl

abbrev start : Machine
start = (7 ∷ [], 10, [])

abbrev postings : List Posting
postings = (pos 1, pos 2, pos 3, some (codes "text")) ∷ (pos 1, pos 2, pos 3, none) ∷ []

receiver_lifetime_example :
    (delete_receiver
      (java (some 5))
      (new_receiver (java (some 5)) (some 3) (some 4) start).0
      (11 ∷ 10 ∷ 7 ∷ [], 12, codes "text" ∷ [])).0
    ≡ 7 ∷ []
unfolding java_laws delete_receiver
receiver_lifetime_example =
    receiver_lifetime (java (some 5)) (java_laws (some 5)) (some 3) (some 4) postings start
      (11 ∷ 10 ∷ 7 ∷ [], 12, codes "text" ∷ []) (unfold program in refl)

post_event_unfound_example :
    post_event
      (java none)
      (new_receiver (java none) (some 3) (some 4) start).0
      (pos 1)
      (pos 2)
      (pos 3)
      (some (codes "text"))
      start
    ≡ undefined
post_event_unfound_example =
    post_event_unfound (java none) (some 3) (some 4) start (λ clazz e. refl)
      (λ what arg1 arg2 s u. refl) (pos 1) (pos 2) (pos 3) (codes "text") start

on_load-resolve_example :
    resolve
      (codes "native_systemCall")
      (descriptor (declared system_call_method))
      (on_load (pos 65542) true true).1
    ≡ some system_call_method
unfolding declared
on_load-resolve_example = on_load-resolve (pos 65542) system_call_method
