-- ===== src/Jni/Receiver/References.antt =====
-- The global references of a receiver, and a receiver whose construction failed.
use vr_admin.Prelude.{
  ℕ, ◌≡◌, ==_refl, refl, ◌∙◌, ap, Option, none, some, List, [], ◌∷◌, ℤ, Exec, ok, undefined, ◌>>=◌,
}
use vr_admin.CString.{Bytes}
use vr_admin.Jni.Runtime.{Runtime, GlobalRefs, plus_ref, minus_ref}
use vr_admin.Jni.Receiver.{
  JvrPostEvent, null_receiver, hold, with_method, with_class, new_receiver, delete_receiver,
  release_string, end_call, call_java, post_event, Posting, post_all,
}

module _ (jvm : Runtime) (refs : GlobalRefs jvm) where
  open jvm use {
    World, Method, get_object_class, get_static_method_id, new_global_ref, delete_global_ref,
    new_string_utf, call_static_void,
  }
  open refs use {
    globals, globals-new_global_ref, globals-delete_global_ref, globals-get_object_class,
    globals-get_static_method_id, globals-new_string_utf, globals-delete_local_ref,
    globals-call_static_void,
  }

  minus-plus : (r : Option ℕ) (xs : List ℕ) → minus_ref r (plus_ref r xs) ≡ xs
  minus-plus none xs = refl
  minus-plus (some r) xs = rw (==_refl r) refl

  -- The receiver holds its references in front of those before.
  abbrev Holds : JvrPostEvent jvm × World → List ℕ → Type 0
  Holds (r, w) before = globals w ≡ plus_ref r.object_ref (plus_ref r.class_ref before)

  new_receiver-Holds :
      (thiz weak_thiz : Option ℕ) (w : World)
      → Holds (new_receiver jvm thiz weak_thiz w) (globals w)
  unfolding new_receiver
  new_receiver-Holds thiz weak_thiz w =
      found (get_object_class thiz w) (globals-get_object_class thiz w)
    where
      held :
          (clazz : ℕ) (w' : World)
          → globals w' ≡ globals w
          → (m : Method) → Holds (hold jvm (new_global_ref (some clazz) w') weak_thiz m) (globals w)
      held clazz w' e m =
          globals-new_global_ref weak_thiz _
          ∙ ap (plus_ref _) (globals-new_global_ref (some clazz) w' ∙ ap (plus_ref _) e)

      named :
          (clazz : ℕ) (got : Option Method × World)
          → globals got.1 ≡ globals w
          → Holds (with_method jvm clazz weak_thiz got) (globals w)
      named clazz (none, w') e = e
      named clazz (some m, w') e = held clazz w' e m

      found :
          (got : Option ℕ × World)
          → globals got.1 ≡ globals w
          → Holds (with_class jvm weak_thiz got) (globals w)
      found (none, w') e = e
      found (some clazz, w') e =
          named clazz (get_static_method_id clazz w') (globals-get_static_method_id clazz w' ∙ e)

  globals-release_string :
      (jstr : Option ℕ) (w : World) → globals (release_string jvm jstr w) ≡ globals w
  globals-release_string none w = refl
  globals-release_string (some r) w = globals-delete_local_ref (some r) w

  -- A call that returned has left the global references as they were.
  after_call :
      (r : JvrPostEvent jvm) (what arg1 arg2 : ℤ) (got : Option ℕ × World) (ret : ℤ) (w' : World)
      → call_java jvm r what arg1 arg2 got ≡ ok (ret, w')
      → globals w' ≡ globals got.1
  after_call r what arg1 arg2 (jstr, w) ret w' e =
      returned (call_static_void r.class_ref r.post_method r.object_ref what arg1 arg2 jstr w) refl
        e
    where
      returned :
          (got : Exec World)
          → call_static_void r.class_ref r.post_method r.object_ref what arg1 arg2 jstr w ≡ got
          → (got >>= end_call jvm jstr) ≡ ok (ret, w')
          → globals w' ≡ globals w
      returned undefined h e = cc
      returned (ok u) h e =
          let same : release_string jvm jstr u ≡ w' = cc in
          rw (← same) (globals-release_string jstr u)
          ∙ globals-call_static_void r.class_ref r.post_method r.object_ref what arg1 arg2 jstr w u
              h

  globals-post_event :
      (r : JvrPostEvent jvm) (what arg1 arg2 : ℤ) (str : Option Bytes) (w : World) (ret : ℤ)
      (w' : World)
      → post_event jvm r what arg1 arg2 str w ≡ ok (ret, w')
      → globals w' ≡ globals w
  unfolding post_event
  globals-post_event r what arg1 arg2 none w ret w' e = let same : w ≡ w' = cc in rw (← same) refl
  globals-post_event r what arg1 arg2 (some str) w ret w' e =
      after_call r what arg1 arg2 (new_string_utf str w) ret w' e ∙ globals-new_string_utf str w

  globals-post_all :
      (r : JvrPostEvent jvm) (postings : List Posting) (w w' : World)
      → post_all jvm r postings w ≡ ok w'
      → globals w' ≡ globals w
  unfolding post_all
  globals-post_all r [] w w' e = let same : w ≡ w' = cc in rw (← same) refl
  globals-post_all r ((what, arg1, arg2, str) ∷ postings) w w' e =
      posted (post_event jvm r what arg1 arg2 str w) refl
        (λ u h. globals-post_all r postings u w' h) e
    where
      posted :
          (got : Exec (ℤ × World))
          → post_event jvm r what arg1 arg2 str w ≡ got
          → ((u : World) → post_all jvm r postings u ≡ ok w' → globals w' ≡ globals u)
          → (got >>= λ (ret, u). post_all jvm r postings u) ≡ ok w'
          → globals w' ≡ globals w
      posted undefined h more e = cc
      posted (ok (ret, u)) h more e = more u e ∙ globals-post_event r what arg1 arg2 str w ret u h

  globals-delete_receiver :
      (r : JvrPostEvent jvm) (w : World) (before : List ℕ)
      → Holds (r, w) before
      → globals (delete_receiver jvm r w) ≡ before
  unfolding delete_receiver
  globals-delete_receiver r w before h = rw (
    globals-delete_global_ref,
    globals-delete_global_ref,
    h,
    minus-plus r.object_ref,
    minus-plus r.class_ref,
  )

  -- If the runtime keeps its account of global references, an object that receives events gives back
  -- all that it took: whatever its constructor found, and whatever events it was sent, if all posts
  -- returned, then after its destructor the global references are those before its constructor.
  pub receiver_lifetime :
      (thiz weak_thiz : Option ℕ) (postings : List Posting) (w w' : World)
      → post_all jvm
          (new_receiver jvm thiz weak_thiz w).0
          postings
          (new_receiver jvm thiz weak_thiz w).1
        ≡ ok w'
      → globals (delete_receiver jvm (new_receiver jvm thiz weak_thiz w).0 w') ≡ globals w
  receiver_lifetime thiz weak_thiz postings w w' e =
      globals-delete_receiver _ w' (globals w)
        (globals-post_all _ postings _ w' e ∙ new_receiver-Holds thiz weak_thiz w)

module _ (jvm : Runtime) where
  open jvm use {
    World, Method, get_object_class, get_static_method_id, new_string_utf, call_static_void,
  }

  -- A constructor that does not find the class or the method leaves an object that posts with null
  -- references: if such a call is undefined, as JNI has it, then so is every post of a text.
  pub post_event_unfound :
      (thiz weak_thiz : Option ℕ) (w : World)
      → ((clazz : ℕ)
          → (get_object_class thiz w).0 ≡ some clazz
          → (get_static_method_id clazz (get_object_class thiz w).1).0 ≡ none)
      → ((what arg1 arg2 : ℤ) (s : Option ℕ) (u : World)
          → call_static_void none none none what arg1 arg2 s u ≡ undefined)
      → (what arg1 arg2 : ℤ) (str : Bytes) (u : World)
      → post_event jvm (new_receiver jvm thiz weak_thiz w).0 what arg1 arg2 (some str) u ≡ undefined
  unfolding post_event new_receiver
  post_event_unfound thiz weak_thiz w unfound strict what arg1 arg2 str u =
      rw (stays_null (get_object_class thiz w) unfound, strict) refl
    where
      unnamed :
          (clazz : ℕ) (got : Option Method × World)
          → got.0 ≡ none
          → (with_method jvm clazz weak_thiz got).0 ≡ null_receiver jvm
      unnamed clazz (none, v) e = refl
      unnamed clazz (some m, v) e = cc

      stays_null :
          (got : Option ℕ × World)
          → ((clazz : ℕ) → got.0 ≡ some clazz → (get_static_method_id clazz got.1).0 ≡ none)
          → (with_class jvm weak_thiz got).0 ≡ null_receiver jvm
      stays_null (none, v) h = refl
      stays_null (some clazz, v) h = unnamed clazz _ (h clazz refl)
