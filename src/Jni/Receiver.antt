-- ===== src/Jni/Receiver.antt =====
-- `JVRPostEvent` of jni/VRNativeJNI.cpp as an object: the references that it holds, from its
-- constructor to its destructor.
pub mod References
use vr_admin.Prelude.{ℕ, Option, none, some, List, [], ◌∷◌, ℤ, pos, Exec, ok, undefined, ◌>>=◌}
use vr_admin.CString.{Bytes}
use vr_admin.Jni.Runtime.{Runtime}

abbrev pub Posting : Type 0
Posting = ℤ × ℤ × ℤ × Option Bytes

module _ (jvm : Runtime) where
  open jvm use {
    World, Method, get_object_class, get_static_method_id, new_global_ref, delete_global_ref,
    new_string_utf, delete_local_ref, call_static_void,
  }

  pub record JvrPostEvent : Type 0 where
    pub class_ref : Option ℕ
    pub object_ref : Option ℕ
    pub post_method : Option Method

  abbrev pub null_receiver : JvrPostEvent
  null_receiver = record { class_ref = none; object_ref = none; post_method = none }

  abbrev hold : Option ℕ × World → Option ℕ → Method → JvrPostEvent × World
  hold (class_ref, w) weak_thiz method =
      let (object_ref, w') = new_global_ref weak_thiz w in
      (record { class_ref = class_ref; object_ref = object_ref; post_method = some method }, w')

  abbrev with_method : ℕ → Option ℕ → Option Method × World → JvrPostEvent × World
  with_method clazz weak_thiz (none, w) = (null_receiver, w)
  with_method clazz weak_thiz (some method, w) =
      hold (new_global_ref (some clazz) w) weak_thiz method

  abbrev with_class : Option ℕ → Option ℕ × World → JvrPostEvent × World
  with_class weak_thiz (none, w) = (null_receiver, w)
  with_class weak_thiz (some clazz, w) = with_method clazz weak_thiz (get_static_method_id clazz w)

  -- The constructor.
  unfoldable pub new_receiver : Option ℕ → Option ℕ → World → JvrPostEvent × World
  new_receiver thiz weak_thiz w = with_class weak_thiz (get_object_class thiz w)

  -- The destructor.
  unfoldable pub delete_receiver : JvrPostEvent → World → World
  delete_receiver r w = delete_global_ref r.class_ref (delete_global_ref r.object_ref w)

  abbrev release_string : Option ℕ → World → World
  release_string none w = w
  release_string (some jstr) w = delete_local_ref (some jstr) w

  abbrev end_call : Option ℕ → World → Exec (ℤ × World)
  end_call jstr w = ok (pos 0, release_string jstr w)

  abbrev call_java : JvrPostEvent → ℤ → ℤ → ℤ → Option ℕ × World → Exec (ℤ × World)
  call_java r what arg1 arg2 (jstr, w) =
      call_static_void r.class_ref r.post_method r.object_ref what arg1 arg2 jstr w
      >>= end_call jstr

  -- `post`.
  unfoldable pub post_event : JvrPostEvent → ℤ → ℤ → ℤ → Option Bytes → World → Exec (ℤ × World)
  post_event r what arg1 arg2 none w = ok (pos 0, w)
  post_event r what arg1 arg2 (some str) w = call_java r what arg1 arg2 (new_string_utf str w)

  -- Some events, one after another.
  unfoldable pub post_all : JvrPostEvent → List Posting → World → Exec World
  unfolding post_event
  post_all r [] w = ok w
  post_all r ((what, arg1, arg2, str) ∷ postings) w =
      post_event r what arg1 arg2 str w >>= λ (ret, w'). post_all r postings w'
