-- ===== src/Jni.antt =====
-- jni/VRNativeJNI.cpp: the native methods of the Java class VRManager, and the object that receives
-- the events of the service.
pub mod Runtime
pub mod Receiver
pub mod Registration
pub mod Access
use vr_admin.Prelude.{
  Bool, true, false, ◌||◌, if◌then◌else◌, Option, none, some, List, [], ◌∷◌, ◌++◌, ℤ, pos,
  minus_one, Exec, ok, undefined, ◌>>=◌,
}
use vr_admin.CString.{Bytes}
use vr_admin.Binder.{NativeInterface, EventInterface}

-- A Java string is a text or null.
abbrev pub JString : Type 0
JString = Option Bytes

abbrev pub is_null : JString → Bool
is_null none = true
is_null (some s) = false

abbrev or_empty : Option Bytes → Bytes
or_empty none = []
or_empty (some s) = s

-- The calls of `postEventFromNative`, in order.
abbrev pub Events : Type 0
Events = List (ℤ × ℤ × ℤ × Bytes)

abbrev called : ℤ → ℤ → ℤ → Option Bytes → Events → Events
called what arg1 arg2 none events = events
called what arg1 arg2 (some s) events = events ++ ((what, arg1, arg2, s) ∷ [])

-- `JVRPostEvent`, whose state is the calls that it made, where the class and the method were found and
-- the text becomes a Java string; Jni/Receiver has what happens without them.
abbrev pub jvr_post_event : EventInterface Events
jvr_post_event = record {
  post = λ what arg1 arg2 str events. ok (pos 0, called what arg1 arg2 str events);
}

-- `GetStringUTFChars` gives the characters of a string, or null; a remote service or null is what
-- `getVRService` finds.
module _ (get_string_utf_chars : JString → Exec (Option Bytes)) (Event World : Type 0) where
  abbrev jstring_to_string8 : JString → Exec Bytes
  jstring_to_string8 jstr = get_string_utf_chars jstr >>= λ s. ok (or_empty s)

  abbrev pub new_string : ℤ × Bytes × World → Exec (Bytes × World)
  new_string (ret, text, w) = ok (text, w)

  -- A call that returns the text, and one that returns the result.
  abbrev text_call :
      Option (NativeInterface Event World)
      → World
      → (NativeInterface Event World → Exec (ℤ × Bytes × World))
      → Exec (Bytes × World)
  text_call none w k = ok ([], w)
  text_call (some vr) w k = k vr >>= new_string

  abbrev int_call :
      Option (NativeInterface Event World)
      → World
      → (NativeInterface Event World → Exec (ℤ × World))
      → Exec (ℤ × World)
  int_call none w k = ok (minus_one, w)
  int_call (some vr) w k = k vr

  -- `__native_setup`.
  unfoldable pub native_setup : Option (NativeInterface Event World) → Event → World → Exec World
  native_setup none reporter w = ok w
  native_setup (some vr) reporter w = vr.set_post_event (some reporter) w >>= λ (ret, w'). ok w'

  -- `__native_getSystemNode`.
  unfoldable pub native_get_system_node :
      Option (NativeInterface Event World) → JString → World → Exec (Bytes × World)
  native_get_system_node vr jpath w = do
    path ← jstring_to_string8 jpath
    if is_null jpath then ok ([], w) else text_call vr w (λ s. s.get_node path [] w)

  -- `__native_setSystemNode`.
  unfoldable pub native_set_system_node :
      Option (NativeInterface Event World) → JString → JString → World → Exec (ℤ × World)
  native_set_system_node vr jpath jvalue w = do
    path ← jstring_to_string8 jpath
    value ← jstring_to_string8 jvalue
    if is_null jpath || is_null jvalue
        then ok (minus_one, w)
        else int_call vr w (λ s. s.set_node path value w)

  -- `__native_systemCall`.
  unfoldable pub native_system_call :
      Option (NativeInterface Event World) → JString → World → Exec (Bytes × World)
  native_system_call vr jcmd w = do
    cmd ← jstring_to_string8 jcmd
    text_call vr w (λ s. s.syscall cmd [] w)

  -- `__native_getProperty`.
  unfoldable pub native_get_property :
      Option (NativeInterface Event World) → JString → World → Exec (Bytes × World)
  native_get_property vr jkey w = do
    key ← jstring_to_string8 jkey
    if is_null jkey then ok ([], w) else text_call vr w (λ s. s.get_attr key [] w)

  -- `__native_setProperty`.
  unfoldable pub native_set_property :
      Option (NativeInterface Event World) → JString → JString → World → Exec (ℤ × World)
  native_set_property vr jkey jvalue w = do
    key ← jstring_to_string8 jkey
    value ← jstring_to_string8 jvalue
    if is_null jkey || is_null jvalue
        then ok (minus_one, w)
        else int_call vr w (λ s. s.set_attr key value w)

  -- `__native_setThreadScheduler`.
  unfoldable pub native_set_thread_scheduler :
      Option (NativeInterface Event World) → ℤ → ℤ → ℤ → World → Exec (ℤ × World)
  native_set_thread_scheduler vr jtid jpolicy jpri w =
      int_call vr w (λ s. s.set_sched jtid jpolicy jpri w)
