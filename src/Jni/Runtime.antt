-- ===== src/Jni/Runtime.antt =====
-- The Java runtime as jni/VRNativeJNI.cpp calls it. It is not part of the repository: its state is
-- passed through the calls, and a reference is a number.
use vr_admin.Prelude.{ℕ, ◌≡◌, ◌==◌, if◌then◌else◌, Option, none, some, List, [], ◌∷◌, ℤ, Exec, ok}
use vr_admin.CString.{Bytes}

-- `none` is a null reference, and a null method.
pub record Runtime : Type 1 where
  pub World : Type 0
  pub Method : Type 0
  pub get_object_class : Option ℕ → World → Option ℕ × World
  pub get_static_method_id : ℕ → World → Option Method × World
  pub new_global_ref : Option ℕ → World → Option ℕ × World
  pub delete_global_ref : Option ℕ → World → World
  pub new_string_utf : Bytes → World → Option ℕ × World
  pub delete_local_ref : Option ℕ → World → World
  -- The class, the method and the five arguments.
  pub call_static_void :
      Option ℕ → Option Method → Option ℕ → ℤ → ℤ → ℤ → Option ℕ → World → Exec World

-- The list without its first member that is this reference.
abbrev pub without : ℕ → List ℕ → List ℕ
without r [] = []
without r (x ∷ xs) = if x == r then xs else x ∷ without r xs

abbrev pub plus_ref : Option ℕ → List ℕ → List ℕ
plus_ref none refs = refs
plus_ref (some r) refs = r ∷ refs

abbrev pub minus_ref : Option ℕ → List ℕ → List ℕ
minus_ref none refs = refs
minus_ref (some r) refs = without r refs

-- A global reference lives from its creation to its deletion; to delete null does nothing; no other
-- call touches the global references.
pub record GlobalRefs (jvm : Runtime) : Type 0 where
  pub globals : jvm.World → List ℕ
  pub globals-new_global_ref :
      (r : Option ℕ) (w : jvm.World)
      → globals (jvm.new_global_ref r w).1 ≡ plus_ref (jvm.new_global_ref r w).0 (globals w)
  pub globals-delete_global_ref :
      (r : Option ℕ) (w : jvm.World) → globals (jvm.delete_global_ref r w) ≡ minus_ref r (globals w)
  pub globals-get_object_class :
      (r : Option ℕ) (w : jvm.World) → globals (jvm.get_object_class r w).1 ≡ globals w
  pub globals-get_static_method_id :
      (c : ℕ) (w : jvm.World) → globals (jvm.get_static_method_id c w).1 ≡ globals w
  pub globals-new_string_utf :
      (s : Bytes) (w : jvm.World) → globals (jvm.new_string_utf s w).1 ≡ globals w
  pub globals-delete_local_ref :
      (r : Option ℕ) (w : jvm.World) → globals (jvm.delete_local_ref r w) ≡ globals w
  pub globals-call_static_void :
      (c : Option ℕ) (m : Option jvm.Method) (o : Option ℕ) (what arg1 arg2 : ℤ) (s : Option ℕ)
      (w w' : jvm.World)
      → jvm.call_static_void c m o what arg1 arg2 s w ≡ ok w'
      → globals w' ≡ globals w
