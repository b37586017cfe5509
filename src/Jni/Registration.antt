-- ===== src/Jni/Registration.antt =====
-- The table of native methods and `JNI_OnLoad` of jni/VRNativeJNI.cpp, against the methods that
-- src/com/android/VRAdmin/VRManager.java declares.
use vr_admin.Prelude.{
  ◌≡◌, refl, Bool, true, ◌&&◌, if◌then◌else◌, Option, none, some, List, [], ◌∷◌, ◌++◌, ℤ, minus_one,
}
use vr_admin.CString.{Bytes, codes, strcmp}

-- The functions of the table.
pub data NativeMethod : Type 0 where
  init_method : NativeMethod
  setup_method : NativeMethod
  get_system_node_method : NativeMethod
  set_system_node_method : NativeMethod
  system_call_method : NativeMethod
  get_property_method : NativeMethod
  set_property_method : NativeMethod
  set_thread_scheduler_method : NativeMethod

-- `JNINativeMethod`.
pub record TableEntry : Type 0 where
  pub name : Bytes
  pub signature : Bytes
  pub function : NativeMethod

abbrev entry : Bytes → Bytes → NativeMethod → TableEntry
entry name signature function = record { name = name; signature = signature; function = function }

-- `gMethods`.
abbrev pub g_methods : List TableEntry
g_methods =
    entry (codes "native_init") (codes "()V") init_method
    ∷ entry (codes "native_setup") (codes "(Ljava/lang/Object;)V") setup_method
    ∷ entry (codes "native_getSystemNode") (codes "(Ljava/lang/String;)Ljava/lang/String;")
        get_system_node_method
    ∷ entry (codes "native_setSystemNode") (codes "(Ljava/lang/String;Ljava/lang/String;)I")
        set_system_node_method
    ∷ entry (codes "native_systemCall") (codes "(Ljava/lang/String;)Ljava/lang/String;")
        system_call_method
    ∷ entry (codes "native_getProperty") (codes "(Ljava/lang/String;)Ljava/lang/String;")
        get_property_method
    ∷ entry (codes "native_setProperty") (codes "(Ljava/lang/String;Ljava/lang/String;)I")
        set_property_method
    ∷ entry (codes "native_setThreadScheduler") (codes "(III)I") set_thread_scheduler_method
    ∷ []

-- `JNI_OnLoad`: the result and the methods that are registered for the class; the version that it
-- returns is a constant of the Java runtime.
unfoldable pub on_load : ℤ → Bool → Bool → ℤ × List TableEntry
on_load jni_version env_found class_found =
    if env_found
    then (if class_found then (jni_version, g_methods) else (minus_one, []))
    else (minus_one, [])

-- The types of the declarations.
pub data JavaType : Type 0 where
  void : JavaType
  int : JavaType
  string : JavaType
  object : JavaType

pub record Declaration : Type 0 where
  pub java_name : Bytes
  pub parameters : List JavaType
  pub result : JavaType

abbrev declare : Bytes → List JavaType → JavaType → Declaration
declare java_name parameters result = record {
  java_name = java_name;
  parameters = parameters;
  result = result;
}

-- The native methods of VRManager.
unfoldable pub declared : NativeMethod → Declaration
declared init_method = declare (codes "native_init") [] void
declared setup_method = declare (codes "native_setup") (object ∷ []) void
declared get_system_node_method = declare (codes "native_getSystemNode") (string ∷ []) string
declared set_system_node_method = declare (codes "native_setSystemNode") (string ∷ string ∷ []) int
declared system_call_method = declare (codes "native_systemCall") (string ∷ []) string
declared get_property_method = declare (codes "native_getProperty") (string ∷ []) string
declared set_property_method = declare (codes "native_setProperty") (string ∷ string ∷ []) int
declared set_thread_scheduler_method =
    declare (codes "native_setThreadScheduler") (int ∷ int ∷ int ∷ []) int

-- The descriptor of a method, as the Java virtual machine spells it.
abbrev type_descriptor : JavaType → Bytes
type_descriptor void = codes "V"
type_descriptor int = codes "I"
type_descriptor string = codes "Ljava/lang/String;"
type_descriptor object = codes "Ljava/lang/Object;"

abbrev parameter_descriptors : List JavaType → Bytes
parameter_descriptors [] = []
parameter_descriptors (t ∷ ts) = type_descriptor t ++ parameter_descriptors ts

unfoldable pub descriptor : Declaration → Bytes
descriptor d =
    codes "(" ++ (parameter_descriptors d.parameters ++ (codes ")" ++ type_descriptor d.result))

-- The function of a method: the entry of its name and descriptor.
unfoldable pub resolve : Bytes → Bytes → List TableEntry → Option NativeMethod
resolve name signature [] = none
resolve name signature (e ∷ entries) =
    if strcmp e.name name && strcmp e.signature signature
    then some e.function
    else resolve name signature entries

-- When the library is loaded, and the runtime and the class are found, each native method that
-- VRManager declares is found in the registered table, by its name and the descriptor of its
-- declaration, with its own function.
pub on_load-resolve :
    (jni_version : ℤ) (m : NativeMethod)
    → resolve (declared m).java_name (descriptor (declared m)) (on_load jni_version true true).1
      ≡ some m
unfolding resolve declared descriptor on_load strcmp
on_load-resolve jni_version init_method = refl
on_load-resolve jni_version setup_method = refl
on_load-resolve jni_version get_system_node_method = refl
on_load-resolve jni_version set_system_node_method = refl
on_load-resolve jni_version system_call_method = refl
on_load-resolve jni_version get_property_method = refl
on_load-resolve jni_version set_property_method = refl
on_load-resolve jni_version set_thread_scheduler_method = refl
