-- ===== src/ClientConnector/Pointers.antt =====
-- `mDB` of jni/main/ClientConnector.cpp over the pointers to the SDKs: the calls of the database and
-- through the pointer that `getSDK` gives.
use mathlib.Core.Path.{fun_ext}
use vr_admin.Prelude.{ℕ, ◌≡◌, refl, inl, inr, Option, Option-cases, none, some, Exec, ok, ◌>>=◌}
use vr_admin.CString.{Bytes}
use vr_admin.Heap.{Heap, live}
use vr_admin.VrSdk.{VrSdk}
use vr_admin.XmlDatabase.{XmlDatabase, first_of_type, get_sdk, get_all_sdk_types}
use vr_admin.XmlDatabase.Objects.{SdkObjects, find_sdk, all_object_types}
use vr_admin.XmlDatabase.Objects.Pointers.{all_object_types_lem, find_sdk_lem}
use vr_admin.XmlDatabase.Objects.Refinement.{OwnsSdks}
use vr_admin.ClientConnector.{Database, sdk_list}

abbrev sdk_at : Heap VrSdk → Option ℕ → Exec (Option VrSdk)
sdk_at heap none = ok none
sdk_at heap (some p) = live (heap p) >>= λ sdk. ok (some sdk)

-- The database over the pointers of `mData`.
abbrev pub sdk_objects : SdkObjects → Database
sdk_objects o = record {
  all_types = all_object_types o.heap o.pointers;
  sdk_of = λ type. find_sdk type o.heap o.pointers >>= sdk_at o.heap;
}

sdk_of_lem :
    (o : SdkObjects) (db : XmlDatabase) (type : Bytes)
    → OwnsSdks o db.sdks
    → find_sdk type o.heap o.pointers >>= sdk_at o.heap ≡ ok (get_sdk type db)
unfolding get_sdk
sdk_of_lem o db type owns =
    let found = find_sdk_lem type o.heap o.pointers db.sdks owns.points in
    elim (Option-cases (first_of_type type db.sdks)) [
      | inl e ↦ rw (e, (rw e at found)) refl
      | inr (sdk, e) ↦ let (p, run, at_p) = (rw e at found) in rw (e, run, at_p) refl
    ]

all_types_lem :
    (o : SdkObjects) (db : XmlDatabase)
    → OwnsSdks o db.sdks
    → all_object_types o.heap o.pointers ≡ ok (get_all_sdk_types db)
unfolding get_all_sdk_types
all_types_lem o db owns = all_object_types_lem o.heap o.pointers db.sdks owns.points

-- Where the pointers own the SDKs, the database over them is that of their list.
pub sdk_objects_lem :
    (o : SdkObjects) (db : XmlDatabase) → OwnsSdks o db.sdks → sdk_objects o ≡ sdk_list db
sdk_objects_lem o db owns i = record {
  all_types = all_types_lem o db owns i;
  sdk_of = fun_ext (λ type. sdk_of_lem o db type owns) i;
}
