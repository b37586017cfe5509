-- ===== src/ServerListener/Objects.antt =====
-- `mConnectors` as the code has it: a list of pointers to objects that `addConnector` makes and
-- `delConnector` deletes; jni/main/Connector.h and ClientConnector.h are the classes of the objects.
pub mod Ownership
pub mod Loop
pub mod Sets
pub mod Limits
pub mod Refinement
pub mod Histories
pub mod Run
pub mod Life
use vr_admin.Prelude.{
  ℕ, Bool, true, false, eqb_ℤ, if◌then◌else◌, none, some, List, [], ◌∷◌, ◌++◌, ℤ, pos, minus_one,
  Exec, ok, ◌>>=◌,
}
use vr_admin.Heap.{Heap, write_cell, live}
use vr_admin.XmlDatabase.Objects.{SdkObjects}

-- What the reference of a connector refers to: the database of the listener.
pub data DatabaseRef : Type 0 where
  m_xml_data : DatabaseRef

unfoldable pub deref : DatabaseRef → SdkObjects → SdkObjects
deref m_xml_data sdks = sdks

-- The object: `mConnID` of Connector, and `mDB`.
pub record ClientConnector : Type 0 where
  pub conn_id : ℤ
  pub db : DatabaseRef

-- The constructor.
abbrev pub new_connector : ℤ → DatabaseRef → ClientConnector
new_connector connid db = record { conn_id = connid; db = db }

-- `(*iter)->getConnID()`, through a pointer that may dangle.
unfoldable pub get_conn_id : Heap ClientConnector → ℕ → Exec ℤ
get_conn_id heap p = live (heap p) >>= λ c. ok c.conn_id

-- The search of `addConnector`.
unfoldable pub any_conn_id : ℤ → Heap ClientConnector → List ℕ → Exec Bool
any_conn_id confd heap [] = ok false
any_conn_id confd heap (p ∷ ps) =
    let rest = any_conn_id confd heap ps in
    (get_conn_id heap p >>= λ id. if eqb_ℤ id confd then ok true else rest)

-- The pointers, and the objects.
pub record Objects : Type 0 where
  pub pointers : List ℕ
  pub heap : Heap ClientConnector

abbrev push_object : ℕ → ℤ → Objects → Bool → Exec (Objects × ℤ)
push_object address confd o true = ok (o, minus_one)
push_object address confd o false = ok (
  record {
    pointers = o.pointers ++ (address ∷ []);
    heap = write_cell o.heap address (some (new_connector confd m_xml_data));
  },
  pos 0,
)

-- `addConnector`, where `new` gives this address.
unfoldable pub add_object : ℕ → ℤ → Objects → Exec (Objects × ℤ)
add_object address confd o = any_conn_id confd o.heap o.pointers >>= push_object address confd o

abbrev behind_pointer : ℕ → Objects → Exec Objects
behind_pointer p o = ok (record o { pointers = p ∷ o.pointers })

-- The loop of `delConnector`: the first object with this descriptor is deleted, and its pointer
-- erased.
unfoldable pub erase_object : ℤ → List ℕ → Heap ClientConnector → Exec Objects
erase_object confd [] heap = ok (record { pointers = []; heap = heap })
erase_object confd (p ∷ ps) heap =
    let rest = erase_object confd ps heap in
    (get_conn_id heap p >>= λ id.
    if eqb_ℤ id confd
    then ok (record { pointers = ps; heap = write_cell heap p none })
    else (rest >>= behind_pointer p))

-- `delConnector`.
unfoldable pub del_object : ℤ → Objects → Exec (Objects × ℤ)
del_object confd o = erase_object confd o.pointers o.heap >>= λ o'. ok (o', pos 0)
