-- ===== src/Server/Main.antt =====
-- `main` of jni/main/main_vrserver.cpp, with ServerListener::self, and getVRService of
-- jni/VRNativeJNI.cpp: the service is published under a name and found under it.
pub mod Startup
use vr_admin.Prelude.{ℕ, Bool, true, Option, none, some, ℤ}
use vr_admin.CString.{Bytes, codes}
use vr_admin.VrSdk.{PropertyCalls}
use vr_admin.XmlDatabase.Libxml.{Xml}
use vr_admin.ServerListener.{ServerListener, new_listener}
use vr_admin.NativeService.System.{Os}
use vr_admin.NativeService.{VrNativeService, get_single_instance}
use vr_admin.Binder.Platform.{Parcels}
use vr_admin.Binder.{NativeInterface, ArgumentOrder, Remote, native_proxy, native_transact}
use vr_admin.Server.{State, native_service}

-- The service manager of the platform, which keeps objects under names: the status of adding one is
-- not looked at.
pub record ServiceManager (Object : Type 0) : Type 1 where
  pub Table : Type 0
  pub add_service : Bytes → Object → Table → ℤ × Table
  pub get_service : Bytes → Table → Option Object

-- `SERVER_NAME`.
abbrev pub server_name : Bytes
server_name = codes "vrserver"

-- `ServerListener::self`, on the static pointer: the listener is made at the first call. `none` means
-- that the fuel of its constructor ran out.
unfoldable pub self :
    Xml → ℕ → Option ServerListener → PropertyCalls → Option (ServerListener × PropertyCalls)
self xml fuel none calls = new_listener xml fuel calls
self xml fuel (some l) calls = some (l, calls)

module _ (os : Os) (parcels : Parcels)
    (manager : ServiceManager (NativeInterface parcels.Event (State os parcels.Event))) where
  open parcels use {Event}
  open manager use {Table, add_service, get_service}

  -- The state of the process: the two static objects, the service manager and the properties, and
  -- whether the thread of the listener was started and the pool of the binder runs.
  pub record Process : Type 0 where
    pub table : Table
    pub native : Option (VrNativeService Event)
    pub listener : Option ServerListener
    pub calls : PropertyCalls
    pub started : Bool
    pub pool : Bool

  -- The service is made if need be, and published.
  abbrev pub publish : Process → Process
  publish p = record p {
    table = (add_service server_name (native_service os Event) p.table).1;
    native = some (get_single_instance p.native);
  }

  abbrev start_listener : Process → Option (ServerListener × PropertyCalls) → Option Process
  start_listener p none = none
  start_listener p (some (l, calls)) =
      some (record p { listener = some l; calls = calls; started = true; pool = true })

  -- `main`, up to the wait for the end of the pool.
  unfoldable pub main : Xml → ℕ → Process → Option Process
  main xml fuel p =
      start_listener (publish p) (self xml fuel (publish p).listener (publish p).calls)

  -- `interface_cast` in another process: the proxy of the object.
  abbrev interface_cast :
      ArgumentOrder
      → Remote parcels (State os Event)
      → Option (NativeInterface Event (State os Event))
      → Option (NativeInterface Event (State os Event))
  interface_cast order base none = none
  interface_cast order base (some service) = some (
      native_proxy parcels (State os Event)
        (native_transact parcels (State os Event) order base service))

  -- `getVRService`.
  unfoldable pub get_vr_service :
      ArgumentOrder
      → Remote parcels (State os Event)
      → Table
      → Option (NativeInterface Event (State os Event))
  get_vr_service order base table = interface_cast order base (get_service server_name table)
