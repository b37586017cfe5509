-- ===== src/ServerListener/Objects/Run.antt =====
-- `ServerListener::run` over the pointers, from the pipe and the listening socket on.
use vr_admin.Prelude.{
  ℕ, ◌==◌, if◌then◌else◌, Option, none, some, List, [], ◌∷◌, length, ℤ, minus_one, true, Exec, ok,
  ◌>>=◌,
}
use vr_admin.VrSdk.{PropertyCalls}
use vr_admin.XmlDatabase.Libxml.{Xml}
use vr_admin.XmlDatabase.Objects.{SdkObjects, destroy_sdks}
use vr_admin.ServerListener.{Setup}
use vr_admin.ServerListener.Sdks.{new_listener_objects}
use vr_admin.ServerListener.Objects.Loop.{HeapListener, HeapRound, HeapHistory, heap_rounds}

pub data HeapPrologue : Type 0 where
  heap_returns : HeapListener → List ℤ → HeapPrologue
  heap_enters : HeapListener → HeapPrologue

abbrev pub heap_listen_on : Setup → HeapListener → HeapPrologue
heap_listen_on setup h =
    if setup.listens
    then heap_enters (record h { listen_fd = setup.control_socket })
    else heap_returns h (setup.control_socket ∷ [])

abbrev pub heap_open_pipe : Setup → Option (ℤ × ℤ) → HeapListener → HeapPrologue
heap_open_pipe setup none h = heap_returns h []
heap_open_pipe setup (some (r, w)) h =
    heap_listen_on setup (record h { wakeup_read = r; wakeup_write = w })

-- `run` before its loop, with the number of the pointers for `getSDKSCount`.
unfoldable pub heap_prologue : Setup → HeapListener → HeapPrologue
heap_prologue setup h =
    if length h.sdks.pointers == 0 then heap_returns h [] else heap_open_pipe setup setup.pipe h

abbrev pub heap_run_after : List HeapRound → HeapPrologue → Exec HeapHistory
heap_run_after rs (heap_returns h closed) =
    ok (record { listener = h; sent = []; closed = closed; returned = true })
heap_run_after rs (heap_enters h) = heap_rounds rs h

unfoldable pub heap_run : Setup → List HeapRound → HeapListener → Exec HeapHistory
heap_run setup rs h = heap_run_after rs (heap_prologue setup h)

-- The listener that the constructor makes, with its SDKs.
abbrev pub heap_listener_of : SdkObjects → HeapListener
heap_listener_of o = record {
  wakeup_read = minus_one;
  wakeup_write = minus_one;
  listen_fd = minus_one;
  sdks = o;
  objects = record { pointers = []; heap = λ p. none };
}

abbrev run_and_destroy :
    Setup
    → List HeapRound
    → Option (SdkObjects × PropertyCalls)
    → Exec (Option (HeapHistory × SdkObjects))
run_and_destroy setup rs none = ok none
run_and_destroy setup rs (some (o, calls)) = do
  h ← heap_run setup rs (heap_listener_of o)
  o' ← destroy_sdks h.listener.sdks
  ok (some (h, o'))

-- The constructor, where `new` gives these two addresses, then `run`, and then the destructor.
unfoldable pub listener_life :
    Xml
    → ℕ
    → ℕ
    → ℕ
    → PropertyCalls
    → Setup
    → List HeapRound
    → Exec (Option (HeapHistory × SdkObjects))
listener_life xml fuel svr_address lvr_address calls setup rs =
    new_listener_objects xml fuel svr_address lvr_address calls >>= run_and_destroy setup rs
