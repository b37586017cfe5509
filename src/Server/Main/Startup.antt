-- ===== src/Server/Main/Startup.antt =====
-- What `main` starts: the service can be found by its name, and the listener serves its clients.
use vr_admin.Prelude.{ℕ, ◌≡◌, refl, true, none, some, List, All, ok}
use vr_admin.VrSdk.{PropertyCalls}
use vr_admin.XmlDatabase.Libxml.{Xml}
use vr_admin.XmlDatabase.Texts.{GivesTexts}
use vr_admin.ServerListener.{ServerListener, Round, Setup, History, new_listener, run}
use vr_admin.ServerListener.Rounds.{Fits}
use vr_admin.ServerListener.Startup.{IsFresh, new_listener-IsFresh, Ends, run-Ends}
use vr_admin.NativeService.System.{Os}
use vr_admin.Binder.Platform.{Parcels, ParcelLaws}
use vr_admin.Binder.{NativeInterface, ArgumentOrder, Remote}
use vr_admin.Server.{State, native_service}
use vr_admin.Server.Access.{client}
use vr_admin.Server.Main.{ServiceManager, server_name, Process, publish, self, main, get_vr_service}

first_listener :
    (xml : Xml) (fuel : ℕ) (calls calls' : PropertyCalls) (l : ServerListener)
    → GivesTexts xml
    → new_listener xml fuel calls ≡ some (l, calls')
    → IsFresh l
first_listener xml fuel calls calls' l gives e = rw e at (new_listener-IsFresh xml fuel calls gives)

module _ (os : Os) (parcels : Parcels) (laws : ParcelLaws parcels)
    (manager : ServiceManager (NativeInterface parcels.Event (State os parcels.Event)))
    (order : ArgumentOrder) (base : Remote parcels (State os parcels.Event)) where
  open parcels use {Event}
  open manager use {Table, add_service, get_service}

  -- The process after `main`, over a history of its listener.
  pub record IsServing (setup : Setup) (rounds : List Round) (p : Process os parcels manager)
      (h : History) : Type 0 where
    pub served : ServerListener
    pub listening : p.listener ≡ some served
    pub running : p.started ≡ true
    pub found :
        get_vr_service os parcels manager order base p.table
        ≡ some (client parcels laws os order base)
    pub history : run setup rounds served ≡ ok h
    pub ended : Ends setup rounds served h

  -- If libxml2 gives C strings, the constructor of the listener returns, and the service manager finds
  -- what was added to it, then `main` starts a listener and publishes the service, so that
  -- `getVRService` finds its proxy; and the run of the listener, over any rounds in which no socket
  -- gives more than 64 bytes at once, has no undefined behaviour and ends with valid connectors and
  -- every connection accounted for: just those that its rounds took are connected or closed.
  pub main-IsServing :
      (xml : Xml) (fuel : ℕ) (p : Process os parcels manager) (l : ServerListener)
      (calls : PropertyCalls) (setup : Setup) (rounds : List Round)
      → GivesTexts xml
      → p.listener ≡ none
      → new_listener xml fuel p.calls ≡ some (l, calls)
      → get_service server_name (add_service server_name (native_service os Event) p.table).1
        ≡ some (native_service os Event)
      → All Fits rounds
      → (p' : Process os parcels manager) × (h : History) × (main os parcels manager xml fuel p
          ≡ some p')
        × IsServing setup rounds p' h
  unfolding main get_vr_service self
  main-IsServing xml fuel p l calls setup rounds gives first made found fits =
      let fresh = first_listener xml fuel p.calls calls l gives made in
      let (h, e, ended) = run-Ends setup rounds l fresh fits in
      (
        record (publish os parcels manager p) {
          listener = some l;
          calls = calls;
          started = true;
          pool = true;
        },
        h,
        rw (first, made) refl,
        record {
          served = l;
          listening = refl;
          running = refl;
          found = rw found refl;
          history = e;
          ended = ended;
        },
      )
