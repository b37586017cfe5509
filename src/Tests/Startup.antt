-- ===== src/Tests/Startup.antt =====
-- The start of jni/main/main_vrserver.cpp with the information files of jni/prebuilt.
use vr_admin.Prelude.{ℕ, ◌≡◌, refl, false, if◌then◌else◌, Option, none, some, [], ◌∷◌, pos}
use vr_admin.CString.{Bytes, codes, strcmp}
use vr_admin.ServerListener.{History}
use vr_admin.Binder.{NativeInterface, first_second_third}
use vr_admin.Server.{State}
use vr_admin.Server.Main.{ServiceManager, Process, main}
use vr_admin.Server.Main.Startup.{IsServing, main-IsServing}
use vr_admin.Tests.Data.{svr_version, lvr_version, info_xml, info-GivesTexts}
use vr_admin.Tests.Listener.{
  setup, fresh, arrival, busy, busy-Fits, arrival-Fits, new_listener-info,
}
use vr_admin.Tests.Native.{linux}
use vr_admin.Tests.Queues.{queues, queue_laws}
use vr_admin.Tests.Ipc.{unknown_code}

abbrev Object : Type 0
Object = NativeInterface ℕ (State linux ℕ)

-- Objects by their names.
abbrev named : ServiceManager Object
named = record {
  Table = Bytes → Option Object;
  add_service = λ name o table. (pos 0, λ other. if strcmp other name then some o else table other);
  get_service = λ name table. table name;
}

abbrev process : Process linux queues named
process = record {
  table = λ name. none;
  native = none;
  listener = none;
  calls = [];
  started = false;
  pool = false;
}

main-IsServing_example :
    (p' : Process linux queues named) × (h : History) × (main linux queues named info_xml 10 process
      ≡ some p')
    × IsServing linux queues queue_laws named first_second_third unknown_code setup
        (arrival ∷ busy ∷ [])
        p'
        h
main-IsServing_example =
    main-IsServing linux queues queue_laws named first_second_third unknown_code info_xml 10 process
      fresh ((codes "vr.svr.version", svr_version) ∷ (codes "vr.lvr.version", lvr_version) ∷ [])
      setup (arrival ∷ busy ∷ []) info-GivesTexts refl new_listener-info (unfold strcmp in refl)
      (arrival-Fits, (busy-Fits, tt))
