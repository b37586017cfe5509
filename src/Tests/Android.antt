-- ===== src/Tests/Android.antt =====
-- Runs of the Java application, src/com/android/VRAdmin.
use vr_admin.Prelude.{
  Option, ℕ, ◌≡◌, refl, true, false, if◌then◌else◌, ◌==◌, ◌-◌, ◌*◌, ◌/◌, none, some, List, [], ◌∷◌,
  pos, eqb_ℤ, minus_one, ok, arith,
}
use vr_admin.CString.{Bytes, codes, strcmp}
use vr_admin.NativeService.{set_property}
use vr_admin.Binder.{first_second_third}
use vr_admin.Server.{State}
use vr_admin.AdminService.{
  vr_gralloc_property, VrAdminService, new_service, contains, activity_enter, activity_leave,
  start_down_load, VrManager,
}
use vr_admin.AdminService.Settings.{connected, activity_property_only}
use vr_admin.AdminService.DownLoad.{start_down_load_lem}
use vr_admin.AdminService.Callbacks.{broadcast_all, told_to, broadcast_progress}
use vr_admin.AdminService.Lifecycle.{device_name, on_create, IsSensing, on_create-IsSensing}
use vr_admin.NativeService.System.{Os}
use vr_admin.Server.Access.{client}
use vr_admin.HmdReceiver.{Application, PSensor}
use vr_admin.DfuUtil.Progress.{last_or, percents}
use vr_admin.Prelude.{Bool, not, All, ◌≤ℤ◌, ◌++◌}
use vr_admin.AdminService.Monitors.{Counted}
use vr_admin.AdminService.Events.{MonitorEvent, registers, dies, all_after}
use vr_admin.AdminService.Restored.{
  handle_all, all_restored, handle_all-Counted, dead_monitor_stays,
}
use vr_admin.HmdReceiver.{Phone, Reading}
use vr_admin.HmdReceiver.WakeLock.{IsApart}
use vr_admin.DfuUtil.{minus, talk_with_socket}
use vr_admin.DfuUtil.Progress.{size_bytes, all_size_bytes, talk_with_socket_faults}
use vr_admin.Tests.Data.{is_text, is_text-IsCString}
use vr_admin.Tests.Ipc.{unknown_code, object, strict_chars}
use vr_admin.Tests.Native.{linux, idle}
use vr_admin.Tests.Queues.{queues, queue_laws}

abbrev manager : VrManager strict_chars ℕ (State linux ℕ)
manager = connected queues queue_laws linux first_second_third unknown_code strict_chars (λ s. refl)

activity_property_only_example :
    (activity_enter strict_chars ℕ (State linux ℕ) manager (idle, object)
      ≡ ok (pos 0, ((set_property linux vr_gralloc_property (codes "1") idle).1, object)))
    × (activity_leave strict_chars ℕ (State linux ℕ) manager (idle, object)
        ≡ ok (pos 0, ((set_property linux vr_gralloc_property (codes "0") idle).1, object)))
activity_property_only_example =
    activity_property_only queues queue_laws linux first_second_third unknown_code strict_chars
      (λ s. refl) idle object

start_down_load_lem_example :
    (start_down_load strict_chars ℕ
        (State linux ℕ)
        manager
        (some (codes "/sdcard/hmd.bin"))
        (some (codes "2b0e"))
        none
        (record new_service { running = false })
        (idle, object)
      ≡ ok (codes "done", record new_service { running = false; talkers = 1 }, (idle, object)))
    × (start_down_load strict_chars ℕ
          (State linux ℕ)
          manager
          (some (codes "/sdcard/hmd.bin"))
          (some (codes "2b0e"))
          none
          (record new_service { running = true })
          (idle, object)
        ≡ ok (codes "-1", record new_service { running = true }, (idle, object)))
start_down_load_lem_example =
    start_down_load_lem queues queue_laws linux first_second_third unknown_code strict_chars
      (λ s. refl) (some (codes "/sdcard/hmd.bin")) (some (codes "2b0e")) none new_service idle idle
      object (codes "done") refl (is_text-IsCString (codes "done") (unfold is_text in refl))
      (omega arith)

new_service-Counted : Counted new_service
unfolding contains
new_service-Counted = record {
  counted = refl;
  distinct = tt;
  linked_distinct = tt;
  known = λ x h. h;
}

-- Two monitors, one of them registered twice, and both die.
abbrev events : List MonitorEvent
events =
    registers (some 1) true
    ∷ registers (some 1) true
    ∷ registers (some 2) true
    ∷ dies 1
    ∷ dies 2
    ∷ []

events_count :
    (all_after (registers (some 1) true ∷ registers (some 1) true ∷ []) new_service).client_count
    ≡ pos 1
unfolding contains
events_count = refl

handle_all-Counted_example :
    (handle_all strict_chars ℕ (State linux ℕ) manager events new_service (idle, object)
      ≡ ok (
        all_after events new_service,
        (
          all_restored queues queue_laws linux first_second_third unknown_code strict_chars
              (λ s. refl)
              events
              new_service
              idle,
          object,
        ),
      ))
    × Counted (all_after events new_service)
handle_all-Counted_example =
    handle_all-Counted queues queue_laws linux first_second_third unknown_code strict_chars
      (λ s. refl) events new_service idle object new_service-Counted

dead_monitor_stays_example :
    (s' : VrAdminService) × (handle_all strict_chars ℕ
        (State linux ℕ)
        manager
        (registers (some 3) false ∷ dies 3 ∷ events)
        new_service
        (idle, object)
      ≡ ok (s', (idle, object)))
    × (contains 3 s'.monitors ≡ true)
    × (eqb_ℤ s'.client_count (pos 0) ≡ false)
dead_monitor_stays_example =
    dead_monitor_stays queues queue_laws linux first_second_third unknown_code strict_chars
      (λ s. refl) 3 (dies 3 ∷ events) new_service idle object new_service-Counted
      (unfold contains in refl)

abbrev attached_action : Bytes
attached_action = codes "android.hardware.usb.action.USB_DEVICE_ATTACHED"

abbrev detached_action : Bytes
detached_action = codes "android.hardware.usb.action.USB_DEVICE_DETACHED"

actions-IsApart : IsApart attached_action detached_action
unfolding strcmp
actions-IsApart = record {
  two = refl;
  attached_boot = refl;
  detached_boot = refl;
  attached_sensor = refl;
  detached_sensor = refl;
}

abbrev started : Phone
started = record {
  application = record { hold_wake_lock = true; is_held = false; awake = true };
  broadcasts = [];
  starts = 1;
}

-- Something near, another sensor, and something far and near.
abbrev readings : List Reading
readings = (true, true) ∷ (false, false) ∷ (true, false) ∷ (true, true) ∷ []

-- A system whose property names the device.
abbrev headset : Os
headset = record linux { property_get = λ key w. ((pos 10, device_name), w) }

on_create-IsSensing_example :
    (a : Application) × (s : Option PSensor) × (on_create strict_chars ℕ
        (State headset ℕ)
        (some (client queues queue_laws headset first_second_third unknown_code))
        true
        started.application
        (idle, object)
      ≡ ok ((a, s), (idle, object)))
    × IsSensing queues queue_laws headset first_second_third unknown_code strict_chars
        (λ s. refl)
        attached_action
        detached_action
        readings
        (record started { application = a })
        s
on_create-IsSensing_example =
    on_create-IsSensing queues queue_laws headset first_second_third unknown_code strict_chars
      (λ s. refl) attached_action detached_action readings started idle idle object (pos 10)
      actions-IsApart refl refl

-- The callback 5 cannot be reached.
abbrev reached : ℕ → Bool
reached cb = not (cb == 5)

broadcast_progress_example :
    (told_to 4 (
        broadcast_all reached
          (4 ∷ 5 ∷ [])
          (talk_with_socket (size_bytes 3000 ∷ all_size_bytes (1000 ∷ 2999 ∷ []))).broadcasts)
      ≡ pos 0
        ∷ (percents 3000 (1000 ∷ 2999 ∷ [])
            ++ (if 3000 == last_or 0 (1000 ∷ 2999 ∷ []) then [] else minus_one ∷ [])))
    × All (λ p. p ≤ℤ pos 100) (percents 3000 (1000 ∷ 2999 ∷ []))
    × ((talk_with_socket (size_bytes 3000 ∷ all_size_bytes (1000 ∷ 2999 ∷ []))).threw ≡ false)
broadcast_progress_example =
    broadcast_progress reached 4 (4 ∷ 5 ∷ []) 3000 (1000 ∷ 2999 ∷ [])
      (unfold contains in (refl, (refl, tt))) (unfold contains in refl) refl (omega arith)
      (omega arith) ((omega arith, omega arith), ((omega arith, omega arith), tt))

talk_with_socket_faults_example :
    (talk_with_socket (size_bytes 0 ∷ [])
      ≡ record { file_size = pos 0; write_size = pos 0; broadcasts = []; threw = true })
    × ((talk_with_socket (size_bytes 30000000 ∷ size_bytes 30000000 ∷ [])).broadcasts
        ≡ pos 0
          ∷ minus ((4294967296 - 30000000 * 100) / 30000000)
          ∷ (if 30000000 == 30000000 then [] else minus_one ∷ []))
talk_with_socket_faults_example =
    talk_with_socket_faults 30000000 30000000 [] (omega arith) (omega arith) (omega arith)
      (omega arith) (omega arith)
