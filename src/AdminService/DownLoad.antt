-- ===== src/AdminService/DownLoad.antt =====
-- `startDownLoad`, down to the command that the native service runs.
use vr_admin.Prelude.{suc, ◌≤◌, ◌≡◌, refl, inl, true, false, Option, some, [], length, Exec, ok}
use vr_admin.CString.{Bytes, codes}
use vr_admin.CString.Buffers.{IsCString}
use vr_admin.NativeService.System.{Os}
use vr_admin.NativeService.CommandList.{check_syscall_perm_iff}
use vr_admin.NativeService.Commands.{system_call_output}
use vr_admin.NativeService.{VrNativeService, check_syscall_perm, int_max}
use vr_admin.Binder.Platform.{Parcels, ParcelLaws}
use vr_admin.Binder.Remote.{native_proxy-Forwards}
use vr_admin.Binder.{ArgumentOrder, Remote}
use vr_admin.Server.{State, native_service}
use vr_admin.Jni.{JString, native_system_call}
use vr_admin.AdminService.{VrAdminService, down_load_command, stub_system_call, start_down_load}
use vr_admin.AdminService.Settings.{connected}

-- Whatever the texts are, the native service accepts the command.
pub down_load_command_allowed :
    (dfu_file_path vid pid : JString)
    → check_syscall_perm (some (down_load_command dfu_file_path vid pid)) ≡ true
unfolding down_load_command
down_load_command_allowed dfu_file_path vid pid =
    (check_syscall_perm_iff _).1
      (record { name = codes "dfu-util"; known = inl refl; rest = _; parts = refl })

module _ (parcels : Parcels) (laws : ParcelLaws parcels) (os : Os) (order : ArgumentOrder)
    (base : Remote parcels (State os parcels.Event))
    (get_string_utf_chars : JString → Exec (Option Bytes))
    (works : (s : Bytes) → get_string_utf_chars (some s) ≡ ok (some s)) where
  open parcels use {Event}
  open os use {World, popen, pclose}

  -- If parcels are queues, `GetStringUTFChars` gives the characters of strings that are not null, and
  -- no download runs, then `startDownLoad` starts the thread for the progress and has the native
  -- service run its command, whatever the path and the numbers are, which stand in it as they are: if
  -- the shell prints a text without a 0 whose length is an int, that text is the result, the stream
  -- is closed, and the next download can start. While a download runs, the result is -1 and nothing
  -- is done.
  pub start_down_load_lem :
      (dfu_file_path vid pid : JString) (s : VrAdminService) (w w' : World)
      (n : VrNativeService Event) (stream : Bytes)
      → popen (down_load_command dfu_file_path vid pid) w ≡ (some stream, w')
      → IsCString stream
      → length stream ≤ int_max
      → (start_down_load get_string_utf_chars Event
            (State os Event)
            (connected parcels laws os order base get_string_utf_chars works)
            dfu_file_path
            vid
            pid
            (record s { running = false })
            (w, n)
          ≡ ok (stream, record s { running = false; talkers = suc s.talkers }, (pclose w', n)))
        × (start_down_load get_string_utf_chars Event
              (State os Event)
              (connected parcels laws os order base get_string_utf_chars works)
              dfu_file_path
              vid
              pid
              (record s { running = true })
              (w, n)
            ≡ ok (codes "-1", record s { running = true }, (w, n)))
  unfolding start_down_load stub_system_call native_system_call
  start_down_load_lem dfu_file_path vid pid s w w' n stream opened text fits = (
    rw
        (
          works (down_load_command dfu_file_path vid pid),
          (native_proxy-Forwards parcels laws (State os Event) order base
                (native_service os Event)).syscall
              (down_load_command dfu_file_path vid pid) [] (w, n),
          system_call_output os (down_load_command dfu_file_path vid pid) [] stream w w'
              (down_load_command_allowed dfu_file_path vid pid) opened text fits,
        )
        refl,
    refl,
  )
