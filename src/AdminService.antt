-- ===== src/AdminService.antt =====
-- src/com/android/VRAdmin/VRAdminService.java: the service of the Java application, over the native
-- methods of VRManager.
pub mod Settings
pub mod Monitors
pub mod Events
pub mod Restored
pub mod DownLoad
pub mod Callbacks
pub mod Lifecycle
pub mod Concurrent
mod MinuteLock
use vr_admin.Prelude.{
  ℕ, suc, zero, ◌==◌, Bool, true, false, if◌then◌else◌, Option, none, some, List, [], ◌∷◌, ◌++◌, ℤ,
  pos, negsuc, minus_one, eqb_ℤ, Exec, ok, ◌>>=◌,
}
use vr_admin.CString.{Bytes, codes}
use vr_admin.Binder.{NativeInterface}
use vr_admin.Jni.{
  JString, is_null, native_get_system_node, native_set_system_node, native_system_call,
  native_get_property, native_set_property, native_set_thread_scheduler,
}

-- `MSM_CMD_AUTOREFRESH` and `VR_GRALLOC_PROPERTY`.
abbrev pub msm_cmd_autorefresh : Bytes
msm_cmd_autorefresh = codes "/sys/class/graphics/fb0/msm_cmd_autorefresh_en"

abbrev pub vr_gralloc_property : Bytes
vr_gralloc_property = codes "vr.gralloc.gfx_ubwc_disable"

-- The service, with the monitors whose death it is told of and the number of the threads that it
-- started for the progress of a download.
pub record VrAdminService : Type 0 where
  pub client_count : ℤ
  pub monitors : List ℕ
  pub linked : List ℕ
  pub running : Bool
  pub talkers : ℕ

abbrev pub new_service : VrAdminService
new_service = record {
  client_count = pos 0;
  monitors = [];
  linked = [];
  running = false;
  talkers = 0;
}

-- `mCbs.contains` and `mCbs.remove`.
unfoldable pub contains : ℕ → List ℕ → Bool
contains m [] = false
contains m (x ∷ xs) = if x == m then true else contains m xs

unfoldable pub remove : ℕ → List ℕ → List ℕ
remove m [] = []
remove m (x ∷ xs) = if x == m then xs else x ∷ remove m xs

abbrev pub increment : ℤ → ℤ
increment (pos n) = pos (suc n)
increment (negsuc zero) = pos 0
increment (negsuc (suc n)) = negsuc n

abbrev pub decrement : ℤ → ℤ
decrement (pos zero) = minus_one
decrement (pos (suc n)) = pos n
decrement (negsuc n) = negsuc (suc n)

-- `linkToDeath`, which throws for a monitor that is dead already.
abbrev link_to_death : Bool → ℕ → VrAdminService → VrAdminService
link_to_death alive m s = if alive then record s { linked = s.linked ++ (m ∷ []) } else s

-- `registerMonitor`.
unfoldable pub register_monitor : Option ℕ → Bool → VrAdminService → VrAdminService
register_monitor none alive s = s
register_monitor (some m) alive s =
    if contains m s.monitors
    then s
    else link_to_death alive m
        (record s { client_count = increment s.client_count; monitors = s.monitors ++ (m ∷ []) })

-- How Java appends a string to another.
abbrev pub string_value : JString → Bytes
string_value none = codes "null"
string_value (some s) = s

-- The command of `startDownLoad`.
unfoldable pub down_load_command : JString → JString → JString → Bytes
down_load_command dfu_file_path vid pid =
    codes "dfu-util -v -a 0 -s :mass-erase:force"
    ++ (codes " -d "
        ++ (string_value vid
            ++ (codes ":"
                ++ (string_value pid
                    ++ (codes " -D " ++ (string_value dfu_file_path ++ codes " 2>&1"))))))

-- The command of `getBoardMode`.
unfoldable pub board_mode_command : JString → JString → Bytes
board_mode_command vid pid =
    codes "dfu-util -U /xxx"
    ++ (codes "-d " ++ (string_value vid ++ (codes ":" ++ string_value pid)))

-- A manager is null, or calls what `getVRService` finds.
module _ (get_string_utf_chars : JString → Exec (Option Bytes)) (Event World : Type 0) where
  abbrev pub VrManager : Type 0
  VrManager = Option (Option (NativeInterface Event World))

  -- `getSystemNode`, and so on, of the binder object.
  unfoldable pub stub_get_system_node : VrManager → JString → World → Exec (Bytes × World)
  stub_get_system_node none pathname w = ok ([], w)
  stub_get_system_node (some vr) pathname w =
      if is_null pathname
      then ok ([], w)
      else native_get_system_node get_string_utf_chars Event World vr pathname w

  unfoldable pub stub_set_system_node : VrManager → JString → JString → World → Exec (ℤ × World)
  stub_set_system_node none pathname freq w = ok (minus_one, w)
  stub_set_system_node (some vr) pathname freq w =
      if is_null pathname
      then ok (minus_one, w)
      else native_set_system_node get_string_utf_chars Event World vr pathname freq w

  unfoldable pub stub_system_call : VrManager → JString → World → Exec (Bytes × World)
  stub_system_call none cmd w = ok (codes "-1", w)
  stub_system_call (some vr) cmd w =
      if is_null cmd
      then ok (codes "-1", w)
      else native_system_call get_string_utf_chars Event World vr cmd w

  unfoldable pub stub_get_property : VrManager → JString → World → Exec (Bytes × World)
  stub_get_property none key w = ok ([], w)
  stub_get_property (some vr) key w =
      if is_null key
      then ok ([], w)
      else native_get_property get_string_utf_chars Event World vr key w

  unfoldable pub stub_set_property : VrManager → JString → JString → World → Exec (ℤ × World)
  stub_set_property none key value w = ok (minus_one, w)
  stub_set_property (some vr) key value w =
      if is_null key
      then ok (minus_one, w)
      else native_set_property get_string_utf_chars Event World vr key value w

  unfoldable pub stub_set_thread_scheduler : VrManager → ℤ → ℤ → ℤ → World → Exec (ℤ × World)
  stub_set_thread_scheduler none tid policy pri w = ok (minus_one, w)
  stub_set_thread_scheduler (some vr) tid policy pri w =
      native_set_thread_scheduler get_string_utf_chars Event World vr tid policy pri w

  -- The two settings, whose results are not looked at.
  abbrev set_status : VrManager → Bytes → World → Exec World
  set_status manager value w = do
    (ret, w') ← stub_set_property manager (some vr_gralloc_property) (some value) w
    (ret', w'') ← stub_set_system_node manager (some msm_cmd_autorefresh) (some value) w'
    ok w''

  -- `activityEnter` and `activityLeave`.
  unfoldable pub activity_enter : VrManager → World → Exec (ℤ × World)
  activity_enter manager w = set_status manager (codes "1") w >>= λ w'. ok (pos 0, w')

  unfoldable pub activity_leave : VrManager → World → Exec (ℤ × World)
  activity_leave manager w = set_status manager (codes "0") w >>= λ w'. ok (pos 0, w')

  abbrev with_service : VrAdminService → World → Exec (VrAdminService × World)
  with_service s w = ok (s, w)

  abbrev restore_if_last : VrManager → VrAdminService → World → Exec (VrAdminService × World)
  restore_if_last manager s w =
      if eqb_ℤ (pos 0) s.client_count
      then (set_status manager (codes "0") w >>= with_service s)
      else ok (s, w)

  -- `binderDied`.
  unfoldable pub binder_died :
      VrManager → ℕ → VrAdminService → World → Exec (VrAdminService × World)
  binder_died manager m s w =
      restore_if_last manager
        (record s { monitors = remove m s.monitors; client_count = decrement s.client_count }) w

  abbrev end_down_load : VrAdminService → Bytes × World → Exec (Bytes × VrAdminService × World)
  end_down_load s (result, w) = ok (result, record s { running = false }, w)

  -- `startDownLoad`.
  unfoldable pub start_down_load :
      VrManager
      → JString
      → JString
      → JString
      → VrAdminService
      → World
      → Exec (Bytes × VrAdminService × World)
  start_down_load manager dfu_file_path vid pid s w =
      if s.running
      then ok (codes "-1", s, w)
      else (stub_system_call manager (some (down_load_command dfu_file_path vid pid)) w
          >>= end_down_load (record s { running = true; talkers = suc s.talkers }))

  -- `getBoardMode`.
  unfoldable pub get_board_mode : VrManager → JString → JString → World → Exec (Bytes × World)
  get_board_mode manager vid pid w = stub_system_call manager (some (board_mode_command vid pid)) w
