-- ===== src/AdminService/Lifecycle.antt =====
-- `onCreate` and `onDestroy` of VRAdminService.java, which connect the sensor to the wake lock.
use vr_admin.Prelude.{
  ◌≡◌, refl, ◌∙◌, Bool, true, false, ltb_ℤ, if◌then◌else◌, Option, none, some, List, [], ◌∷◌, ℤ,
  pos, Exec, ok, ◌>>=◌,
}
use vr_admin.CString.{Bytes, codes, strcmp}
use vr_admin.NativeService.System.{Os}
use vr_admin.NativeService.{VrNativeService, get_property}
use vr_admin.Binder.Platform.{Parcels, ParcelLaws}
use vr_admin.Binder.Remote.{native_proxy-Forwards}
use vr_admin.Binder.{NativeInterface, ArgumentOrder, Remote}
use vr_admin.Server.{State, native_service}
use vr_admin.Server.Access.{client}
use vr_admin.Jni.{JString, native_get_property}
use vr_admin.HmdReceiver.{
  Application, set_hold_wake_lock, Intent, receive_all, Phone, PSensor, Reading, register_sensor,
  unregister_sensor, sense_all,
}
use vr_admin.HmdReceiver.WakeLock.{IsApart, or_held}
use vr_admin.HmdReceiver.Sensor.{last_below, sense_all-Held}

abbrev pub new_psensor : PSensor
new_psensor = record { is_listening = false; registered = false }

abbrev pub device_name : Bytes
device_name = codes "LeVR_Max_1"

-- The application, and the sensor of the service.
abbrev Senses : Type 0
Senses = Application × Option PSensor

-- The device decides; a sensor was found or not.
abbrev on_device : Bool → Application → Bytes → Senses
on_device found a device =
    if strcmp device_name device
    then (set_hold_wake_lock true a, some (register_sensor found new_psensor))
    else (a, none)

module _ (get_string_utf_chars : JString → Exec (Option Bytes)) (Event World : Type 0) where
  -- `onCreate`, where `getVRService` finds this.
  unfoldable pub on_create :
      Option (NativeInterface Event World) → Bool → Application → World → Exec (Senses × World)
  on_create vr found a w =
      native_get_property get_string_utf_chars Event World vr (some (codes "ro.product.device")) w
      >>= λ (device, w'). ok (on_device found a device, w')

-- `onDestroy`: `mPSensorUtility` after it, and what becomes of the object that it led to.
unfoldable pub on_destroy : Option PSensor → Option PSensor × Option PSensor
on_destroy none = (none, none)
on_destroy (some s) = (none, some (unregister_sensor s))

-- What the readings have broadcast.
unfoldable pub sense : Option PSensor → List Reading → List Intent
sense none rs = []
sense (some s) rs = sense_all s rs

sense_all_silent : (s : PSensor) (rs : List Reading) → s.registered ≡ false → sense_all s rs ≡ []
unfolding sense_all
sense_all_silent s [] h = refl
sense_all_silent s (r ∷ rs) h = rw h refl

module _ (parcels : Parcels) (laws : ParcelLaws parcels) (os : Os) (order : ArgumentOrder)
    (base : Remote parcels (State os parcels.Event))
    (get_string_utf_chars : JString → Exec (Option Bytes))
    (works : (s : Bytes) → get_string_utf_chars (some s) ≡ ok (some s)) where
  open parcels use {Event}
  open os use {World, property_get}

  on_create_lem :
      (found : Bool) (a : Application) (w w' : World) (n : VrNativeService Event) (status : ℤ)
      (device : Bytes)
      → property_get (codes "ro.product.device") w ≡ ((status, device), w')
      → ltb_ℤ status (pos 0) ≡ false
      → on_create get_string_utf_chars Event
          (State os Event)
          (some (client parcels laws os order base))
          found
          a
          (w, n)
        ≡ ok (on_device found a device, (w', n))
  unfolding on_create native_get_property get_property
  on_create_lem found a w w' n status device got success =
      rw
        (
          works (codes "ro.product.device"),
          (native_proxy-Forwards parcels laws (State os Event) order base
                (native_service os Event)).get_attr
              (codes "ro.product.device") [] (w, n),
          got,
          success,
        )
        refl

  -- A service that was made on the device that it is for.
  pub record IsSensing (usb_device_attached usb_device_detached : Bytes) (rs : List Reading)
      (v : Phone) (s : Option PSensor) : Type 0 where
    pub after_readings : Phone
    pub returned :
        receive_all usb_device_attached usb_device_detached (sense s rs) v ≡ some after_readings
    pub held : after_readings.application.is_held ≡ or_held (last_below rs) v.application.is_held
    pub cleared : (on_destroy s).0 ≡ none
    pub silent : sense (on_destroy s).1 rs ≡ []

  sensing :
      (usb_device_attached usb_device_detached : Bytes) (rs : List Reading) (v : Phone)
      → IsApart usb_device_attached usb_device_detached
      → v.application.hold_wake_lock ≡ true
      → IsSensing usb_device_attached usb_device_detached rs v
          (some (register_sensor true new_psensor))
  unfolding sense on_destroy
  sensing usb_device_attached usb_device_detached rs v apart hold =
      let (v', returned, held) =
        sense_all-Held usb_device_attached usb_device_detached rs v apart hold in
      record {
        after_readings = v';
        returned = returned;
        held = held;
        cleared = refl;
        silent =
            sense_all_silent (unregister_sensor (register_sensor true new_psensor)) rs
              (unfold register_sensor unregister_sensor in refl);
      }

  -- If parcels are queues, `GetStringUTFChars` gives the characters of strings that are not null, the
  -- native service is found and its property `ro.product.device` is `LeVR_Max_1`, the sensor and its
  -- manager are found, and the two actions of the framework are not one and not those of the
  -- application, then `onCreate` has the wake lock used and the sensor read: after any readings the
  -- lock is held just if the last reading of the proximity sensor was below the limit, and as it was
  -- without one; after `onDestroy` the service has no sensor, and no reading of the one it had is
  -- broadcast.
  pub on_create-IsSensing :
      (usb_device_attached usb_device_detached : Bytes) (rs : List Reading) (v : Phone)
      (w w' : World) (n : VrNativeService Event) (status : ℤ)
      → IsApart usb_device_attached usb_device_detached
      → property_get (codes "ro.product.device") w ≡ ((status, device_name), w')
      → ltb_ℤ status (pos 0) ≡ false
      → (a : Application) × (s : Option PSensor) × (on_create get_string_utf_chars Event
            (State os Event)
            (some (client parcels laws os order base))
            true
            v.application
            (w, n)
          ≡ ok ((a, s), (w', n)))
        × IsSensing usb_device_attached usb_device_detached rs (record v { application = a }) s
  on_create-IsSensing usb_device_attached usb_device_detached rs v w w' n status apart got success =
      (
        set_hold_wake_lock true v.application,
        some (register_sensor true new_psensor),
        on_create_lem true v.application w w' n status device_name got success
            ∙ (unfold strcmp in refl),
        sensing usb_device_attached usb_device_detached rs
            (record v { application = set_hold_wake_lock true v.application }) apart refl,
      )
