-- ===== src/HmdReceiver.antt =====
-- src/com/android/VRAdmin/HMDReceiver.java, with what it drives: the wake lock of
-- VRAdminApplication.java, and what feeds it: PSensorUtility.java and the listener of VRAdminService.
pub mod WakeLock
pub mod Sensor
use vr_admin.Prelude.{
  ℕ, suc, ◌==◌, Bool, true, false, not, ◌&&◌, if◌then◌else◌, Option, none, some, List, [], ◌∷◌,
  ◌++◌,
}
use vr_admin.CString.{Bytes, codes, strcmp}
use vr_admin.Jni.{JString}

-- VRAdminApplication: whether the wake lock is to be used, whether it is held, and whether the power
-- manager was last told to wake up.
pub record Application : Type 0 where
  pub hold_wake_lock : Bool
  pub is_held : Bool
  pub awake : Bool

abbrev acquire : Application → Application
acquire a = if not a.is_held then record a { is_held = true } else a

abbrev release : Application → Application
release a = if a.is_held then record a { is_held = false } else a

unfoldable pub on_usb_attached : Application → Application
on_usb_attached a = a

unfoldable pub on_usb_detached : Application → Application
on_usb_detached a = let b = record a { awake = true } in if b.hold_wake_lock then release b else b

unfoldable pub on_psensor_near : Application → Application
on_psensor_near a = let b = record a { awake = true } in if b.hold_wake_lock then acquire b else b

unfoldable pub on_psensor_far : Application → Application
on_psensor_far a = let b = record a { awake = false } in if b.hold_wake_lock then release b else b

abbrev pub set_hold_wake_lock : Bool → Application → Application
set_hold_wake_lock hold a = record a { hold_wake_lock = hold }

-- The vendor and the product of a device.
abbrev pub UsbDevice : Type 0
UsbDevice = ℕ × ℕ

abbrev pub vr_hmd_vendor_id : ℕ
vr_hmd_vendor_id = 11022

abbrev pub vr_hmd_product_id : ℕ
vr_hmd_product_id = 7163

unfoldable pub is_phone_plugin : UsbDevice → Bool
is_phone_plugin (vendorid, productid) =
    (vendorid == vr_hmd_vendor_id) && (productid == vr_hmd_product_id)

pub record Intent : Type 0 where
  pub action : JString
  pub type : JString
  pub usb_device : Option UsbDevice

-- The application, what was broadcast, and how often the service was started.
pub record Phone : Type 0 where
  pub application : Application
  pub broadcasts : List Bytes
  pub starts : ℕ

abbrev pub hmd_in : Bytes
hmd_in = codes "android.intent.action.lvr_hmd_in"

abbrev pub hmd_out : Bytes
hmd_out = codes "android.intent.action.lvr_hmd_out"

abbrev pub boot_completed : Bytes
boot_completed = codes "android.intent.action.BOOT_COMPLETED"

abbrev pub proximity_sensor : Bytes
proximity_sensor = codes "android.intent.action.proximity_sensor2"

abbrev plugged_in : UsbDevice → Phone → Phone
plugged_in device w =
    if is_phone_plugin device
    then record w {
      broadcasts = w.broadcasts ++ (hmd_in ∷ []);
      application = on_usb_attached w.application;
    }
    else w

abbrev plugged_out : UsbDevice → Phone → Phone
plugged_out device w =
    if is_phone_plugin device
    then record w {
      broadcasts = w.broadcasts ++ (hmd_out ∷ []);
      application = on_usb_detached w.application;
    }
    else w

abbrev with_device : Option UsbDevice → (UsbDevice → Phone → Phone) → Phone → Phone
with_device none f w = w
with_device (some device) f w = f device w

-- The type of a broadcast of the sensor; a null type throws.
abbrev on_proximity : JString → Phone → Option Phone
on_proximity none w = none
on_proximity (some type) w = some (
    if strcmp type (codes "psensor/1")
    then record w { application = on_psensor_near w.application }
    else if strcmp type (codes "psensor/0")
    then record w { application = on_psensor_far w.application }
    else w)

-- The two actions of the framework for a device.
module _ (usb_device_attached usb_device_detached : Bytes) where
  abbrev first_part : Bytes → Option UsbDevice → Phone → Phone
  first_part action usb_device w =
      if strcmp usb_device_attached action
      then with_device usb_device plugged_in w
      else if strcmp usb_device_detached action
      then with_device usb_device plugged_out w
      else if strcmp action boot_completed
      then record w { starts = suc w.starts }
      else w

  abbrev second_part : Bytes → JString → Phone → Option Phone
  second_part action type w = if strcmp action proximity_sensor then on_proximity type w else some w

  -- `onReceive`; `none` is a NullPointerException, which a null action throws.
  unfoldable pub on_receive : Intent → Phone → Option Phone
  on_receive intent w = with_action intent.action
    where
      with_action : JString → Option Phone
      with_action none = none
      with_action (some action) =
          second_part action intent.type (first_part action intent.usb_device w)

  abbrev then_receive : Option Phone → (Phone → Option Phone) → Option Phone
  then_receive none k = none
  then_receive (some w) k = k w

  unfoldable pub receive_all : List Intent → Phone → Option Phone
  receive_all [] w = some w
  receive_all (i ∷ is) w = then_receive (on_receive i w) (receive_all is)

-- PSensorUtility, whether it listens, and whether the sensor manager has its listener. A reading is
-- whether it is of the proximity sensor, and whether its value is below `mMaxiRange`.
pub record PSensor : Type 0 where
  pub is_listening : Bool
  pub registered : Bool

abbrev pub Reading : Type 0
Reading = Bool × Bool

-- `registerSensor`, where a sensor was found or not; without a sensor manager the constructor throws.
unfoldable pub register_sensor : Bool → PSensor → PSensor
register_sensor found s =
    if s.is_listening
    then s
    else if found
    then record { is_listening = true; registered = true }
    else record s { is_listening = true }

-- `unregisterSensor`.
unfoldable pub unregister_sensor : PSensor → PSensor
unregister_sensor s =
    if s.is_listening then record { is_listening = false; registered = false } else s

abbrev pub proximity : Bytes → Intent
proximity type = record { action = some proximity_sensor; type = some type; usb_device = none }

-- `onSensorChanged`, with `onNear` and `onFar` of the listener.
unfoldable pub on_sensor_changed : Reading → List Intent
on_sensor_changed (of_proximity, below) =
    if of_proximity
    then (if below then proximity (codes "psensor/1") else proximity (codes "psensor/0")) ∷ []
    else []

-- The broadcasts for some readings; without a listener there are none.
unfoldable pub sense_all : PSensor → List Reading → List Intent
sense_all s [] = []
sense_all s (r ∷ rs) =
    let rest = sense_all s rs in if s.registered then on_sensor_changed r ++ rest else []
