-- ===== src/HmdReceiver/Sensor.antt =====
-- From the proximity sensor to the wake lock.
use vr_admin.Prelude.{
  ◌≡◌, refl, ◌∙◌, ap, Bool, true, false, if◌then◌else◌, Option, none, some, List, [], ◌∷◌,
}
use vr_admin.CString.{Bytes, codes}
use vr_admin.HmdReceiver.{
  Phone, receive_all, PSensor, Reading, on_sensor_changed, sense_all, register_sensor, proximity,
}
use vr_admin.HmdReceiver.WakeLock.{
  Signal, near, far, IsApart, intents_of, later_or, last_asked, or_held, receive_all-Held,
}

-- The signals of some readings, and the last reading of the sensor.
abbrev signals_of : List Reading → List Signal
signals_of [] = []
signals_of ((of_proximity, below) ∷ rs) =
    let rest = signals_of rs in if of_proximity then (if below then near else far) ∷ rest else rest

abbrev pub last_below : List Reading → Option Bool
last_below [] = none
last_below ((of_proximity, below) ∷ rs) =
    later_or (last_below rs) (if of_proximity then some below else none)

module _ (usb_device_attached usb_device_detached : Bytes) where
  sense_all_lem :
      (s : PSensor) (rs : List Reading)
      → s.registered ≡ true
      → sense_all s rs ≡ intents_of usb_device_attached usb_device_detached (signals_of rs)
  unfolding sense_all on_sensor_changed
  sense_all_lem s [] h = refl
  sense_all_lem s ((false, below) ∷ rs) h = rw h (sense_all_lem s rs h)
  sense_all_lem s ((true, false) ∷ rs) h =
      rw h (ap (◌∷◌ (proximity (codes "psensor/0"))) (sense_all_lem s rs h))
  sense_all_lem s ((true, true) ∷ rs) h =
      rw h (ap (◌∷◌ (proximity (codes "psensor/1"))) (sense_all_lem s rs h))

last_asked_lem : (rs : List Reading) → last_asked (signals_of rs) ≡ last_below rs
last_asked_lem [] = refl
last_asked_lem ((false, below) ∷ rs) = last_asked_lem rs ∙ by_last (last_below rs)
  where
    by_last : (a : Option Bool) → a ≡ later_or a none
    by_last none = refl
    by_last (some b) = refl
last_asked_lem ((true, true) ∷ rs) = ap (λ a. later_or a (some true)) (last_asked_lem rs)
last_asked_lem ((true, false) ∷ rs) = ap (λ a. later_or a (some false)) (last_asked_lem rs)

-- If the two actions of the framework are not one and not those of the application, the sensor and
-- its manager were found, and the wake lock is to be used, then, after any readings, the broadcasts of
-- the service have the receiver hold the lock just if the last reading of the proximity sensor was
-- below the limit; without such a reading it is as it was.
pub sense_all-Held :
    (usb_device_attached usb_device_detached : Bytes) (rs : List Reading) (w : Phone)
    → IsApart usb_device_attached usb_device_detached
    → w.application.hold_wake_lock ≡ true
    → (w' : Phone) × (receive_all usb_device_attached usb_device_detached
          (sense_all
            (register_sensor true (record { is_listening = false; registered = false }))
            rs)
          w
        ≡ some w')
      × (w'.application.is_held ≡ or_held (last_below rs) w.application.is_held)
unfolding register_sensor
sense_all-Held usb_device_attached usb_device_detached rs w apart hold =
    let (w', run, held) =
      receive_all-Held usb_device_attached usb_device_detached apart (signals_of rs) w in
    (
      w',
      rw
          (sense_all_lem usb_device_attached usb_device_detached
            (record { is_listening = true; registered = true }) rs refl)
          run,
      held ∙ rw (hold, last_asked_lem rs) refl,
    )
