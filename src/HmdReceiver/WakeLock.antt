-- ===== src/HmdReceiver/WakeLock.antt =====
-- When the wake lock is held.
use vr_admin.Prelude.{
  suc, ◌≡◌, refl, ◌∙◌, Bool, true, false, Bool-cases, inl, inr, if◌then◌else◌, Option, none, some,
  List, [], ◌∷◌, ◌++◌, arith,
}
use vr_admin.CString.{Bytes, codes, strcmp}
use vr_admin.CString.Compare.{strcmp_iff}
use vr_admin.HmdReceiver.{
  Application, on_usb_attached, on_usb_detached, on_psensor_near, on_psensor_far, UsbDevice,
  vr_hmd_vendor_id, vr_hmd_product_id, is_phone_plugin, Intent, Phone, boot_completed,
  proximity_sensor, on_receive, receive_all, proximity, hmd_in, hmd_out,
}

strcmp_refl : (s : Bytes) → strcmp s s ≡ true
strcmp_refl s = (strcmp_iff s s).1 refl

-- What the receiver is told.
pub data Signal : Type 0 where
  attached : Signal
  detached : Signal
  near : Signal
  far : Signal
  boot : Signal

-- The broadcast of a signal.
module _ (usb_device_attached usb_device_detached : Bytes) where
  -- The actions of the framework are two, and neither is one of the application.
  pub record IsApart : Type 0 where
    pub two : strcmp usb_device_attached usb_device_detached ≡ false
    pub attached_boot : strcmp usb_device_attached boot_completed ≡ false
    pub detached_boot : strcmp usb_device_detached boot_completed ≡ false
    pub attached_sensor : strcmp usb_device_attached proximity_sensor ≡ false
    pub detached_sensor : strcmp usb_device_detached proximity_sensor ≡ false

  abbrev hmd : Option UsbDevice
  hmd = some (vr_hmd_vendor_id, vr_hmd_product_id)

  abbrev pub intent_of : Signal → Intent
  intent_of attached = record { action = some usb_device_attached; type = none; usb_device = hmd }
  intent_of detached = record { action = some usb_device_detached; type = none; usb_device = hmd }
  intent_of near = proximity (codes "psensor/1")
  intent_of far = proximity (codes "psensor/0")
  intent_of boot = record { action = some boot_completed; type = none; usb_device = none }

  abbrev pub intents_of : List Signal → List Intent
  intents_of [] = []
  intents_of (s ∷ ss) = intent_of s ∷ intents_of ss

-- Whether a signal asks for the lock, lets it go, or does neither.
abbrev asks : Signal → Option Bool
asks attached = none
asks detached = some false
asks near = some true
asks far = some false
asks boot = none

abbrev pub later_or : Option Bool → Option Bool → Option Bool
later_or none first = first
later_or (some b) first = some b

-- What the last signal that does either does.
abbrev pub last_asked : List Signal → Option Bool
last_asked [] = none
last_asked (s ∷ ss) = later_or (last_asked ss) (asks s)

abbrev pub or_held : Option Bool → Bool → Bool
or_held none b = b
or_held (some asked) b = asked

-- The lock after some signals; where it is not to be used, it is left as it was.
abbrev pub held_after : List Signal → Application → Bool
held_after ss a = if a.hold_wake_lock then or_held (last_asked ss) a.is_held else a.is_held

held_later :
    (s : Signal) (ss : List Signal) (held : Bool)
    → or_held (last_asked ss) (or_held (asks s) held) ≡ or_held (last_asked (s ∷ ss)) held
held_later s ss held = by_last (last_asked ss) (asks s)
  where
    by_last : (a b : Option Bool) → or_held a (or_held b held) ≡ or_held (later_or a b) held
    by_last none b = refl
    by_last (some x) b = refl

module _ (usb_device_attached usb_device_detached : Bytes)
    (apart : IsApart usb_device_attached usb_device_detached) where
  abbrev receive : Signal → Phone → Option Phone
  receive s w =
      on_receive usb_device_attached usb_device_detached
        (intent_of usb_device_attached usb_device_detached s) w

  -- A signal that was received.
  record Received (s : Signal) (w : Phone) : Type 0 where
    next : Phone
    returned : receive s w ≡ some next
    held : next.application.is_held ≡ (
        if w.application.hold_wake_lock
        then or_held (asks s) w.application.is_held
        else w.application.is_held)
    same_hold : next.application.hold_wake_lock ≡ w.application.hold_wake_lock

  receive-Received : (s : Signal) (w : Phone) → Received s w
  unfolding on_receive is_phone_plugin on_usb_attached on_usb_detached on_psensor_near
      on_psensor_far
  receive-Received attached w = record {
    next = record w { broadcasts = w.broadcasts ++ (hmd_in ∷ []) };
    returned = rw (strcmp_refl usb_device_attached, apart.attached_sensor) refl;
    held = ground arith;
    same_hold = refl;
  }
  receive-Received detached w = record {
    next = record w {
      broadcasts = w.broadcasts ++ (hmd_out ∷ []);
      application = on_usb_detached w.application;
    };
    returned = rw (apart.two, strcmp_refl usb_device_detached, apart.detached_sensor) refl;
    held = ground arith;
    same_hold = ground arith;
  }
  receive-Received near w = record {
    next = record w { application = on_psensor_near w.application };
    returned = rw (apart.attached_sensor, apart.detached_sensor) (unfold strcmp in refl);
    held = ground arith;
    same_hold = ground arith;
  }
  receive-Received far w = record {
    next = record w { application = on_psensor_far w.application };
    returned = rw (apart.attached_sensor, apart.detached_sensor) (unfold strcmp in refl);
    held = ground arith;
    same_hold = ground arith;
  }
  receive-Received boot w = record {
    next = record w { starts = suc w.starts };
    returned = rw (apart.attached_boot, apart.detached_boot) (unfold strcmp in refl);
    held = ground arith;
    same_hold = refl;
  }

  held_step :
      (s : Signal) (ss : List Signal) (w next : Phone)
      → next.application.is_held ≡ held_after (s ∷ []) w.application
      → next.application.hold_wake_lock ≡ w.application.hold_wake_lock
      → held_after ss next.application ≡ held_after (s ∷ ss) w.application
  held_step s ss w next held hold = elim (Bool-cases w.application.hold_wake_lock) [
    | inl h ↦ rw (hold, held, h) (held_later s ss w.application.is_held)
    | inr h ↦ rw (hold, held, h) refl
  ]

  -- If the two actions of the framework are not one and not those of the application, then, whatever
  -- is plugged in or out, started or sensed, the receiver throws nothing, and where the wake lock is
  -- to be used, it is held if the last of the sensor's and the detaching signals was that something is
  -- near, not held if it was another, and as it was if there was none; where it is not to be used, it
  -- stays as it was, held or not.
  pub receive_all-Held :
      (ss : List Signal) (w : Phone)
      → (w' : Phone) × (receive_all usb_device_attached usb_device_detached
            (intents_of usb_device_attached usb_device_detached ss)
            w
          ≡ some w')
        × (w'.application.is_held ≡ held_after ss w.application)
  unfolding receive_all
  receive_all-Held [] w = (
    w,
    refl,
    elim (Bool-cases w.application.hold_wake_lock) [ inl h ↦ rw h refl | inr h ↦ rw h refl ],
  )
  receive_all-Held (s ∷ ss) w =
      let r = receive-Received s w in
      let (w', run, held) = receive_all-Held ss r.next in
      (w', rw r.returned run, held ∙ held_step s ss w r.next r.held r.same_hold)
