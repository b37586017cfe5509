-- ===== src/AdminService/Restored.antt =====
-- When VRAdminService restores the settings: at the death of its last monitor.
use vr_admin.Prelude.{
  ℕ, ◌≡◌, refl, ◌∙◌, ==_refl, true, false, ◌&&◌, Bool-cases, inl, inr, if◌then◌else◌, Option, none,
  some, List, [], ◌∷◌, length, pos, eqb_ℤ, Exec, ok, ◌>>=◌, arith,
}
use vr_admin.CString.{Bytes, codes}
use vr_admin.NativeService.System.{Os}
use vr_admin.NativeService.{VrNativeService, set_property}
use vr_admin.Binder.Platform.{Parcels, ParcelLaws}
use vr_admin.Binder.{ArgumentOrder, Remote}
use vr_admin.Server.{State}
use vr_admin.Jni.{JString}
use vr_admin.AdminService.{
  vr_gralloc_property, VrAdminService, contains, remove, register_monitor, VrManager, binder_died,
}
use vr_admin.AdminService.Settings.{connected, set_status_lem}
use vr_admin.AdminService.Monitors.{
  contains-append, contains-remove_other, Counted, unlinked-Counted,
}
use vr_admin.AdminService.Events.{
  MonitorEvent, registers, dies, none_left, after, all_after, after-Counted, Stuck, apart_other,
  none_left-contains, counted_positive, after-Stuck, all_after-Stuck,
}

module _ (get_string_utf_chars : JString → Exec (Option Bytes)) (Event World : Type 0) where
  -- What the service does; a monitor that died is not linked any more.
  unfoldable pub handle :
      VrManager get_string_utf_chars Event World
      → MonitorEvent
      → VrAdminService
      → World
      → Exec (VrAdminService × World)
  handle manager (registers monitor alive) s w = ok (register_monitor monitor alive s, w)
  handle manager (dies m) s w =
      if contains m s.linked
      then binder_died get_string_utf_chars Event World manager m
          (record s { linked = remove m s.linked }) w
      else ok (s, w)

  unfoldable pub handle_all :
      VrManager get_string_utf_chars Event World
      → List MonitorEvent
      → VrAdminService
      → World
      → Exec (VrAdminService × World)
  handle_all manager [] s w = ok (s, w)
  handle_all manager (e ∷ es) s w = handle manager e s w >>= λ (s', w'). handle_all manager es s' w'

module _ (parcels : Parcels) (laws : ParcelLaws parcels) (os : Os) (order : ArgumentOrder)
    (base : Remote parcels (State os parcels.Event))
    (get_string_utf_chars : JString → Exec (Option Bytes))
    (works : (s : Bytes) → get_string_utf_chars (some s) ≡ ok (some s)) where
  open parcels use {Event}
  open os use {World}

  -- The system after an event: the property is set back by the death of the last monitor.
  abbrev pub restored : MonitorEvent → VrAdminService → World → World
  restored (registers monitor alive) s w = w
  restored (dies m) s w =
      if contains m s.linked && none_left (remove m s.monitors)
      then (set_property os vr_gralloc_property (codes "0") w).1
      else w

  abbrev pub all_restored : List MonitorEvent → VrAdminService → World → World
  all_restored [] s w = w
  all_restored (e ∷ es) s w = all_restored es (after e s) (restored e s w)

  manager : VrManager get_string_utf_chars Event (State os Event)
  manager = connected parcels laws os order base get_string_utf_chars works

  none_left-length : (xs : List ℕ) → eqb_ℤ (pos 0) (pos (length xs)) ≡ none_left xs
  none_left-length [] = refl
  none_left-length (x ∷ xs) = ground arith

  handle_lem :
      (e : MonitorEvent) (s : VrAdminService) (w : World) (n : VrNativeService Event)
      → Counted s
      → handle get_string_utf_chars Event (State os Event) manager e s (w, n)
        ≡ ok (after e s, (restored e s w, n))
  unfolding handle register_monitor binder_died manager
  handle_lem (registers none alive) s w n c = refl
  handle_lem (registers (some m) alive) s w n c = refl
  handle_lem (dies m) s w n c = elim (Bool-cases (contains m s.linked)) [
    | inr e ↦ rw e refl
    | inl e ↦
        rw (e, (unlinked-Counted m s e c).counted, none_left-length (remove m s.monitors))
          (elim (Bool-cases (none_left (remove m s.monitors))) [
            | inl l ↦
                rw
                  (
                    l,
                    set_status_lem parcels laws os order base get_string_utf_chars works (codes "0")
                        w n,
                  )
                  refl
            | inr l ↦ rw l refl
          ])
  ]

  -- If parcels are queues, `GetStringUTFChars` gives the characters of strings that are not null and
  -- the native service is found, then, whatever registrations and deaths of monitors are handled one
  -- after another, each whole before the next begins, `mClientCount` stays the number of the monitors
  -- in the list, none of them twice, and the property is set back at just those deaths after which the
  -- list is empty; nothing else happens to the system. A monitor may be null, or dead before it is
  -- linked.
  pub handle_all-Counted :
      (es : List MonitorEvent) (s : VrAdminService) (w : World) (n : VrNativeService Event)
      → Counted s
      → (handle_all get_string_utf_chars Event
            (State os Event)
            (connected parcels laws os order base get_string_utf_chars works)
            es
            s
            (w, n)
          ≡ ok (all_after es s, (all_restored es s w, n)))
        × Counted (all_after es s)
  unfolding handle_all manager
  handle_all-Counted [] s w n c = (refl, c)
  handle_all-Counted (e ∷ es) s w n c =
      let (run, c') = handle_all-Counted es (after e s) (restored e s w) n (after-Counted e s c) in
      (rw (handle_lem e s w n c) run, c')

  restored-Stuck :
      (m : ℕ) (e : MonitorEvent) (s : VrAdminService) (w : World) → Stuck m s → restored e s w ≡ w
  restored-Stuck m (registers x alive) s w h = refl
  restored-Stuck m (dies x) s w (listed, apart) = elim (Bool-cases (contains x s.linked)) [
    | inl e ↦
        rw
          (
            e,
            none_left-contains m (remove x s.monitors)
                (contains-remove_other m x s.monitors (apart_other m x s.linked e apart) ∙ listed),
          )
          refl
    | inr e ↦ rw e refl
  ]

  all_restored-Stuck :
      (m : ℕ) (es : List MonitorEvent) (s : VrAdminService) (w : World)
      → Stuck m s
      → all_restored es s w ≡ w
  all_restored-Stuck m [] s w h = refl
  all_restored-Stuck m (e ∷ es) s w h =
      rw (restored-Stuck m e s w h) (all_restored-Stuck m es (after e s) w (after-Stuck m e s h))

  -- If parcels are queues, `GetStringUTFChars` gives the characters of strings that are not null and
  -- the native service is found, then a new monitor whose process has died before it is linked stays in
  -- the list whatever registrations and deaths are handled later, one after another, so that `mClientCount` is never 0 again and the property is never
  -- set back.
  pub dead_monitor_stays :
      (m : ℕ) (es : List MonitorEvent) (s : VrAdminService) (w : World) (n : VrNativeService Event)
      → Counted s
      → contains m s.monitors ≡ false
      → (s' : VrAdminService) × (handle_all get_string_utf_chars Event
            (State os Event)
            (connected parcels laws os order base get_string_utf_chars works)
            (registers (some m) false ∷ es)
            s
            (w, n)
          ≡ ok (s', (w, n)))
        × (contains m s'.monitors ≡ true)
        × (eqb_ℤ s'.client_count (pos 0) ≡ false)
  dead_monitor_stays m es s w n c new =
      let stuck : Stuck m (after (registers (some m) false) s) = at_first in
      let (run, c') = handle_all-Counted (registers (some m) false ∷ es) s w n c in
      let kept = all_after-Stuck m es (after (registers (some m) false) s) stuck in
      (
        all_after es (after (registers (some m) false) s),
        run ∙ rw (all_restored-Stuck m es (after (registers (some m) false) s) w stuck) refl,
        kept.0,
        rw c'.counted (
            counted_positive m (all_after es (after (registers (some m) false) s)).monitors kept.0),
      )
    where
      at_first : Stuck m (after (registers (some m) false) s)
      at_first =
          rw new (
            rw (contains-append m s.monitors m, ==_refl m) (ground arith),
            ground (arith, c.known m),
          )
