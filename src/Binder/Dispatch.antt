-- ===== src/Binder/Dispatch.antt =====
-- The codes of the service: which operation each one calls.
use vr_admin.Prelude.{◌+◌, ◌≡◌, arith}
use vr_admin.Binder.Platform.{Parcels}
use vr_admin.Binder.{
  NativeInterface, ArgumentOrder, native_descriptor, Remote, checked, native_transact, on_get_node,
  on_set_node, on_syscall, on_get_attr, on_set_attr, on_set_sched, on_set_post_event,
}

module _ (parcels : Parcels) (World : Type 0) (order : ArgumentOrder) (base : Remote parcels World)
    (service : NativeInterface parcels.Event World) where
  open parcels use {Parcel, first_call}

  pub transact_get_node :
      (packed reply : Parcel) (w : World)
      → native_transact parcels World order base service first_call packed reply w
        ≡ checked parcels World native_descriptor packed reply w
            (on_get_node parcels World service reply w)
  unfolding native_transact
  transact_get_node packed reply w = ground arith

  pub transact_set_node :
      (packed reply : Parcel) (w : World)
      → native_transact parcels World order base service (first_call + 1) packed reply w
        ≡ checked parcels World native_descriptor packed reply w
            (on_set_node parcels World service reply w)
  unfolding native_transact
  transact_set_node packed reply w = ground arith

  pub transact_syscall :
      (packed reply : Parcel) (w : World)
      → native_transact parcels World order base service (first_call + 2) packed reply w
        ≡ checked parcels World native_descriptor packed reply w
            (on_syscall parcels World service reply w)
  unfolding native_transact
  transact_syscall packed reply w = ground arith

  pub transact_get_attr :
      (packed reply : Parcel) (w : World)
      → native_transact parcels World order base service (first_call + 3) packed reply w
        ≡ checked parcels World native_descriptor packed reply w
            (on_get_attr parcels World service reply w)
  unfolding native_transact
  transact_get_attr packed reply w = ground arith

  pub transact_set_attr :
      (packed reply : Parcel) (w : World)
      → native_transact parcels World order base service (first_call + 4) packed reply w
        ≡ checked parcels World native_descriptor packed reply w
            (on_set_attr parcels World service reply w)
  unfolding native_transact
  transact_set_attr packed reply w = ground arith

  pub transact_set_sched :
      (packed reply : Parcel) (w : World)
      → native_transact parcels World order base service (first_call + 5) packed reply w
        ≡ checked parcels World native_descriptor packed reply w
            (on_set_sched parcels World order service reply w)
  unfolding native_transact
  transact_set_sched packed reply w = ground arith

  pub transact_set_post_event :
      (packed reply : Parcel) (w : World)
      → native_transact parcels World order base service (first_call + 6) packed reply w
        ≡ checked parcels World native_descriptor packed reply w
            (on_set_post_event parcels World service reply w)
  unfolding native_transact
  transact_set_post_event packed reply w = ground arith
