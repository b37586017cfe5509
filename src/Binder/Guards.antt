-- ===== src/Binder/Guards.antt =====
-- The guard of the stubs: a parcel for another interface.
use mathlib.Core.Bool.{false≢true}
use vr_admin.Prelude.{
  ℕ, ◌+◌, ◌<◌, ◌≡◌, ◌≢◌, refl, false, Bool-cases, inl, inr, eqb_ℤ, eqb_ℤ_iff, List, [], ◌∷◌, pos,
  ok, arith,
}
use vr_admin.CString.{Bytes, strcmp}
use vr_admin.CString.Compare.{strcmp_iff}
use vr_admin.Binder.Platform.{Parcels, ParcelLaws, Item, token, string}
use vr_admin.Binder.{
  NativeInterface, EventInterface, ArgumentOrder, native_descriptor, event_descriptor, native_token,
  Remote, native_proxy, native_transact,
}
use vr_admin.Binder.Post.{event_transact}

module _ (parcels : Parcels) (laws : ParcelLaws parcels) (World : Type 0) where
  open parcels use {Parcel, Event, write_string, first_call, permission_denied}
  open laws use {items, items-empty, items-token, items-string, token-other, denied}

  -- If parcels are queues, a parcel that begins with the token of another interface is refused by every code of the
  -- service: no operation is called, and the reply and the state are as they were.
  pub native_transact_foreign :
      (order : ArgumentOrder) (base : Remote parcels World) (service : NativeInterface Event World)
      (k : ℕ) (u : Bytes) (packed reply : Parcel) (w : World) (xs : List (Item Event))
      → k < 7
      → items packed ≡ token u ∷ xs
      → u ≢ native_descriptor
      → native_transact parcels World order base service (first_call + k) packed reply w
        ≡ ok (permission_denied, reply, w)
  unfolding native_transact
  native_transact_foreign order base service k u packed reply w xs small held other =
      let denied = token-other native_descriptor u packed xs held other in ground arith

  distinct_descriptors : native_descriptor ≢ event_descriptor
  distinct_descriptors e =
      absurd (false≢true (unfold strcmp in (strcmp_iff native_descriptor event_descriptor).1 e))

  -- If parcels are queues, a client that takes the object of `IVRPostEvent` for the service, whose
  -- first code is the same, is refused: `getSystemNode` returns the status of `CHECK_INTERFACE`, the
  -- text is as it was, and no event is posted.
  pub get_node_refused :
      (base : Remote parcels World) (handler : EventInterface World) (path value : Bytes)
      (w : World)
      → (native_proxy parcels World (event_transact parcels World base handler)).get_node path value
          w
        ≡ ok (permission_denied, value, w)
  unfolding event_transact
  get_node_refused base handler path value w =
      let held : items (write_string path (native_token parcels World))
          ≡ token native_descriptor ∷ string path ∷ [] =
        rw (items-string, items-token, items-empty) refl in
      let other = token-other event_descriptor native_descriptor _ _ held distinct_descriptors in
      let failed : eqb_ℤ permission_denied (pos 0) ≡ false =
        elim (Bool-cases (eqb_ℤ permission_denied (pos 0))) [
          | inl e ↦ absurd (denied ((eqb_ℤ_iff permission_denied (pos 0)).0 e))
          | inr e ↦ e
        ] in
      ground arith
