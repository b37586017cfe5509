-- ===== src/ServerListener/Sdks.antt =====
-- The life of the SDKs of jni/main/ServerListener.cpp: its constructor makes them by reading the two
-- information files, and its destructor, by that of `mXmlData`, deletes them.
use vr_admin.Prelude.{ℕ, ◌≡◌, ◌≢◌, refl, sym, Option, none, some, [], Exec, ok, ◌>>=◌}
use mathlib.Core.Path.{subst}
use vr_admin.CString.{Bytes, codes}
use vr_admin.VrSdk.{PropertyCalls}
use vr_admin.XmlDatabase.{empty_database, Parsed}
use vr_admin.XmlDatabase.Libxml.{Xml}
use vr_admin.XmlDatabase.Objects.{SdkObjects, no_sdks, ParsedObjects, parse_objects, destroy_sdks}
use vr_admin.XmlDatabase.Objects.Refinement.{
  OwnsSdks, Implements, parse_objects-Implements, destroy_sdks_lem,
}
use vr_admin.XmlDatabase.Objects.Addresses.{IsWithin, parse_objects-IsWithin}
use vr_admin.ServerListener.{ServerListener, new_listener, then_parse, unstarted}

abbrev then_parse_objects : Xml → ℕ → ℕ → Bytes → Option ParsedObjects → Exec (Option ParsedObjects)
then_parse_objects xml fuel address path none = ok none
then_parse_objects xml fuel address path (some (ret, o, calls)) =
    parse_objects xml fuel address (some path) o calls

abbrev sdks_and_calls : Option ParsedObjects → Option (SdkObjects × PropertyCalls)
sdks_and_calls none = none
sdks_and_calls (some (ret, o, calls)) = some (o, calls)

-- What the constructor makes on the heap, where `new` gives these two addresses, if it is called.
unfoldable pub new_listener_objects :
    Xml → ℕ → ℕ → ℕ → PropertyCalls → Exec (Option (SdkObjects × PropertyCalls))
new_listener_objects xml fuel svr_address lvr_address calls = do
  svr ←
      parse_objects xml fuel svr_address (some (codes "/system/vendor/etc/svrinfo.xml")) no_sdks
        calls
  lvr ← then_parse_objects xml fuel lvr_address (codes "/system/vendor/etc/lvrinfo.xml") svr
  ok (sdks_and_calls lvr)

-- The constructor has made the SDKs of the listener, and the destructor then leaves none.
abbrev pub LivesAs :
    Option (ServerListener × PropertyCalls) → Exec (Option (SdkObjects × PropertyCalls)) → Type 0
LivesAs none run = run ≡ ok none
LivesAs (some (l, calls)) run =
    (o : SdkObjects) × (run ≡ ok (some (o, calls)))
    × OwnsSdks o l.xml_data.sdks
    × (o' : SdkObjects) × (destroy_sdks o ≡ ok o')
    × OwnsSdks o' []

second_file :
    (p : Option Parsed) (run : Exec (Option ParsedObjects))
    → Implements p run
    → LivesAs (unstarted p) (run >>= λ lvr. ok (sdks_and_calls lvr))
second_file none run e = rw e refl
second_file (some (ret, db, calls)) run (o, e, owns) =
    let (o', destroyed, gone) = destroy_sdks_lem o db.sdks owns in
    (o, rw e refl, owns, o', destroyed, gone)

module _ (xml : Xml) (fuel svr_address lvr_address : ℕ) (distinct : svr_address ≢ lvr_address) where
  abbrev lvr_path : Bytes
  lvr_path = codes "/system/vendor/etc/lvrinfo.xml"

  first_file :
      (p : Option Parsed) (run : Exec (Option ParsedObjects))
      → Implements p run
      → IsWithin svr_address no_sdks run
      → LivesAs (unstarted (then_parse xml fuel lvr_path p)) (
          run >>= λ svr.
          then_parse_objects xml fuel lvr_address lvr_path svr >>= λ lvr. ok (sdks_and_calls lvr))
  first_file none run e within = rw e refl
  first_file (some (ret, db, calls)) run (o, e, owns) within =
      let apart = subst (IsWithin svr_address no_sdks) e within in
      let free = owns.no_leak lvr_address (apart lvr_address tt (λ s. distinct (sym s))) in
      rw e (
        second_file _ _
          (parse_objects-Implements xml fuel lvr_address (some lvr_path) o db calls free owns))

  -- Whatever libxml2 gives for the two files, where `new` gives two distinct addresses for them, the
  -- constructor of the listener makes on the heap the SDKs of its database, with its properties,
  -- and follows no dangling pointer: the pointers lead to distinct live objects, one for each SDK and
  -- in their order, and no other SDK lives. The destructor then deletes each of them once, and leaves
  -- none. If the fuel runs out, it does so for both.
  pub new_listener_objects-LivesAs :
      (calls : PropertyCalls)
      → LivesAs
          (new_listener xml fuel calls)
          (new_listener_objects xml fuel svr_address lvr_address calls)
  unfolding new_listener new_listener_objects
  new_listener_objects-LivesAs calls =
      first_file _ _
        (parse_objects-Implements xml fuel svr_address
          (some (codes "/system/vendor/etc/svrinfo.xml")) no_sdks empty_database calls refl
          (record { points = tt; no_leak = λ p n. refl }))
        (parse_objects-IsWithin xml fuel svr_address no_sdks calls
          (some (codes "/system/vendor/etc/svrinfo.xml")))
