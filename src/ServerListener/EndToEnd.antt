-- ===== src/ServerListener/EndToEnd.antt =====
-- From the two information files to the replies of the protocol.
use vr_admin.Prelude.{ℕ, ◌<◌, ◌≡◌, refl, ◌∙◌, ap, none, some, List, [], ◌∷◌, ◌++◌, length, pos}
use vr_admin.CString.{Bytes, codes, strncasecmp, format_lu, before_dot}
use vr_admin.VrSdk.{VrSdk, PropertyCalls, version_property, get_feature, feature_or_zero}
use vr_admin.XmlDatabase.{XmlDatabase, empty_database, get_sdk, index_of_type, parser}
use vr_admin.XmlDatabase.Libxml.{Xml}
use vr_admin.XmlDatabase.Parser.{IsInfo, items, first_item, parser_new_type}
use vr_admin.ClientConnector.Protocol.{
  classify, reply_to, version_reply, feature_reply, text_reply, feature_of, version_of,
}
use vr_admin.ServerListener.{ServerListener, new_listener, then_parse, unstarted}

-- A request for a feature asks for what stands behind its first 12 bytes.
classify_lvr_feature :
    (v : Bytes) → classify (codes "lvr_feature:" ++ v) ≡ feature_of (codes "lvr") v
unfolding classify strncasecmp
classify_lvr_feature v = refl

classify_svr_feature :
    (v : Bytes) → classify (codes "svr_feature:" ++ v) ≡ feature_of (codes "svr") v
unfolding classify strncasecmp
classify_svr_feature v = refl

module _ (xml : Xml) where
  open xml use {Node}

  -- What `parser` makes of such a file for a database that lacks its type.
  abbrev Adds : Bytes → Bytes → List Node → XmlDatabase → PropertyCalls → ℕ → Bytes → Type 0
  Adds type version nodes db calls fuel path =
      (sdk : VrSdk) × (parser xml fuel (some path) db calls
        ≡ some (
          pos 0,
          record { sdks = db.sdks ++ (sdk ∷ []) },
          calls ++ ((version_property type, version) ∷ []),
        ))
      × (sdk.type ≡ type)
      × (sdk.version ≡ version)
      × ((w : Bytes)
          → get_feature (some w) sdk
            ≡ feature_or_zero (first_item (before_dot w) (items xml nodes)))

  info-Adds :
      (path type version : Bytes) (nodes : List Node) (db : XmlDatabase) (calls : PropertyCalls)
      (fuel : ℕ)
      → IsInfo xml path type version nodes
      → index_of_type type db.sdks ≡ none
      → length nodes < fuel
      → Adds type version nodes db calls fuel path
  info-Adds path type version nodes db calls fuel i absent enough =
      parser_new_type xml path i.doc i.top type version nodes i.reads i.roots i.named i.versioned
        i.chain fuel db calls absent enough

  lacks_lvr : (sdk : VrSdk) → sdk.type ≡ codes "SVR" → index_of_type (codes "LVR") (sdk ∷ []) ≡ none
  unfolding index_of_type
  lacks_lvr sdk e = rw e

  found_lvr :
      (svr lvr : VrSdk)
      → svr.type ≡ codes "SVR"
      → lvr.type ≡ codes "LVR"
      → get_sdk (codes "lvr") (record { sdks = svr ∷ lvr ∷ [] }) ≡ some lvr
  unfolding get_sdk
  found_lvr svr lvr s l = rw (s, l)

  found_svr :
      (svr lvr : VrSdk)
      → svr.type ≡ codes "SVR"
      → get_sdk (codes "svr") (record { sdks = svr ∷ lvr ∷ [] }) ≡ some svr
  unfolding get_sdk
  found_svr svr lvr s = rw s

  module _ (svr_version lvr_version : Bytes) (svr_nodes lvr_nodes : List Node)
      (svr_info : IsInfo xml
        (codes "/system/vendor/etc/svrinfo.xml")
        (codes "SVR")
        svr_version
        svr_nodes)
      (lvr_info : IsInfo xml
        (codes "/system/vendor/etc/lvrinfo.xml")
        (codes "LVR")
        lvr_version
        lvr_nodes)
      (fuel : ℕ) (svr_enough : length svr_nodes < fuel) (lvr_enough : length lvr_nodes < fuel) where
    -- What clients are told after the two information files were read.
    pub record Tells (db : XmlDatabase) : Type 0 where
      pub svr_told : reply_to db (version_of (codes "svr")) ≡ text_reply svr_version
      pub lvr_told : reply_to db (version_of (codes "lvr")) ≡ text_reply lvr_version
      pub svr_features :
          (v : Bytes)
          → reply_to db (classify (codes "svr_feature:" ++ v))
            ≡ format_lu (feature_or_zero (first_item (before_dot v) (items xml svr_nodes)))
      pub lvr_features :
          (v : Bytes)
          → reply_to db (classify (codes "lvr_feature:" ++ v))
            ≡ format_lu (feature_or_zero (first_item (before_dot v) (items xml lvr_nodes)))

    told :
        (svr lvr : VrSdk)
        → svr.type ≡ codes "SVR"
        → lvr.type ≡ codes "LVR"
        → svr.version ≡ svr_version
        → lvr.version ≡ lvr_version
        → ((w : Bytes)
            → get_feature (some w) svr
              ≡ feature_or_zero (first_item (before_dot w) (items xml svr_nodes)))
        → ((w : Bytes)
            → get_feature (some w) lvr
              ≡ feature_or_zero (first_item (before_dot w) (items xml lvr_nodes)))
        → Tells (record { sdks = svr ∷ lvr ∷ [] })
    unfolding reply_to version_reply feature_reply
    told svr lvr s l sv lv fs fl = record {
      svr_told = rw (found_svr svr lvr s) (ap text_reply sv);
      lvr_told = rw (found_lvr svr lvr s l) (ap text_reply lv);
      svr_features = λ v. rw (classify_svr_feature v, found_svr svr lvr s) (ap format_lu (fs v));
      lvr_features = λ v. rw (classify_lvr_feature v, found_lvr svr lvr s l) (ap format_lu (fl v));
    }

    -- If the two information files can be read, with the roots `SVR` and `LVR` and a version in each,
    -- then with more fuel than each has nodes the constructor returns, and the two version properties
    -- were set, in order. A client that asks for the version of an SDK is told it, cut at 64 bytes, or
    -- -2 if it is empty. One that asks for the feature of a version is told the one that the first item
    -- of the file with exactly the text before the first dot of this version states, and 0 if there is
    -- none.
    pub new_listener-Tells :
        (calls : PropertyCalls)
        → (l : ServerListener) × (new_listener xml fuel calls
            ≡ some (
              l,
              (calls ++ ((version_property (codes "SVR"), svr_version) ∷ []))
                  ++ ((version_property (codes "LVR"), lvr_version) ∷ []),
            ))
          × Tells l.xml_data
    unfolding new_listener
    new_listener-Tells calls =
        let (svr, e, s, sv, fs) =
          info-Adds _ (codes "SVR") svr_version svr_nodes empty_database calls fuel svr_info
            (unfold index_of_type in refl) svr_enough in
        let (lvr, e', l, lv, fl) =
          info-Adds _ (codes "LVR") lvr_version lvr_nodes (record { sdks = svr ∷ [] }) _ fuel
            lvr_info (lacks_lvr svr s) lvr_enough in
        (
          _,
          ap unstarted (ap (then_parse xml fuel (codes "/system/vendor/etc/lvrinfo.xml")) e ∙ e'),
          told svr lvr s l sv lv fs fl,
        )
