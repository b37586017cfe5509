-- ===== src/XmlDatabase/TypeList.antt =====
-- `getAllSDKTypes`: the types, joined and cut again.
use vr_admin.Prelude.{
  ◌≡◌, ◌∙◌, ◌≢◌, ap, ◌==◌, if◌then◌else◌, List, [], ◌∷◌, ◌++◌, append_assoc, append-nil, map, All,
  arith,
}
use vr_admin.CString.{Bytes}
use vr_admin.VrSdk.{VrSdk}
use vr_admin.XmlDatabase.{append_types, get_all_sdk_types}

-- The parts of a text between carets.
split_caret : Bytes → Bytes → List Bytes
split_caret part [] = part ∷ []
split_caret part (c ∷ s) =
    let next = split_caret [] s in
    let more = split_caret (part ++ (c ∷ [])) s in if c == b'^' then part ∷ next else more

pub split : Bytes → List Bytes
unfolding split_caret
split = split_caret []

abbrev pub LacksCaret : Bytes → Type 0
LacksCaret = All (λ c. c ≢ b'^')

split_caret-append :
    (part type rest : Bytes)
    → LacksCaret type
    → split_caret part (type ++ rest) ≡ split_caret (part ++ type) rest
unfolding split_caret
split_caret-append part [] rest h = rw append-nil
split_caret-append part (c ∷ type) rest (hc, h) =
    ground
      (arith, split_caret-append (part ++ (c ∷ [])) type rest h, append_assoc part (c ∷ []) type)

split-append_types :
    (part type : Bytes) (sdks : List VrSdk)
    → LacksCaret type
    → All (λ sdk. LacksCaret sdk.type) sdks
    → split_caret part (type ++ append_types sdks) ≡ (part ++ type) ∷ map (λ sdk. sdk.type) sdks
unfolding split_caret append_types
split-append_types part type [] h hs = split_caret-append part type [] h
split-append_types part type (sdk ∷ sdks) h (hx, hs) =
    split_caret-append part type (append_types (sdk ∷ sdks)) h
    ∙ ap (◌∷◌ (part ++ type)) (split-append_types [] sdk.type sdks hx hs)

-- Cutting the reply of `getAllSDKTypes` at the carets gives the types of a database that is not
-- empty, in their order, if no type has a caret in it.
pub split-get_all_sdk_types :
    (sdk : VrSdk) (sdks : List VrSdk)
    → All (λ x. LacksCaret x.type) (sdk ∷ sdks)
    → split (get_all_sdk_types (record { sdks = sdk ∷ sdks })) ≡ map (λ x. x.type) (sdk ∷ sdks)
unfolding split get_all_sdk_types
split-get_all_sdk_types sdk sdks (h, hs) = split-append_types [] sdk.type sdks h hs
