-- ===== src/XmlDatabase/Objects/Pointers.antt =====
-- The pointers of `mData`: the search finds the pointer at the place that the list has, and a call
-- through a pointer changes the SDK at its place.
use vr_admin.Prelude.{
  ℕ, zero, suc, ◌≡◌, ◌≢◌, refl, ◌∙◌, sym, ap, inl, inr, ==_refl, Bool-cases, Option-cases, Option,
  none, some, List, [], ◌∷◌, ◌++◌, length, Exec, ok, arith,
}
use vr_admin.CString.{Bytes, strcmp, strcasecmp}
use vr_admin.Heap.{Heap, write_cell, NotAt, Points, Points-write_cell}
use vr_admin.VrSdk.{VrSdk}
use vr_admin.XmlDatabase.{index_of_type, update_at, append_types, join_types, first_of_type}
use vr_admin.XmlDatabase.Objects.{find_type, find_sdk, append_object_types, all_object_types}

-- The pointer at this place.
abbrev pub IsAt : ℕ → ℕ → List ℕ → Type 0
IsAt p i [] = ⊥
IsAt p zero (q ∷ ps) = q ≡ p
IsAt p (suc i) (q ∷ ps) = IsAt p i ps

pub NotAt-IsAt : (q p i : ℕ) (ps : List ℕ) → NotAt q ps → IsAt p i ps → q ≢ p
NotAt-IsAt q p i [] n at = absurd at
NotAt-IsAt q p zero (r ∷ ps) (ne, n) at = λ e. ne (e ∙ sym at)
NotAt-IsAt q p (suc i) (r ∷ ps) (ne, n) at = NotAt-IsAt q p i ps n at

pub IsAt-last :
    (heap : Heap VrSdk) (p : ℕ) (ps : List ℕ) (sdks : List VrSdk)
    → Points heap ps sdks
    → IsAt p (length sdks) (ps ++ (p ∷ []))
IsAt-last heap p [] [] h = refl
IsAt-last heap p [] (sdk ∷ sdks) h = absurd h
IsAt-last heap p (q ∷ ps) [] h = absurd h
IsAt-last heap p (q ∷ ps) (sdk ∷ sdks) (e, n, h) = IsAt-last heap p ps sdks h

-- A null result, or the pointer at the place.
abbrev pub FindsAt : List ℕ → Option ℕ → Exec (Option ℕ) → Type 0
FindsAt ps none run = run ≡ ok none
FindsAt ps (some i) run = (p : ℕ) × (run ≡ ok (some p)) × IsAt p i ps

pub find_type_lem :
    (type : Bytes) (heap : Heap VrSdk) (ps : List ℕ) (sdks : List VrSdk)
    → Points heap ps sdks
    → FindsAt ps (index_of_type type sdks) (find_type type heap ps)
unfolding find_type index_of_type
find_type_lem type heap [] [] h = refl
find_type_lem type heap [] (sdk ∷ sdks) h = absurd h
find_type_lem type heap (p ∷ ps) [] h = absurd h
find_type_lem type heap (p ∷ ps) (sdk ∷ sdks) (e, n, h) = elim (Bool-cases (strcmp type sdk.type)) [
  | inl s ↦ rw (e, s) (p, refl, refl)
  | inr s ↦
      let later = find_type_lem type heap ps sdks h in
      elim (Option-cases (index_of_type type sdks)) [
        | inl f ↦ rw (e, s, f) (rw f at later)
        | inr (i, f) ↦ rw (e, s, f) (rw f at later)
      ]
]

-- A call through the pointer at a place.
pub Points-update_at :
    (g : VrSdk → VrSdk) (heap : Heap VrSdk) (p i : ℕ) (ps : List ℕ) (sdks : List VrSdk)
    → IsAt p i ps
    → Points heap ps sdks
    → (sdk : VrSdk) × (heap p ≡ some sdk)
      × Points (write_cell heap p (some (g sdk))) ps (update_at i g sdks)
unfolding update_at
Points-update_at g heap p i [] sdks at h = absurd at
Points-update_at g heap p i (q ∷ ps) [] at h = absurd h
Points-update_at g heap p zero (q ∷ ps) (sdk ∷ sdks) at (e, n, h) = (
  sdk,
  rw (← at) e,
  (rw (← at, ==_refl q) refl, n, Points-write_cell heap p (some (g sdk)) ps sdks (rw (← at) n) h),
)
Points-update_at g heap p (suc i) (q ∷ ps) (sdk ∷ sdks) at (e, n, h) =
    let (found, at_p, points) = Points-update_at g heap p i ps sdks at h in
    (found, at_p, (ground (arith, NotAt-IsAt q p i ps n at), n, points))

pub update_at_same :
    (g : VrSdk → VrSdk) (i : ℕ) (sdks : List VrSdk)
    → ((sdk : VrSdk) → g sdk ≡ sdk)
    → update_at i g sdks ≡ sdks
unfolding update_at
update_at_same g i [] same = refl
update_at_same g zero (sdk ∷ sdks) same = ap (λ x. x ∷ sdks) (same sdk)
update_at_same g (suc i) (sdk ∷ sdks) same = ap (◌∷◌ sdk) (update_at_same g i sdks same)

pub append_object_types_lem :
    (heap : Heap VrSdk) (ps : List ℕ) (sdks : List VrSdk)
    → Points heap ps sdks
    → append_object_types heap ps ≡ ok (append_types sdks)
unfolding append_object_types append_types
append_object_types_lem heap [] [] h = refl
append_object_types_lem heap [] (sdk ∷ sdks) h = absurd h
append_object_types_lem heap (p ∷ ps) [] h = absurd h
append_object_types_lem heap (p ∷ ps) (sdk ∷ sdks) (e, n, h) =
    rw (e, append_object_types_lem heap ps sdks h) refl

pub all_object_types_lem :
    (heap : Heap VrSdk) (ps : List ℕ) (sdks : List VrSdk)
    → Points heap ps sdks
    → all_object_types heap ps ≡ ok (join_types sdks)
unfolding all_object_types join_types
all_object_types_lem heap [] [] h = refl
all_object_types_lem heap [] (sdk ∷ sdks) h = absurd h
all_object_types_lem heap (p ∷ ps) [] h = absurd h
all_object_types_lem heap (p ∷ ps) (sdk ∷ sdks) (e, n, h) =
    rw (e, append_object_types_lem heap ps sdks h) refl

-- A null result, or a pointer to this SDK.
abbrev pub PointsTo : Heap VrSdk → Option VrSdk → Exec (Option ℕ) → Type 0
PointsTo heap none run = run ≡ ok none
PointsTo heap (some sdk) run = (p : ℕ) × (run ≡ ok (some p)) × (heap p ≡ some sdk)

pub find_sdk_lem :
    (type : Bytes) (heap : Heap VrSdk) (ps : List ℕ) (sdks : List VrSdk)
    → Points heap ps sdks
    → PointsTo heap (first_of_type type sdks) (find_sdk type heap ps)
unfolding find_sdk first_of_type
find_sdk_lem type heap [] [] h = refl
find_sdk_lem type heap [] (sdk ∷ sdks) h = absurd h
find_sdk_lem type heap (p ∷ ps) [] h = absurd h
find_sdk_lem type heap (p ∷ ps) (sdk ∷ sdks) (e, n, h) =
    elim (Bool-cases (strcasecmp type sdk.type)) [
      | inl s ↦ rw (e, s) (p, refl, e)
      | inr s ↦ rw (e, s) (find_sdk_lem type heap ps sdks h)
    ]
