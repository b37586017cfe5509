-- ===== src/AdminService/Callbacks.antt =====
-- The callbacks of VRAdminService.java, which are told the progress of a download.
use vr_admin.Prelude.{
  ℕ, zero, suc, ◌<◌, ◌≡◌, refl, ◌∙◌, ap, sym, ◌==◌, ==_iff, ==_refl, Bool, true, false, Bool-cases,
  inl, inr, if◌then◌else◌, Option, none, some, List, [], ◌∷◌, ◌++◌, list_laws, append-nil, All,
  length, ℤ, pos, minus_one, ◌≤ℤ◌,
}
use vr_admin.AdminService.{contains, remove}
use vr_admin.AdminService.Monitors.{Distinct}
use vr_admin.DfuUtil.{talk_with_socket}
use vr_admin.DfuUtil.Progress.{
  size_bytes, all_size_bytes, last_or, percents, InRange, talk_with_socket-Tells,
}

-- `registerCallback` and `unregisterCallback`, over the list of the framework, which takes none twice.
unfoldable pub register_callback : Option ℕ → List ℕ → List ℕ
register_callback none cbs = cbs
register_callback (some cb) cbs = if contains cb cbs then cbs else cbs ++ (cb ∷ [])

unfoldable pub unregister_callback : Option ℕ → List ℕ → List ℕ
unregister_callback none cbs = cbs
unregister_callback (some cb) cbs = remove cb cbs

-- `getBroadcastItem`.
abbrev get_broadcast_item : List ℕ → ℕ → ℕ
get_broadcast_item [] i = 0
get_broadcast_item (cb ∷ cbs) zero = cb
get_broadcast_item (cb ∷ cbs) (suc i) = get_broadcast_item cbs i

-- What a callback was told; those that cannot be reached throw a RemoteException, which is ignored.
abbrev pub Calls : Type 0
Calls = List (ℕ × ℤ)

module _ (reached : ℕ → Bool) where
  abbrev on_upgrading_update : ℕ → ℤ → Calls
  on_upgrading_update cb percent = if reached cb then (cb, percent) ∷ [] else []

  -- The loop, from this index down.
  unfoldable pub broadcast_below : (ℕ → ℕ) → ℤ → ℕ → Calls
  broadcast_below item percent zero = []
  broadcast_below item percent (suc i) =
      on_upgrading_update (item i) percent ++ broadcast_below item percent i

  -- `broadcastFlashProgress`, where `beginBroadcast` gives the number of the callbacks.
  unfoldable pub broadcast_flash_progress : List ℕ → ℤ → Calls
  broadcast_flash_progress cbs percent =
      broadcast_below (get_broadcast_item cbs) percent (length cbs)

  unfoldable pub broadcast_all : List ℕ → List ℤ → Calls
  broadcast_all cbs [] = []
  broadcast_all cbs (p ∷ ps) = broadcast_flash_progress cbs p ++ broadcast_all cbs ps

-- What one callback was told, in order.
unfoldable pub told_to : ℕ → Calls → List ℤ
told_to cb [] = []
told_to cb ((x, p) ∷ calls) = let rest = told_to cb calls in if x == cb then p ∷ rest else rest

told_to-append : (cb : ℕ) (xs ys : Calls) → told_to cb (xs ++ ys) ≡ told_to cb xs ++ told_to cb ys
unfolding told_to
told_to-append cb [] ys = refl
told_to-append cb ((x, p) ∷ xs) ys = elim (Bool-cases (x == cb)) [
  | inl e ↦ rw (e, told_to-append cb xs ys) refl
  | inr e ↦ rw (e, told_to-append cb xs ys) refl
]

ruleset told_laws = (list_laws, told_to-append)

module _ (reached : ℕ → Bool) (cb : ℕ) where
  told_below_first :
      (item : ℕ → ℕ) (p : ℤ) (n : ℕ)
      → told_to cb (broadcast_below reached item p (suc n))
        ≡ told_to cb (broadcast_below reached (λ i. item (suc i)) p n)
          ++ told_to cb (on_upgrading_update reached (item 0) p)
  unfolding broadcast_below
  told_below_first item p zero = unfold told_to in rw append-nil refl
  told_below_first item p (suc n) = simp told_laws (
      ap (λ t. told_to cb (on_upgrading_update reached (item (suc n)) p) ++ t)
        (sym (
            told_to-append cb (on_upgrading_update reached (item n) p)
              (broadcast_below reached item p n))
          ∙ told_below_first item p n))

  told_one :
      (x : ℕ) (p : ℤ)
      → x ≡ cb
      → reached cb ≡ true
      → told_to cb (on_upgrading_update reached x p) ≡ p ∷ []
  unfolding told_to
  told_one x p e r = rw (e, r, ==_refl cb) refl

  told_other :
      (x : ℕ) (p : ℤ) → (x == cb) ≡ false → told_to cb (on_upgrading_update reached x p) ≡ []
  unfolding told_to
  told_other x p e = elim (Bool-cases (reached x)) [ inl r ↦ rw (r, e) refl | inr r ↦ rw r refl ]

  told_absent :
      (cbs : List ℕ) (p : ℤ)
      → contains cb cbs ≡ false
      → told_to cb (broadcast_flash_progress reached cbs p) ≡ []
  unfolding broadcast_flash_progress contains
  told_absent [] p h = unfold broadcast_below told_to in refl
  told_absent (x ∷ cbs) p h = elim (Bool-cases (x == cb)) [
    | inl e ↦ cc
    | inr e ↦
        told_below_first (get_broadcast_item (x ∷ cbs)) p (length cbs)
        ∙ rw (told_absent cbs p (rw e at h), told_other x p e) refl
  ]

  told_once :
      (cbs : List ℕ) (p : ℤ)
      → Distinct cbs
      → contains cb cbs ≡ true
      → reached cb ≡ true
      → told_to cb (broadcast_flash_progress reached cbs p) ≡ p ∷ []
  unfolding broadcast_flash_progress contains
  told_once [] p d h r = cc
  told_once (x ∷ cbs) p (new, d) h r = elim (Bool-cases (x == cb)) [
    | inl e ↦
        let same : x ≡ cb = (==_iff x cb).0 e in
        told_below_first (get_broadcast_item (x ∷ cbs)) p (length cbs)
        ∙ rw (told_absent cbs p (rw (← same) new), told_one x p same r) refl
    | inr e ↦
        told_below_first (get_broadcast_item (x ∷ cbs)) p (length cbs)
        ∙ rw (told_once cbs p d (rw e at h) r, told_other x p e) refl
  ]

  told_all :
      (cbs : List ℕ) (ps : List ℤ)
      → Distinct cbs
      → contains cb cbs ≡ true
      → reached cb ≡ true
      → told_to cb (broadcast_all reached cbs ps) ≡ ps
  unfolding broadcast_all
  told_all cbs [] d h r = unfold told_to in refl
  told_all cbs (p ∷ ps) d h r = simp (told_laws, told_once cbs p d h r, told_all cbs ps d h r)

  -- If the tool sends a total that is an int and not 0, and then sizes that are at most the total and
  -- whose hundredfolds are ints, four bytes each, then each callback that is registered and can be
  -- reached is told, whatever becomes of the others, 0, then for each size its share of the total in
  -- percent, rounded down and at most 100, and at last -1 if the last size is not the total, each once
  -- and in this order; the thread throws nothing.
  pub broadcast_progress :
      (cbs : List ℕ) (total : ℕ) (ws : List ℕ)
      → Distinct cbs
      → contains cb cbs ≡ true
      → reached cb ≡ true
      → 0 < total
      → total < 2147483648
      → All (InRange total) ws
      → (told_to cb (
            broadcast_all reached cbs
              (talk_with_socket (size_bytes total ∷ all_size_bytes ws)).broadcasts)
          ≡ pos 0 ∷ (percents total ws ++ (if total == last_or 0 ws then [] else minus_one ∷ [])))
        × All (λ p. p ≤ℤ pos 100) (percents total ws)
        × ((talk_with_socket (size_bytes total ∷ all_size_bytes ws)).threw ≡ false)
  broadcast_progress cbs total ws d h r positive small in_range =
      let t = talk_with_socket-Tells total ws positive small in_range in
      (told_all cbs _ d h r ∙ t.told, t.at_most, t.ended)
