-- ===== src/Heap.antt =====
-- Objects on the heap, as the C++ parts of the program make, reach and delete them by pointers.
use vr_admin.Prelude.{
  ℕ, ◌≡◌, ◌≢◌, refl, sym, inl, inr, ◌==◌, ==_iff, ==_refl, Bool-cases, if◌then◌else◌, Option, none,
  some, List, [], ◌∷◌, ◌++◌, All, All-append, Exec, ok, undefined, ◌>>=◌, arith,
}

-- The live objects by their addresses.
abbrev pub Heap {ℓ} : Type ℓ → Type ℓ
Heap A = ℕ → Option A

abbrev pub write_cell {ℓ} : {A : Type ℓ} → Heap A → ℕ → Option A → Heap A
write_cell heap p cell q = if p == q then cell else heap q

abbrev pub live {ℓ} : {A : Type ℓ} → Option A → Exec A
live none = undefined
live (some x) = ok x

abbrev pub NotAt : ℕ → List ℕ → Type 0
NotAt p = All (λ q. p ≢ q)

pub NotAt-before : (q : ℕ) (ps : List ℕ) (p : ℕ) → NotAt q (ps ++ (p ∷ [])) → NotAt q ps × (q ≢ p)
NotAt-before q [] p (h, t) = (tt, h)
NotAt-before q (r ∷ ps) p (h, t) = let (a, b) = NotAt-before q ps p t in ((h, a), b)

module _ {A : Type 0} where
  -- Pointers to distinct live objects, with these values in this order.
  abbrev pub Points : Heap A → List ℕ → List A → Type 0
  Points heap [] [] = Unit {0}
  Points heap [] (x ∷ xs) = ⊥
  Points heap (p ∷ ps) [] = ⊥
  Points heap (p ∷ ps) (x ∷ xs) = (heap p ≡ some x) × NotAt p ps × Points heap ps xs

  -- They are all that live.
  pub record Owns (heap : Heap A) (ps : List ℕ) (xs : List A) : Type 0 where
    pub points : Points heap ps xs
    pub no_leak : (p : ℕ) → NotAt p ps → heap p ≡ none

  -- A write elsewhere is not seen.
  pub Points-write_cell :
      (heap : Heap A) (q : ℕ) (cell : Option A) (ps : List ℕ) (xs : List A)
      → NotAt q ps
      → Points heap ps xs
      → Points (write_cell heap q cell) ps xs
  Points-write_cell heap q cell [] [] n h = tt
  Points-write_cell heap q cell [] (x ∷ xs) n h = h
  Points-write_cell heap q cell (p ∷ ps) [] n h = h
  Points-write_cell heap q cell (p ∷ ps) (x ∷ xs) (ne, n) (e, m, h) =
      (ground arith, m, Points-write_cell heap q cell ps xs n h)

  Points-append :
      (heap : Heap A) (p : ℕ) (x : A) (ps : List ℕ) (xs : List A)
      → heap p ≡ some x
      → NotAt p ps
      → Points heap ps xs
      → Points heap (ps ++ (p ∷ [])) (xs ++ (x ∷ []))
  Points-append heap p x [] [] e n h = (e, tt, tt)
  Points-append heap p x [] (y ∷ xs) e n h = absurd h
  Points-append heap p x (q ∷ ps) [] e n h = absurd h
  Points-append heap p x (q ∷ ps) (y ∷ xs) e (ne, n) (eq, m, h) =
      (eq, All-append _ ps (p ∷ []) m ((λ s. ne (sym s)), tt), Points-append heap p x ps xs e n h)

  -- A free address is not that of an object of the list.
  NotAt-free :
      (heap : Heap A) (p : ℕ) (ps : List ℕ) (xs : List A)
      → heap p ≡ none
      → Points heap ps xs
      → NotAt p ps
  NotAt-free heap p [] xs e h = tt
  NotAt-free heap p (q ∷ ps) [] e h = absurd h
  NotAt-free heap p (q ∷ ps) (x ∷ xs) e (eq, m, h) = ((λ s. cc), NotAt-free heap p ps xs e h)

  -- A new object at the end of the list.
  pub push-Owns :
      (heap : Heap A) (address : ℕ) (x : A) (ps : List ℕ) (xs : List A)
      → heap address ≡ none
      → Owns heap ps xs
      → Owns (write_cell heap address (some x)) (ps ++ (address ∷ [])) (xs ++ (x ∷ []))
  push-Owns heap address x ps xs free owns = record {
    points =
        Points-append (write_cell heap address (some x)) address x ps xs (rw (==_refl address) refl)
          apart (Points-write_cell heap address (some x) ps xs apart owns.points);
    no_leak = λ p a.
        let (before, other) = NotAt-before p ps address a in
        elim (Bool-cases (address == p)) [
          | inl e ↦ absurd (other (sym ((==_iff address p).0 e)))
          | inr e ↦ rw e (owns.no_leak p before)
        ];
  }
    where
      apart : NotAt address ps
      apart = NotAt-free heap address ps xs free owns.points

  -- The objects of the list deleted one after another.
  unfoldable pub delete_all : List ℕ → Heap A → Exec (Heap A)
  delete_all [] heap = ok heap
  delete_all (p ∷ ps) heap =
      let rest = delete_all ps (write_cell heap p none) in (live (heap p) >>= λ x. rest)

  -- The first object of the list deleted.
  pub tail-Owns :
      (heap : Heap A) (p : ℕ) (x : A) (ps : List ℕ) (xs : List A)
      → Owns heap (p ∷ ps) (x ∷ xs)
      → Owns (write_cell heap p none) ps xs
  tail-Owns heap p x ps xs owns = record {
    points = Points-write_cell heap p none ps xs owns.points.1 owns.points.2;
    no_leak = λ q a. elim (Bool-cases (p == q)) [
      | inl e ↦ rw e refl
      | inr e ↦ rw e (owns.no_leak q ((λ s. ground (arith, ==_iff p q)), a))
    ];
  }

  -- All objects of a list that owns them are deleted, each once, and none is left.
  pub delete_all-Owns :
      (heap : Heap A) (ps : List ℕ) (xs : List A)
      → Owns heap ps xs
      → (heap' : Heap A) × (delete_all ps heap ≡ ok heap') × ((p : ℕ) → heap' p ≡ none)
  unfolding delete_all
  delete_all-Owns heap [] [] owns = (heap, refl, λ p. owns.no_leak p tt)
  delete_all-Owns heap [] (x ∷ xs) owns = absurd owns.points
  delete_all-Owns heap (p ∷ ps) [] owns = absurd owns.points
  delete_all-Owns heap (p ∷ ps) (x ∷ xs) owns =
      let (heap', run, empty) =
        delete_all-Owns (write_cell heap p none) ps xs (tail-Owns heap p x ps xs owns) in
      (heap', rw (owns.points.0, run) refl, empty)
