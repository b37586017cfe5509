-- ===== src/ServerListener/Connectors.antt =====
-- The list of connectors: its descriptors are distinct, and what is deleted is what quit.
use vr_admin.Prelude.{
  ◌≡◌, ◌≢◌, refl, ◌∙◌, ap, sym, inl, inr, Bool, true, false, not, ◌&&◌, Bool-cases, ltb_ℤ, eqb_ℤ,
  eqb_ℤ_iff, List, [], ◌∷◌, ◌++◌, All, All-append, keep, ℤ, pos, arith,
}
use vr_admin.ServerListener.{
  ServerListener, has_connector, add_connector, erase, del_connector, del_all,
}

abbrev Lacks : ℤ → List ℤ → Type 0
Lacks fd = All (λ x. fd ≢ x)

abbrev pub IsDistinct : List ℤ → Type 0
IsDistinct [] = Unit {0}
IsDistinct (fd ∷ fds) = Lacks fd fds × IsDistinct fds

-- The connectors have distinct and positive descriptors.
pub record IsValid (l : ServerListener) : Type 0 where
  pub distinct : IsDistinct l.connectors
  pub positive : All (λ fd. ltb_ℤ (pos 0) fd ≡ true) l.connectors

pub has_connector-false : (fd : ℤ) (fds : List ℤ) → has_connector fd fds ≡ false → Lacks fd fds
unfolding has_connector
has_connector-false fd [] h = tt
has_connector-false fd (x ∷ fds) h =
    (λ e. ground (arith, (eqb_ℤ_iff x fd).1 (sym e)), ground (arith, has_connector-false fd fds))

pub Lacks-has_connector : (fd : ℤ) (fds : List ℤ) → Lacks fd fds → has_connector fd fds ≡ false
unfolding has_connector
Lacks-has_connector fd [] h = refl
Lacks-has_connector fd (x ∷ fds) (ne, h) = elim (Bool-cases (eqb_ℤ x fd)) [
  | inl e ↦ absurd (ne (sym ((eqb_ℤ_iff x fd).0 e)))
  | inr e ↦ rw e (Lacks-has_connector fd fds h)
]

IsDistinct-append :
    (fds : List ℤ) (fd : ℤ) → IsDistinct fds → Lacks fd fds → IsDistinct (fds ++ (fd ∷ []))
IsDistinct-append [] fd d h = (tt, tt)
IsDistinct-append (x ∷ fds) fd (lx, d) (ne, h) =
    (All-append _ fds (fd ∷ []) lx ((λ e. ne (sym e)), tt), IsDistinct-append fds fd d h)

-- `addConnector` with a positive descriptor keeps the connectors valid, also when it refuses one.
pub add_connector-IsValid :
    (confd : ℤ) (l : ServerListener)
    → ltb_ℤ (pos 0) confd ≡ true
    → IsValid l
    → IsValid (add_connector confd l).0
unfolding add_connector
add_connector-IsValid confd l p v = elim (Bool-cases (has_connector confd l.connectors)) [
  | inl e ↦ rw e v
  | inr e ↦ rw e (record {
    distinct =
        IsDistinct-append l.connectors confd v.distinct (has_connector-false confd l.connectors e);
    positive = All-append _ l.connectors (confd ∷ []) v.positive (p, tt);
  })
]

pub All-erase : (P : ℤ → Type 0) (fd : ℤ) (fds : List ℤ) → All P fds → All P (erase fd fds)
unfolding erase
All-erase P fd [] h = tt
All-erase P fd (x ∷ fds) (hx, h) = ground (arith, All-erase P fd fds h)

erase-IsDistinct : (fd : ℤ) (fds : List ℤ) → IsDistinct fds → IsDistinct (erase fd fds)
unfolding erase
erase-IsDistinct fd [] d = tt
erase-IsDistinct fd (x ∷ fds) (lx, d) =
    ground (arith, erase-IsDistinct fd fds d, All-erase (λ y. x ≢ y) fd fds lx)

pub del_connector-IsValid :
    (confd : ℤ) (l : ServerListener) → IsValid l → IsValid (del_connector confd l).0
unfolding del_connector
del_connector-IsValid confd l v = record {
  distinct = erase-IsDistinct confd l.connectors v.distinct;
  positive = All-erase _ confd l.connectors v.positive;
}

pub del_all-IsValid : (fds : List ℤ) (l : ServerListener) → IsValid l → IsValid (del_all fds l)
unfolding del_all
del_all-IsValid [] l v = v
del_all-IsValid (fd ∷ fds) l v = del_all-IsValid fds _ (del_connector-IsValid fd l v)

eqb_ℤ_sym : (a b : ℤ) → eqb_ℤ a b ≡ eqb_ℤ b a
eqb_ℤ_sym a b = ground (arith)

erase_absent : (fd : ℤ) (fds : List ℤ) → Lacks fd fds → keep (λ x. not (eqb_ℤ x fd)) fds ≡ fds
erase_absent fd [] h = refl
erase_absent fd (x ∷ fds) (ne, h) = elim (Bool-cases (eqb_ℤ x fd)) [
  | inl e ↦ absurd (ne (sym ((eqb_ℤ_iff x fd).0 e)))
  | inr e ↦ rw e (ap (◌∷◌ x) (erase_absent fd fds h))
]

erase-keep :
    (fd : ℤ) (fds : List ℤ) → IsDistinct fds → erase fd fds ≡ keep (λ x. not (eqb_ℤ x fd)) fds
unfolding erase
erase-keep fd [] d = refl
erase-keep fd (x ∷ fds) (lx, d) = elim (Bool-cases (eqb_ℤ x fd)) [
  | inl e ↦ rw e (sym (erase_absent fd fds (rw ((eqb_ℤ_iff x fd).0 e) at lx)))
  | inr e ↦ rw e (ap (◌∷◌ x) (erase-keep fd fds d))
]

pub keep-keep : (p q : ℤ → Bool) (fds : List ℤ) → keep p (keep q fds) ≡ keep (λ x. q x && p x) fds
keep-keep p q [] = refl
keep-keep p q (x ∷ fds) = ground (arith, keep-keep p q fds)

pub keep_all : (fds : List ℤ) → keep (λ x. true) fds ≡ fds
keep_all [] = refl
keep_all (x ∷ fds) = ap (◌∷◌ x) (keep_all fds)

pub keep_congr :
    (p q : ℤ → Bool) (fds : List ℤ) → All (λ x. p x ≡ q x) fds → keep p fds ≡ keep q fds
keep_congr p q [] h = refl
keep_congr p q (x ∷ fds) (e, h) = ground (arith, keep_congr p q fds h)

everywhere : (P : ℤ → Type 0) (fds : List ℤ) → ((x : ℤ) → P x) → All P fds
everywhere P [] h = tt
everywhere P (x ∷ fds) h = (h x, everywhere P fds h)

keep_drop :
    (fd : ℤ) (quits : List ℤ) (fds : List ℤ)
    → keep (λ x. not (eqb_ℤ x fd) && not (has_connector x quits)) fds
      ≡ keep (λ x. not (has_connector x (fd ∷ quits))) fds
unfolding has_connector
keep_drop fd quits fds = keep_congr _ _ fds (everywhere _ fds (λ x. ground (arith, eqb_ℤ_sym x fd)))

-- Deleting the connectors of a list leaves the others, in their order.
pub del_all-keep :
    (quits : List ℤ) (l : ServerListener)
    → IsDistinct l.connectors
    → del_all quits l
      ≡ record l { connectors = keep (λ x. not (has_connector x quits)) l.connectors }
unfolding del_all has_connector
del_all-keep [] l d = λ i. record l { connectors = sym (keep_all l.connectors) i }
del_all-keep (fd ∷ quits) l d =
    del_all-keep quits (del_connector fd l).0
      (unfold del_connector in erase-IsDistinct fd l.connectors d)
    ∙ λ i. record l { connectors = left_over i }
  where
    left_over :
        keep (λ x. not (has_connector x quits)) (erase fd l.connectors)
        ≡ keep (λ x. not (has_connector x (fd ∷ quits))) l.connectors
    left_over =
        ap (keep (λ x. not (has_connector x quits))) (erase-keep fd l.connectors d)
        ∙ keep-keep _ _ l.connectors
        ∙ keep_drop fd quits l.connectors
