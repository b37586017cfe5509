-- ===== src/AdminService/Concurrent/DownLoads.antt =====
-- Calls of `startDownLoad` of VRAdminService.java at the same time: `bRunning` is read and then set,
-- without a lock.
use vr_admin.Prelude.{
  ℕ, ◌==◌, ==_iff, ◌≡◌, ◌≢◌, refl, ◌∙◌, sym, inl, inr, Bool, true, false, Bool-cases, if◌then◌else◌,
  arith,
}

-- Before the test of `bRunning`, behind it, behind the setting, and the two returns.
pub data DownLoadPoint : Type 0 where
  arrived : DownLoadPoint
  passed : DownLoadPoint
  loading : DownLoadPoint
  refused : DownLoadPoint
  returned : DownLoadPoint

-- The steps of one call, with `bRunning` before and behind each.
pub data DownLoadStep : DownLoadPoint → Bool → DownLoadPoint → Bool → Type 0 where
  refuse : DownLoadStep arrived true refused true
  pass : DownLoadStep arrived false passed false
  set : {b : Bool} → DownLoadStep passed b loading true
  finish : {b : Bool} → DownLoadStep loading b returned false

pub record DownLoads : Type 0 where
  pub points : ℕ → DownLoadPoint
  pub running : Bool

abbrev pub loaded : ℕ → DownLoadPoint → Bool → DownLoads → DownLoads
loaded n p b d = record { points = λ m. if n == m then p else d.points m; running = b }

-- All interleavings.
pub data DownLoadRun (d : DownLoads) : DownLoads → Type 0 where
  start : DownLoadRun d d
  further :
      {e : DownLoads} {p : DownLoadPoint} {b : Bool}
      → DownLoadRun d e
      → (n : ℕ) → DownLoadStep (e.points n) e.running p b
      → DownLoadRun d (loaded n p b e)

-- No other call has passed the test and not set `bRunning` yet.
abbrev pub Undisturbed : ℕ → DownLoads → Type 0
Undisturbed n d = (m : ℕ) → n ≢ m → d.points m ≢ passed

-- The runs in which no call steps between the test and the setting of another.
pub data UndisturbedRun (d : DownLoads) : DownLoads → Type 0 where
  stay : UndisturbedRun d d
  after :
      {e : DownLoads} {p : DownLoadPoint} {b : Bool}
      → UndisturbedRun d e
      → (n : ℕ) → Undisturbed n e
      → DownLoadStep (e.points n) e.running p b
      → UndisturbedRun d (loaded n p b e)

-- What `bRunning` is at each point of a call.
abbrev IsTold : DownLoadPoint → Bool → Type 0
IsTold arrived b = Unit {0}
IsTold passed b = b ≡ false
IsTold loading b = b ≡ true
IsTold refused b = Unit {0}
IsTold returned b = Unit {0}

record IsExclusive (d : DownLoads) : Type 0 where
  told : (n : ℕ) → IsTold (d.points n) d.running
  single : (n m : ℕ) → d.points n ≡ loading → d.points m ≡ loading → n ≡ m

-- A step of another call, when this one is not between the test and the setting.
DownLoadStep-IsTold :
    (q : DownLoadPoint) {p p' : DownLoadPoint} {b b' : Bool}
    → DownLoadStep p b p' b'
    → q ≢ passed
    → (q ≡ loading → p ≢ loading)
    → IsTold p b
    → IsTold q b
    → IsTold q b'
DownLoadStep-IsTold arrived st np single t told = tt
DownLoadStep-IsTold passed st np single t told = absurd (np refl)
DownLoadStep-IsTold loading refuse np single t told = refl
DownLoadStep-IsTold loading pass np single t told = told
DownLoadStep-IsTold loading set np single t told = refl
DownLoadStep-IsTold loading finish np single t told = absurd (single refl refl)
DownLoadStep-IsTold refused st np single t told = tt
DownLoadStep-IsTold returned st np single t told = tt

DownLoadStep-own :
    {p p' : DownLoadPoint} {b b' : Bool} → DownLoadStep p b p' b' → IsTold p b → IsTold p' b'
DownLoadStep-own refuse t = tt
DownLoadStep-own pass t = refl
DownLoadStep-own set t = refl
DownLoadStep-own finish t = tt

-- A call that comes to its download had passed the test, when nothing was running.
DownLoadStep-loading :
    {p p' : DownLoadPoint} {b b' : Bool}
    → DownLoadStep p b p' b'
    → p' ≡ loading
    → IsTold p b
    → b ≡ false
DownLoadStep-loading refuse e t = absurd (grind arith)
DownLoadStep-loading pass e t = refl
DownLoadStep-loading set e t = t
DownLoadStep-loading finish e t = absurd (grind arith)

loaded-IsExclusive :
    (n : ℕ) (d : DownLoads) {p : DownLoadPoint} {b : Bool}
    → Undisturbed n d
    → DownLoadStep (d.points n) d.running p b
    → IsExclusive d
    → IsExclusive (loaded n p b d)
loaded-IsExclusive n d {p} {b} alone st x = record {
  told = λ m. elim (Bool-cases (n == m)) [
    | inl e ↦ rw e (DownLoadStep-own st (x.told n))
    | inr e ↦ rw e (
        DownLoadStep-IsTold (d.points m) st (alone m (other m e))
          (λ at_m at_n. other m e (x.single n m at_n at_m)) (x.told n) (x.told m))
  ];
  single = λ m k at_m at_k. elim (Bool-cases (n == m)) [
    | inl e ↦ elim (Bool-cases (n == k)) [
      | inl f ↦ sym ((==_iff n m).0 e) ∙ (==_iff n k).0 f
      | inr f ↦ absurd (clash k (rw e at at_m) (rw f at at_k))
    ]
    | inr e ↦ elim (Bool-cases (n == k)) [
      | inl f ↦ absurd (clash m (rw f at at_k) (rw e at at_m))
      | inr f ↦ x.single m k (rw e at at_m) (rw f at at_k)
    ]
  ];
}
  where
    other : (m : ℕ) → (n == m) ≡ false → n ≢ m
    other m e = λ same. ground (arith, ==_iff n m)

    clash : (k : ℕ) → p ≡ loading → d.points k ≡ loading → ⊥
    clash k at_n at_k =
        let unset = DownLoadStep-loading st at_n (x.told n) in
        let set = (rw at_k at (x.told k)) in grind arith

UndisturbedRun-IsExclusive : {d e : DownLoads} → UndisturbedRun d e → IsExclusive d → IsExclusive e
UndisturbedRun-IsExclusive stay x = x
UndisturbedRun-IsExclusive (after {e = e} r n alone st) x =
    loaded-IsExclusive n e alone st (UndisturbedRun-IsExclusive r x)

-- Any number of calls of `startDownLoad`, of which none has begun, while nothing runs.
abbrev pub all_arrived : DownLoads
all_arrived = record { points = λ n. arrived; running = false }

-- Any number of calls of `startDownLoad`, while no download runs: in every interleaving in which no
-- call steps between the test of `bRunning` and the setting by another, at most one download runs at
-- a time, and `bRunning` is set while it does.
pub UndisturbedRun-exclusive :
    (n m : ℕ) {d : DownLoads}
    → UndisturbedRun all_arrived d
    → d.points n ≡ loading
    → d.points m ≡ loading
    → (n ≡ m) × (d.running ≡ true)
UndisturbedRun-exclusive n m {d} run at_n at_m =
    let x =
      UndisturbedRun-IsExclusive run
        (record { told = λ k. tt; single = λ k l e f. absurd (grind arith) }) in
    (x.single n m at_n at_m, (rw at_n at (x.told n)))
