-- ===== src/AdminService/Concurrent.antt =====
-- Calls of the binder object of VRAdminService.java and deaths of its monitors at the same time: each
-- comes on a thread of its own. `registerMonitor` runs under the lock of the object, and
-- `binderDied` and `startDownLoad` under none.
pub mod Registrations
pub mod LostDeath
pub mod DownLoads
use vr_admin.Prelude.{
  ℕ, suc, ◌==◌, ◌≡◌, ◌≢◌, Bool, true, false, if◌then◌else◌, eqb_ℤ, Option, none, some, List, [],
  ◌∷◌, ◌++◌, ℤ, pos,
}
use vr_admin.AdminService.{contains, remove, increment, decrement}

-- Where a thread is in `registerMonitor`, which holds the value of `mClientCount` that it read, and
-- in `binderDied`.
pub data CallPoint : Type 0 where
  registering : Option ℕ → CallPoint
  checking : ℕ → CallPoint
  counting : ℕ → ℤ → CallPoint
  counted : ℕ → CallPoint
  linking : ℕ → CallPoint
  dying : ℕ → CallPoint
  unlisted : CallPoint
  discounting : ℤ → CallPoint
  discounted : CallPoint
  restoring : CallPoint
  finished : CallPoint

-- What the threads share: who holds the lock of the object, the account of the monitors, and how
-- often the settings were restored.
pub record Shared : Type 0 where
  pub holder : Option ℕ
  pub client_count : ℤ
  pub monitors : List ℕ
  pub linked : List ℕ
  pub restored : ℕ

-- The steps of the thread `n`. `mClientCount++` and `mClientCount--` are a read and a write.
pub data CallStep (n : ℕ) : CallPoint → Shared → CallPoint → Shared → Type 0 where
  ignore : {s : Shared} → CallStep n (registering none) s finished s
  lock :
      {m : ℕ} {s : Shared}
      → s.holder ≡ none
      → CallStep n (registering (some m)) s (checking m) (record s { holder = some n })
  known :
      {m : ℕ} {s : Shared}
      → contains m s.monitors ≡ true
      → CallStep n (checking m) s finished (record s { holder = none })
  read_count :
      {m : ℕ} {s : Shared}
      → contains m s.monitors ≡ false
      → CallStep n (checking m) s (counting m s.client_count) s
  write_count :
      {m : ℕ} {v : ℤ} {s : Shared}
      → CallStep n (counting m v) s (counted m) (record s { client_count = increment v })
  add :
      {m : ℕ} {s : Shared}
      → CallStep n (counted m) s (linking m) (record s { monitors = s.monitors ++ (m ∷ []) })
  -- `linkToDeath` throws for a monitor that is dead, which gives the lock back too.
  link :
      {m : ℕ} {s : Shared} (alive : Bool)
      → CallStep n
          (linking m)
          s
          finished
          (record s { linked = if alive then s.linked ++ (m ∷ []) else s.linked; holder = none })
  unlist :
      {m : ℕ} {s : Shared}
      → CallStep n
          (dying m)
          s
          unlisted
          (record s { monitors = remove m s.monitors; linked = remove m s.linked })
  read_again : {s : Shared} → CallStep n unlisted s (discounting s.client_count) s
  write_again :
      {v : ℤ} {s : Shared}
      → CallStep n (discounting v) s discounted (record s { client_count = decrement v })
  find_zero :
      {s : Shared} → eqb_ℤ (pos 0) s.client_count ≡ true → CallStep n discounted s restoring s
  find_other :
      {s : Shared} → eqb_ℤ (pos 0) s.client_count ≡ false → CallStep n discounted s finished s
  restore : {s : Shared} → CallStep n restoring s finished (record s { restored = suc s.restored })

-- All threads.
pub record CallThreads : Type 0 where
  pub points : ℕ → CallPoint
  pub shared : Shared

abbrev pub moved : ℕ → CallPoint → Shared → CallThreads → CallThreads
moved n p s c = record { points = λ m. if n == m then p else c.points m; shared = s }

pub data AnyCall (c : CallThreads) : CallThreads → Type 0 where
  pick :
      (n : ℕ) {p : CallPoint} {s : Shared}
      → CallStep n (c.points n) c.shared p s
      → AnyCall c (moved n p s c)

pub data AnyCalls (c : CallThreads) : CallThreads → Type 0 where
  stay : AnyCalls c c
  after : {d e : CallThreads} → AnyCalls c d → AnyCall d e → AnyCalls c e
