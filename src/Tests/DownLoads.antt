-- ===== src/Tests/DownLoads.antt =====
-- Calls of `startDownLoad` of src/com/android/VRAdmin/VRAdminService.java at the same time.
use vr_admin.Prelude.{ℕ, ◌≡◌, refl, true, false, arith}
use vr_admin.AdminService.Concurrent.DownLoads.{
  loading, pass, set, finish, refuse, DownLoads, DownLoadRun, start, further, UndisturbedRun, stay,
  after, all_arrived, UndisturbedRun-exclusive,
}

-- The call 0 runs its download, and 1 is refused.
one_refused : (d : DownLoads) × UndisturbedRun all_arrived d
one_refused = (
  _,
  after (after (after stay 0 (λ m ne h. ground arith) pass) 0 (λ m ne h. ground arith) set) 1
      (λ m ne h. ground arith) refuse,
)

UndisturbedRun-exclusive_example : (◌≡◌ {A = ℕ} 0 0) × (one_refused.0.running ≡ true)
unfolding one_refused
UndisturbedRun-exclusive_example = UndisturbedRun-exclusive 0 0 one_refused.1 refl refl

-- 0 and 1 both pass the test before either sets `bRunning`: two downloads run at once. When 0 has
-- returned, `bRunning` is false while that of 1 still runs.
two_downloads : (d : DownLoads) × DownLoadRun all_arrived d
two_downloads = (_, further (further (further (further start 0 pass) 1 pass) 0 set) 1 set)

both_loading : (two_downloads.0.points 0 ≡ loading) × (two_downloads.0.points 1 ≡ loading)
unfolding two_downloads
both_loading = (refl, refl)

first_returned : (d : DownLoads) × DownLoadRun all_arrived d
unfolding two_downloads
first_returned = (_, further two_downloads.1 0 finish)

unset_while_loading : (first_returned.0.points 1 ≡ loading) × (first_returned.0.running ≡ false)
unfolding two_downloads first_returned
unset_while_loading = (refl, refl)
