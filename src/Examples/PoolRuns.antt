-- ===== src/Examples/PoolRuns.antt =====
-- Tests of the pools, the spin lock and the reputations in server/webbou/pool.go.
use web_bou.Prelude.{string_eq, ℕ, ◌≤◌, ◌≡◌, refl, some, none, List, [], ◌∷◌, length}
use web_bou.Prelude.Int.{negsuc, ltb_ℤ}
use web_bou.Pool.{get_buffer, new_pools}
use web_bou.Pool.Buffers
use web_bou.Pool.Buffers.{class_size, get_buffer-length}
use web_bou.Pool.SpinLock
use web_bou.Pool.SpinLock.{mutual_exclusion}
use web_bou.Pool.Reputation
use web_bou.Pool.Reputation.{get_score, is_bad, expected, is_bad-run}

-- A small and a medium buffer are taken, and nothing is given back.
abbrev takes : List Buffers.Call
takes = Buffers.get 100 none ∷ Buffers.get 5000 (some 0) ∷ []

get_buffer-length_example :
    (length (get_buffer (Buffers.run takes new_pools) 4000 (some 0)).0 ≡ class_size 4000)
    × (4000 ≤ 65536 → 4000 ≤ length (get_buffer (Buffers.run takes new_pools) 4000 (some 0)).0)
get_buffer-length_example = get_buffer-length takes 4000 (some 0) (tt, (tt, tt))

-- One goroutine takes the lock while another one waits.
abbrev taken : SpinLock.System
taken =
    let pc₀ = SpinLock.new_system.pc in
    let pc₁ = SpinLock.update pc₀ 0 SpinLock.spinning in
    let pc₂ = SpinLock.update pc₁ 1 SpinLock.spinning in
    let pc₃ = SpinLock.update pc₂ 0 SpinLock.inside in
    record { locked = 1; pc = SpinLock.update pc₃ 1 SpinLock.spinning }

taken_reached : SpinLock.Reach SpinLock.new_system taken
unfolding SpinLock.compare_and_swap
taken_reached =
    let first = SpinLock.next SpinLock.here (SpinLock.lock 0 refl) in
    let second = SpinLock.next first (SpinLock.lock 1 refl) in
    let third = SpinLock.next second (SpinLock.swap 0 refl) in
    SpinLock.next third (SpinLock.swap 1 refl)

mutual_exclusion_example : ◌≡◌ {A = ℕ} 0 0
mutual_exclusion_example = mutual_exclusion 0 0 taken_reached refl refl

abbrev judged : List Reputation.Call
judged =
    Reputation.failure "10.0.0.1" 9
    ∷ Reputation.success "10.0.0.2" 8
    ∷ Reputation.marked "10.0.0.1"
    ∷ Reputation.success "10.0.0.1" 5
    ∷ []

is_bad-run_example :
    (get_score (Reputation.run judged) "10.0.0.1" ≡ expected "10.0.0.1" judged)
    × (is_bad (Reputation.run judged) "10.0.0.1" ≡ ltb_ℤ (expected "10.0.0.1" judged) (negsuc 9))
is_bad-run_example = is_bad-run "10.0.0.1" judged
