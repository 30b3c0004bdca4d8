-- ===== src/Locks/Tests.antt =====
-- Witnesses for the lock table.
use ecommerce_rest_api.Base.{◌≡◌, none, refl, arith}
use ecommerce_rest_api.Locks.{Locks, acquire_lock, release_lock}
use ecommerce_rest_api.Locks.Exclusion.{quiet, released, acquire_lock-excludes}

abbrev no_locks : Locks
no_locks k = none

abbrev after_grant : Locks
unfolding acquire_lock
after_grant = (acquire_lock "checkout" 30 "a" 5 no_locks).1

abbrev after_release : Locks
unfolding release_lock after_grant
after_release = (release_lock "checkout" "b" after_grant).1

acquire_lock-excludes_example :
    acquire_lock "checkout" 30 "c" 20 after_release ≡ (none, after_release)
unfolding acquire_lock after_grant after_release
acquire_lock-excludes_example =
    acquire_lock-excludes "checkout" 30 "a" 5 no_locks after_grant after_release "a" 30 "c" 20 refl
      (released "checkout" "b" refl quiet) (omega arith)
