-- ===== src/Throttle/Tests.antt =====
-- Two failed logins, and a login that lifts another account's block.
use meraki_builder.Prelude.{
  ◌-◌, Bool, true, List, [], ◌∷◌, ◌≡◌, refl, arith, bytes_eq, codes, replicate,
}
use meraki_builder.Throttle.Buckets.{
  Bucket, no_bucket, auth_clear_bucket, auth_retry_after_key, delay, fail, auth_record_failure_key,
  auth_bucket_for, scan,
}
use meraki_builder.Throttle.Slots.{hit}
use meraki_builder.Throttle.Refine.{no_count, view}
use meraki_builder.Throttle.Run.{Attempt, run, replay, run_refines}
use meraki_builder.Throttle.Holes.{clear_hides}

abbrev attempts : List Attempt
attempts =
    record { username = codes "root"; peer = codes "10.0.0.1"; now = 10 }
    ∷ record { username = []; peer = codes "10.0.0.1"; now = 20 }
    ∷ []

run_refines_example :
    (view (codes "global") (run attempts (replicate 64 no_bucket))
      ≡ replay attempts (λ k. no_count) (codes "global"))
    × ((auth_retry_after_key (codes "global") 30 (run attempts (replicate 64 no_bucket))).0
        ≡ (replay attempts (λ k. no_count) (codes "global")).blocked_until - 30)
run_refines_example = run_refines attempts (codes "global") 30 (omega arith)

abbrev runs : Bool
unfolding auth_record_failure_key auth_bucket_for scan fail delay bytes_eq auth_retry_after_key
    auth_clear_bucket
runs = true

third_blocks :
    (auth_retry_after_key (codes "global") 40 (
      auth_record_failure_key (codes "global") 30 (
        auth_record_failure_key
          (codes "global")
          20
          (auth_record_failure_key (codes "global") 10 (replicate 64 no_bucket))))).0
    ≡ 490
unfolding runs
third_blocks = refl

abbrev ann : Bucket
ann = record { key = codes "account:ann"; failures = 1; blocked_until = 0; last_seen = 5 }

abbrev bob : Bucket
bob = record { key = codes "account:bob"; failures = 9; blocked_until = 30000; last_seen = 6 }

hit-ann : hit (codes "account:ann") ann ≡ true
unfolding runs
hit-ann = refl

bob_waits : (auth_retry_after_key (codes "account:bob") 100 (ann ∷ bob ∷ [])).0 ≡ 29900
unfolding runs
bob_waits = refl

clear_hides_example :
    (auth_retry_after_key
      (codes "account:bob")
      100
      (auth_clear_bucket (codes "account:ann") (ann ∷ bob ∷ []))).0
    ≡ 0
clear_hides_example =
    clear_hides (codes "account:ann") (codes "account:bob") 100 [] ann (bob ∷ []) tt tt hit-ann
