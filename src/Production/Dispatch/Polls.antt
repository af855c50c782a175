-- ===== src/Production/Dispatch/Polls.antt =====
-- The jobs that the production handlers enqueue have fewer steps left: apps/worker/src/main.rs and
-- source_recovery.rs.
use nopager.Prelude.{ℕ, ◌+◌, ◌-◌, ◌<◌, ◌≡◌, refl, arith, some, Text, text, text_eq, Option, Bool}
use nopager.Connectors.Vercel.{is_text}
use nopager.Production.Site.{attempt_payload}
use nopager.Production.Rollback.{rollback_payload}
use nopager.Production.Promotion.{watch_payload}
use nopager.Production.Revert.{revert_payload, recovery_payload}
use nopager.Production.Dispatch.{ProductionHandler, route}
use nopager.Production.Dispatch.Measure.{IsBelow, steps_left}
use nopager.Store.Schema.{Payload, RevertIdentity}

IsBelow-of :
    (n : ℕ) (job_type : Text) (payload : Payload) (handler : ProductionHandler)
    → route job_type payload ≡ some handler
    → steps_left handler payload < n
    → IsBelow n job_type payload
IsBelow-of n job_type payload handler r h = record { fewer = λ e. grind arith }

module _ (incident attempt : ℕ) where
  pub cleanup-IsBelow : (n : ℕ) → IsBelow n (text "cleanup") (attempt_payload incident attempt)
  unfolding route text_eq is_text
  cleanup-IsBelow n = record { fewer = λ e. absurd (ground arith) }

  pub rollback-IsBelow :
      (n : ℕ) (merged : Option Bool) (expected : Option Text)
      → 4000 < n
      → IsBelow n (text "production-action") (rollback_payload incident attempt merged expected)
  unfolding route text_eq is_text
  rollback-IsBelow n merged expected h =
      IsBelow-of n (text "production-action") (rollback_payload incident attempt merged expected)
        ProductionHandler.rollback_action refl (omega (arith, h))

  pub first_rollback_check-IsBelow :
      (n : ℕ) (merged : Option Bool)
      → 3061 < n
      → IsBelow n (text "verify") (record (attempt_payload incident attempt) {
        phase = some (text "rollback");
        source_repair_merged = merged;
      })
  unfolding route text_eq is_text
  first_rollback_check-IsBelow n merged h =
      IsBelow-of n (text "verify")
        (record (attempt_payload incident attempt) {
          phase = some (text "rollback");
          source_repair_merged = merged;
        })
        ProductionHandler.rolled_back_production refl (omega (arith, h))

  pub rollback_poll-IsBelow :
      (n : ℕ) (poll : ℕ) (merged : Option Bool)
      → 3000 + (61 - poll) < n
      → IsBelow n (text "verify") (record (attempt_payload incident attempt) {
        phase = some (text "rollback");
        poll = some poll;
        source_repair_merged = merged;
      })
  unfolding route text_eq is_text
  rollback_poll-IsBelow n poll merged h =
      IsBelow-of n (text "verify")
        (record (attempt_payload incident attempt) {
          phase = some (text "rollback");
          poll = some poll;
          source_repair_merged = merged;
        })
        ProductionHandler.rolled_back_production refl (omega (arith, h))

  pub first_promotion_check-IsBelow :
      (n : ℕ)
      → 9061 < n
      → IsBelow n
          (text "verify")
          (record (attempt_payload incident attempt) { phase = some (text "production") })
  unfolding route text_eq is_text
  first_promotion_check-IsBelow n h =
      IsBelow-of n (text "verify")
        (record (attempt_payload incident attempt) { phase = some (text "production") })
        ProductionHandler.promoted_production refl (omega (arith, h))

  pub promotion_poll-IsBelow :
      (n : ℕ) (poll : ℕ)
      → 9000 + (61 - poll) < n
      → IsBelow n (text "verify") (record (attempt_payload incident attempt) {
        phase = some (text "production");
        poll = some poll;
      })
  unfolding route text_eq is_text
  promotion_poll-IsBelow n poll h =
      IsBelow-of n (text "verify")
        (record (attempt_payload incident attempt) {
          phase = some (text "production");
          poll = some poll;
        })
        ProductionHandler.promoted_production refl (omega (arith, h))

  pub watch-IsBelow :
      (n : ℕ) (check : ℕ) (id sha : Text)
      → 8000 + (3 - check) < n
      → IsBelow n
          (text "post-deploy-watch")
          (watch_payload incident attempt check (text "promoted-production") id sha)
  unfolding route text_eq is_text
  watch-IsBelow n check id sha h =
      IsBelow-of n (text "post-deploy-watch")
        (watch_payload incident attempt check (text "promoted-production") id sha)
        ProductionHandler.watch_promoted refl (omega (arith, h))

  pub landing-IsBelow :
      (n : ℕ) (poll : ℕ)
      → 7000 + (61 - poll) < n
      → IsBelow n (text "production-action") (record (attempt_payload incident attempt) {
        action = some (text "land-repair");
        poll = some poll;
      })
  unfolding route text_eq is_text
  landing-IsBelow n poll h =
      IsBelow-of n (text "production-action")
        (record (attempt_payload incident attempt) {
          action = some (text "land-repair");
          poll = some poll;
        })
        ProductionHandler.land_repair refl (omega (arith, h))

  pub durable_check-IsBelow :
      (n : ℕ) (id sha : Text)
      → 6000 < n
      → IsBelow n (text "verify") (record (attempt_payload incident attempt) {
        phase = some (text "durable-production");
        production_deployment_id = some id;
        production_commit_sha = some sha;
      })
  unfolding route text_eq is_text
  durable_check-IsBelow n id sha h =
      IsBelow-of n (text "verify")
        (record (attempt_payload incident attempt) {
          phase = some (text "durable-production");
          production_deployment_id = some id;
          production_commit_sha = some sha;
        })
        ProductionHandler.durable_production refl (omega (arith, h))

  pub durable_watch-IsBelow :
      (n : ℕ) (check : ℕ) (id sha : Text)
      → 5000 + (3 - check) < n
      → IsBelow n
          (text "post-deploy-watch")
          (watch_payload incident attempt check (text "durable-production") id sha)
  unfolding route text_eq is_text
  durable_watch-IsBelow n check id sha h =
      IsBelow-of n (text "post-deploy-watch")
        (watch_payload incident attempt check (text "durable-production") id sha)
        ProductionHandler.watch_durable refl (omega (arith, h))

module _ (incident : ℕ) (identity : RevertIdentity) where
  pub review-IsBelow :
      (n : ℕ) (poll : ℕ)
      → 100 + (2016 - poll) < n
      → IsBelow n
          (text "verify")
          (record (revert_payload incident identity "source-revert-review") { poll = some poll })
  unfolding route text_eq is_text
  review-IsBelow n poll h =
      IsBelow-of n (text "verify")
        (record (revert_payload incident identity "source-revert-review") { poll = some poll })
        ProductionHandler.source_revert_review refl (omega (arith, h))

  pub recovery-IsBelow :
      (n : ℕ) (poll : ℕ) (sha : Text)
      → 10 + (61 - poll) < n
      → IsBelow n
          (text "verify")
          (record (recovery_payload incident identity sha) { poll = some poll })
  unfolding route text_eq is_text
  recovery-IsBelow n poll sha h =
      IsBelow-of n (text "verify")
        (record (recovery_payload incident identity sha) { poll = some poll })
        ProductionHandler.source_recovery_production refl (omega (arith, h))

  pub recovery_watch-IsBelow :
      (n : ℕ) (check : ℕ) (id sha : Text)
      → 3 - check < n
      → IsBelow n (text "post-deploy-watch") (record (recovery_payload incident identity sha) {
        check = some check;
        production_deployment_id = some id;
        production_commit_sha = some sha;
      })
  unfolding route text_eq is_text
  recovery_watch-IsBelow n check id sha h =
      IsBelow-of n (text "post-deploy-watch")
        (record (recovery_payload incident identity sha) {
          check = some check;
          production_deployment_id = some id;
          production_commit_sha = some sha;
        })
        ProductionHandler.watch_source_recovery refl (omega (arith, h))
