-- ===== src/Helper/Tests.antt =====
-- Runs of the helper (apps/runtime-helper/src/lib.rs) on a Docker whose one container is healthy.
use nopager.Prelude.{
  ℕ, ◌+◌, ◌≤◌, true, false, ◌≡◌, refl, arith, none, some, [], ◌∷◌, Text, text, text_eq, length, ok,
}
use nopager.Protocol.{
  ContainerState, RuntimeRequest, RuntimeResponse, restart_request, running, peer_not_allowed,
}
use nopager.Helper.Config.{HelperConfig}
use nopager.Helper.Backend.{RuntimeBackend}
use nopager.Helper.Journal.{
  ClaimFault, CompleteFault, claim, complete, file_at, put_file, readable, complete_record,
}
use nopager.Helper.Journal.Laws.{claimed}
use nopager.Helper.Executor.{RuntimeExecutor, handle}
use nopager.Helper.Executor.Inspection.{inspect_enrolled, check_target, option_text_eq}
use nopager.Helper.Executor.Inspection.Laws.{IsEnrolled, inspect_enrolled-IsEnrolled}
use nopager.Helper.Executor.Restart.{Faults, HelperState, restart}
use nopager.Helper.Executor.Once.{
  Delivery, IsAuthorised, fresh, handle_all, restarts_of, restart_at_most_once, restart_authority,
  not_started_is_true, success_is_one_restart, repeat_is_answered_from_journal,
}

run_helper : Unit {0}
unfolding handle handle_all restart claim complete complete_record file_at put_file inspect_enrolled
    check_target option_text_eq text_eq running
run_helper = tt

abbrev target : Text
target = text "aaaaaaaaaaaaaaaaaaaaaaaaaaaaaaaaaaaaaaaaaaaaaaaaaaaaaaaaaaaaaaaa"

abbrev app : ContainerState
app = record {
  id = target;
  name = text "customer-app";
  status = text "running";
  compose_project = some (text "customer");
  compose_service = none;
  nopager_control_plane = false;
}

-- The world counts the restarts.
abbrev docker : RuntimeBackend ℕ
docker = record {
  daemon_available = λ w. (ok tt, w);
  inspect = λ _ w. (ok app, w);
  restart_exact = λ _ w. (ok tt, w + 1);
}

abbrev config : HelperConfig
config = record {
  protocol_version = 1;
  allowed_peer_uid = 10001;
  control_plane_compose_project = text "nopager";
  enrolled_target = record {
    id = target;
    name = text "customer-app";
    compose_project = some (text "customer");
  };
  denied_container_ids = [];
}

abbrev executor : RuntimeExecutor
executor = record { config = config; credential_digest = 6 }

abbrev no_faults : Faults
no_faults = record { on_claim = ClaimFault.fine; on_complete = CompleteFault.fine }

abbrev ask : RuntimeRequest
ask = restart_request 7 (text "secret") target

abbrev deliver : Delivery
deliver = record { peer_uid = 10001; request = ask; faults = no_faults }

restart_twice : (handle_all docker length executor (deliver ∷ deliver ∷ []) (fresh 0)).world ≡ 1
unfolding run_helper
restart_twice = refl

restart_at_most_once_example :
    restarts_of 7 (handle_all docker length executor (deliver ∷ deliver ∷ []) (fresh 0)).restarts
    ≤ 1
restart_at_most_once_example =
    restart_at_most_once docker length executor (deliver ∷ deliver ∷ []) 0 7

abbrev first : RuntimeResponse × HelperState ℕ
first = handle docker length executor no_faults 10001 ask (fresh 0)

restart_authority_example :
    IsAuthorised docker length executor 10001 ask
    × (first.1.restarts ≡ (7, target) ∷ [])
    × (claimed 7 [] ≡ false)
    × ((seen : ContainerState) × ((inspect_enrolled docker config 0).0 ≡ ok seen)
        × IsEnrolled config seen)
unfolding run_helper
restart_authority_example =
    restart_authority docker length executor no_faults 10001 ask (fresh 0) (ground arith)

inspect_enrolled-IsEnrolled_example : IsEnrolled config app
unfolding run_helper
inspect_enrolled-IsEnrolled_example = inspect_enrolled-IsEnrolled docker config 0 refl

not_started_is_true_example :
    (handle docker length executor no_faults 0 ask (fresh 0)).1.restarts ≡ []
unfolding run_helper
not_started_is_true_example =
    not_started_is_true docker length executor no_faults 0 ask (fresh 0) {code = peer_not_allowed}
      {m = "Unix peer uid is not enrolled"} refl refl

success_is_one_restart_example :
    (first.1.restarts ≡ (7, target) ∷ [])
    × (file_at 7 first.1.journal ≡ some (readable (complete_record 7 target first.0)))
unfolding run_helper
success_is_one_restart_example =
    success_is_one_restart docker length executor no_faults 10001 ask (fresh 0) {before = app}
      {after = app} refl refl

repeat_is_answered_from_journal_example :
    handle docker length executor no_faults 10001 ask first.1
    ≡ (record (first.0) { duplicate = true }, first.1)
unfolding run_helper
repeat_is_answered_from_journal_example =
    repeat_is_answered_from_journal docker length executor no_faults no_faults 10001 ask (fresh 0)
      {before = app} {after = app} refl refl (λ e. cc)
