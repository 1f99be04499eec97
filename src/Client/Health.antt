-- ===== src/Client/Health.antt =====
-- Endpoints that a client keeps out of use, and their health checks: `healthCheck` and `onHealthCheckResponse` of
-- src/main/cpp/rocketmq/ClientImpl.cpp, and the set of isolated endpoints of ProducerImpl.cpp.
pub mod Round
use rocketmq_client_cpp.Prelude.{
  ◌≡◌, refl, ◌∙◌, Bool, true, false, not, ◌||◌, Option, none, some, List, [], ◌∷◌, ◌++◌, arith, any,
  keep, is_some, if◌then◌else◌, Bool-cases, inl, inr,
}
use rocketmq_client_cpp.Prelude.Text.{Text, text_eq, text_eq_iff, text_eq_refl}
use rocketmq_client_cpp.Types.{ErrorCode}
use rocketmq_client_cpp.Rpc.{Reply, on_health_check}

unfoldable pub is_endpoint_isolated : Text → List Text → Bool
is_endpoint_isolated target isolated = any (λ e. text_eq e target) isolated

unfoldable pub isolate_endpoint : Text → List Text → List Text
unfolding is_endpoint_isolated
isolate_endpoint target isolated =
    if is_endpoint_isolated target isolated then isolated else isolated ++ target ∷ []

-- The hosts that are asked.
unfoldable pub health_check : List Text → List Text
health_check isolated = isolated

unfoldable pub on_health_check_response : Option ErrorCode → Text → List Text → List Text
on_health_check_response (some ec) remote_address isolated = isolated
on_health_check_response none remote_address isolated =
    keep (λ e. not (text_eq e remote_address)) isolated

-- The answers of one host, and of all that are asked.
answered : Text → List (Option ErrorCode) → List Text → List Text
answered host [] isolated = isolated
answered host (ec ∷ answers) isolated =
    answered host answers (on_health_check_response ec host isolated)

answers_of : (Text → Reply) → List Text → List Text → List Text
unfolding answered
answers_of reply [] isolated = isolated
answers_of reply (host ∷ hosts) isolated =
    answers_of reply hosts (answered host (on_health_check (reply host)) isolated)

-- A round: every isolated endpoint is asked, and its answer comes back.
unfoldable pub check_all : (Text → Reply) → List Text → List Text
unfolding answers_of
check_all reply isolated = answers_of reply (health_check isolated) isolated
