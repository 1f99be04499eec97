-- ===== src/Client/Health/Round.antt =====
-- Which endpoints stay isolated after a round of health checks of ClientImpl.cpp.
use rocketmq_client_cpp.Prelude.{
  ◌≡◌, refl, ap, ◌∙◌, Bool, true, false, not, ◌&&◌, ◌||◌, List, [], ◌∷◌, arith, any, keep,
  Bool-cases, inl, inr, if◌then◌else◌, All, All-map,
}
use rocketmq_client_cpp.Prelude.Text.{Text, text_eq, text_eq_iff, text_eq_refl}
use rocketmq_client_cpp.Rpc.{Reply, on_health_check, Code, ok}
use rocketmq_client_cpp.Client.Health.{
  health_check, on_health_check_response, answered, answers_of, check_all,
}

-- The reply of a host that is well: the call went through, and its code is OK.
abbrev is_ok : Code → Bool
is_ok ok = true
is_ok Code.unauthenticated = false
is_ok Code.permission_denied = false
is_ok Code.invalid_argument = false
is_ok Code.not_found = false
is_ok Code.deadline_exceeded = false
is_ok Code.failed_precondition = false
is_ok Code.internal = false
is_ok Code.resource_exhausted = false
is_ok Code.out_of_range = false
is_ok (Code.other n) = false

abbrev pub passes : Reply → Bool
passes r = r.status_ok && is_ok r.code

answered-passes :
    (host : Text) (r : Reply) (isolated : List Text)
    → answered host (on_health_check r) isolated
      ≡ (if passes r then keep (λ e. not (text_eq e host)) isolated else isolated)
unfolding on_health_check answered on_health_check_response
answered-passes host r isolated = of r.status_ok r.code
  where
    of :
        (status : Bool) (c : Code)
        → answered host (on_health_check (record { status_ok = status; code = c })) isolated
          ≡ (if status && is_ok c then keep (λ e. not (text_eq e host)) isolated else isolated)
    of false c = refl
    of true ok = refl
    of true Code.unauthenticated = refl
    of true Code.permission_denied = refl
    of true Code.invalid_argument = refl
    of true Code.not_found = refl
    of true Code.deadline_exceeded = refl
    of true Code.failed_precondition = refl
    of true Code.internal = refl
    of true Code.resource_exhausted = refl
    of true Code.out_of_range = refl
    of true (Code.other n) = refl

keep-keep : (f g : Text → Bool) (l : List Text) → keep g (keep f l) ≡ keep (λ e. f e && g e) l
keep-keep f g [] = refl
keep-keep f g (e ∷ l) = ground (arith, keep-keep f g l)

keep_congr : (f g : Text → Bool) (l : List Text) → ((e : Text) → f e ≡ g e) → keep f l ≡ keep g l
keep_congr f g [] h = refl
keep_congr f g (e ∷ l) h = rw (h e, keep_congr f g l h) refl

keep_ext : (f g : Text → Bool) (l : List Text) → All (λ e. f e ≡ g e) l → keep f l ≡ keep g l
keep_ext f g [] a = refl
keep_ext f g (e ∷ l) (same, a) = rw (same, keep_ext f g l a) refl

isolated_self : (l : List Text) → All (λ e. any (λ x. text_eq e x) l ≡ true) l
isolated_self [] = tt
isolated_self (e ∷ l) = (
  rw (text_eq_refl e) refl,
  All-map (λ x. any (λ y. text_eq x y) l ≡ true) (λ x. any (λ y. text_eq x y) (e ∷ l) ≡ true)
      (λ x h. ground arith) l (isolated_self l),
)

module _ (reply : Text → Reply) where
  -- Whether an endpoint is dropped when these hosts answer.
  abbrev dropped : List Text → Text → Bool
  dropped hosts e = any (λ host. text_eq e host && passes (reply host)) hosts

  one :
      (host : Text) (hosts isolated : List Text)
      → keep
          (λ e. not (dropped hosts e))
          (if passes (reply host) then keep (λ e. not (text_eq e host)) isolated else isolated)
        ≡ keep (λ e. not (dropped (host ∷ hosts) e)) isolated
  one host hosts isolated = elim (Bool-cases (passes (reply host))) [
    | inl well ↦ rw well (
        keep-keep (λ e. not (text_eq e host)) (λ e. not (dropped hosts e)) isolated
        ∙ keep_congr (λ e. not (text_eq e host) && not (dropped hosts e))
            (λ e. not (text_eq e host && true || dropped hosts e)) isolated (λ e. ground arith))
    | inr ill ↦ rw ill (
        keep_congr (λ e. not (dropped hosts e))
          (λ e. not (text_eq e host && false || dropped hosts e)) isolated (λ e. ground arith))
  ]

  answers_of-dropped :
      (hosts isolated : List Text)
      → answers_of reply hosts isolated ≡ keep (λ e. not (dropped hosts e)) isolated
  unfolding answers_of
  answers_of-dropped [] isolated = keep_all isolated
    where
      keep_all : (l : List Text) → l ≡ keep (λ e. true) l
      keep_all [] = refl
      keep_all (e ∷ l) = ap (λ m. e ∷ m) (keep_all l)
  answers_of-dropped (host ∷ hosts) isolated = rw (answered-passes host (reply host) isolated) (
      answers_of-dropped hosts
        (if passes (reply host) then keep (λ e. not (text_eq e host)) isolated else isolated)
      ∙ one host hosts isolated)

  dropped-le : (hosts : List Text) (e : Text) → dropped hosts e ≡ true → passes (reply e) ≡ true
  dropped-le [] e h = cc
  dropped-le (x ∷ hosts) e h = ground (arith, text_eq_iff e x, dropped-le hosts e)

  -- One of the hosts is dropped exactly when its own reply passes.
  dropped-passes :
      (hosts : List Text) (e : Text)
      → any (λ x. text_eq e x) hosts ≡ true
      → dropped hosts e ≡ passes (reply e)
  dropped-passes [] e h = cc
  dropped-passes (x ∷ hosts) e h =
      ground (arith, text_eq_iff e x, dropped-passes hosts e, dropped-le hosts e)

-- After a round of health checks, in which each isolated endpoint is asked and its reply comes back,
-- the isolated endpoints are those whose reply is not OK.
pub check_all-keep :
    (reply : Text → Reply) (isolated : List Text)
    → check_all reply isolated ≡ keep (λ e. not (passes (reply e))) isolated
unfolding check_all health_check
check_all-keep reply isolated =
    answers_of-dropped reply isolated isolated
    ∙ keep_ext (λ e. not (dropped reply isolated e)) (λ e. not (passes (reply e))) isolated
        (All-map (λ e. any (λ x. text_eq e x) isolated ≡ true)
          (λ e. not (dropped reply isolated e) ≡ not (passes (reply e)))
          (λ e h. ap not (dropped-passes reply isolated e h)) isolated (isolated_self isolated))
