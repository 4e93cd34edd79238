-- ===== src/Tests/Serving.antt =====
-- A server with a mux that looks for the first pattern, a run of Start, and two boots of the manager.
use k8s_ai_operator.Base.{
  Text, lit, ◌≡◌, refl, ◌⊎◌, inl, inr, Bool, true, Option, none, some, List, [], ◌∷◌, ◌++◌, Any,
  All, Result, ok, err, ◌==◌, text_eq, if◌then◌else◌, arith, cut_prefix, cut_prefix-eq_some,
  Option-cases, sym, ◌||◌, ◌&&◌, is_some, Bool-cases, nat_eq,
}
use k8s_ai_operator.Bedrock.Client.{Config, ambient}
use k8s_ai_operator.Proxy.Http.{http_error}
use k8s_ai_operator.Proxy.Server.{Route, chosen, answered, Mux, serve}
use k8s_ai_operator.Proxy.Server.Laws.{ends_in_slash, Fits, IsMux, IsServed, serve-IsServed}
use k8s_ai_operator.Proxy.Server.Running.{
  Run, started, listen_failed, send, sending, receive, returned, Reach, here, next,
}
use k8s_ai_operator.Proxy.Server.Running.Laws.{IsReason, Reach-IsReason}
use k8s_ai_operator.Manager.{
  default_flags, Environment, Part, readyz_check, Platform, main, exit_code,
}
use k8s_ai_operator.Manager.Laws.{wanted, guardrail_client, Succeeds, main_outcome}
use k8s_ai_operator.Tests.World.{outside, scene, handler, post}

abbrev fits : Text → Text → Bool
fits row path = row == path || (ends_in_slash row && is_some (cut_prefix row path))

-- The first pattern that fits the path.
abbrev first_match : List (Text × Route) → Text → Option Route
first_match [] path = none
first_match (row ∷ table) path = if fits row.0 path then some row.1 else first_match table path

abbrev first_mux : Mux
first_mux table r = elim (first_match table r.path) [
  | some route ↦ chosen route
  | none ↦ answered (http_error (lit "404 page not found") 404)
]

fits-Fits : (row path : Text) → fits row path ≡ true → Fits row path
fits-Fits row path e = elim (text_eq.dec row path) [
  | yes same ↦ inl (sym same)
  | no other ↦ elim (Option-cases (cut_prefix row path)) [
    | inl cut ↦ absurd (ground arith)
    | inr (rest, cut) ↦ inr (ground arith, rest, cut_prefix-eq_some row path rest cut)
  ]
]

first_match-Fits :
    (table : List (Text × Route)) (path : Text) (route : Route)
    → first_match table path ≡ some route
    → Any (λ row. (row.1 ≡ route) × Fits row.0 path) table
first_match-Fits [] path route e = ground arith
first_match-Fits (row ∷ table) path route e = elim (Bool-cases (fits row.0 path)) [
  | inl fit ↦ inl (ground arith, fits-Fits row.0 path fit)
  | inr other ↦ inr (first_match-Fits table path route (rw other at e))
]

first_mux-IsMux : IsMux first_mux
first_mux-IsMux table r route e = first_match-Fits table r.path route (ground arith)

serve-IsServed_example :
    IsServed outside first_mux
      (post (lit "/invoke/team/haiku"))
      scene
      handler
      (serve outside first_mux (post (lit "/invoke/team/haiku")) scene handler).1
serve-IsServed_example =
    serve-IsServed outside first_mux (post (lit "/invoke/team/haiku")) scene handler first_mux-IsMux

-- The listener fails, and Start returns its error.
failed_run : (p : Run) × Reach started p
failed_run = (
  _,
  next
      (next (next here (listen_failed (lit "address in use") refl))
        (send (lit "proxy server: " ++ lit "address in use") refl refl))
      (receive (lit "proxy server: " ++ lit "address in use") refl refl),
)

Reach-IsReason_example :
    ((r : Result (Unit {0}))
      → failed_run.0.starter ≡ returned r
      → IsReason failed_run.0.cancelled r)
    × ((failed_run.0.starter ≡ returned (ok tt)) → failed_run.0.cancelled ≡ true)
    × ((e : Text) → failed_run.0.listener ≡ sending e → failed_run.0.channel ≡ none)
Reach-IsReason_example = Reach-IsReason failed_run.0 failed_run.1

abbrev pub cfg : Config
cfg = record { region = lit "us-east-1"; credentials = ambient }

abbrev pub env : Environment
env = record { operator_role_arn = []; aws_region = [] }

-- Everything succeeds but the readiness check.
abbrev platform : Platform
platform = record {
  new_manager = λ options. ok tt;
  load_config = ok cfg;
  set_up = λ kinds part. elim part [ readyz_check ↦ err (lit "taken") | _ ↦ ok tt ];
  start = λ parts. ok tt;
}

main_outcome_example :
    let parts = wanted default_flags (guardrail_client env cfg) in
    ((main platform default_flags env ≡ (0, parts)) × All (Succeeds platform) parts)
    ⊎ ((done : List Part) × (rest : List Part) × (main platform default_flags env ≡ (1, done))
        × (done ++ rest ≡ parts)
        × (All (Succeeds platform) parts → ⊥))
unfolding exit_code
main_outcome_example = main_outcome platform default_flags env cfg refl refl
