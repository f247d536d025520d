-- ===== src/Ingress/Server/Health.antt =====
-- internal/ingress/readiness.go and cmd/ocu-mcp-gatewayd/healthcheck.go: what a probe of the
-- daemon tells of its boot.
use ocu_mcp_gateway.Base.{
  ℕ, ◌≡◌, ◌≢◌, ◌↔◌, refl, sym, ap, ◌∙◌, Bool, true, false, List, [], ◌∷◌, Option, none, some,
  eq_of_some, if◌then◌else◌, Str, codes, str_eq, ok, Bool-cases, Any, inl, inr,
}
use ocu_mcp_gateway.Boot.{Sequencer, Call, after}
use ocu_mcp_gateway.Boot.Readiness.{IsLoad, ready_iff}
use ocu_mcp_gateway.Ingress.Exchange.{Env, Request, Effect}
use ocu_mcp_gateway.Ingress.Server.{
  ReadinessMux, Answer, plain, served, new_readiness_mux, serve_mux, healthz_path,
  health_check_probe, probe_url, probed,
}

-- The status line of an answer that the mux gives itself.
abbrev pub status_of : Answer → Option ℕ
status_of (plain status body) = some status
status_of (served es) = none

abbrev pub is_ready : Sequencer → Bool
is_ready s = s.ready

healthz_status :
    (m : ReadinessMux) (s : Sequencer) (env : Env) (r : Request)
    → status_of (serve_mux m s healthz_path env r) ≡ some (if m.ready s then 200 else 503)
unfolding serve_mux codes str_eq
healthz_status m s env r = elim (Bool-cases (m.ready s)) [ inl up ↦ rw up | inr down ↦ rw down ]

probed_iff : (up : Bool) → (probed (some (if up then 200 else 503)) ≡ ok tt) ↔ (up ≡ true)
probed_iff true = ((λ e. refl), λ e. refl)
probed_iff false = ((λ e. absurd (cc)), λ e. absurd (cc))

probe_at :
    (get : Str → Option ℕ) (addr : Str) (up : Bool)
    → get (probe_url addr) ≡ some (if up then 200 else 503)
    → (health_check_probe get addr ≡ ok tt) ↔ ((addr ≢ []) × (up ≡ true))
unfolding health_check_probe
probe_at get [] up e = ((λ h. absurd (cc)), λ h. absurd (h.0 refl))
probe_at get (c ∷ s) up e = (
  (λ h. ((λ f. absurd (cc)), (probed_iff up).0 (ap probed (sym e) ∙ h))),
  (λ h. ap probed e ∙ (probed_iff up).1 h.1),
)

-- After any calls of Load and Refresh, where a GET of the probe's URL has the status that the mux of
-- the daemon answers: the health check succeeds exactly if it is given an address and some
-- Load succeeded.
pub probe_iff :
    (cs : List Call) (mcp : Env → Request → List Effect) (m : ReadinessMux) (env : Env)
    (r : Request) (get : Str → Option ℕ) (addr : Str)
    → new_readiness_mux (some mcp) (some is_ready) ≡ some m
    → get (probe_url addr) ≡ status_of (serve_mux m (after cs) healthz_path env r)
    → (health_check_probe get addr ≡ ok tt) ↔ ((addr ≢ []) × Any IsLoad cs)
unfolding health_check_probe new_readiness_mux
probe_iff cs mcp m env r get addr built answered =
    let same : m.ready (after cs) ≡ (after cs).ready =
      ap (λ n. n.ready (after cs)) (sym (eq_of_some built)) in
    let (to, from) = probe_at get addr (after cs).ready (
      answered
      ∙ healthz_status m (after cs) env r
      ∙ ap (λ b. some (if b then 200 else 503)) same) in
    ((λ h. ((to h).0, (ready_iff cs).0 (to h).1)), λ h. from (h.0, (ready_iff cs).1 h.1))
