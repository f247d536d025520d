-- ===== src/Daemon/Stages.antt =====
-- cmd/ocu-mcp-gatewayd/main.go: what each stage of `serve` returned, where the listener is bound.
use ocu_mcp_gateway.Base.{
  ◌≡◌, true, not, refl, subst, ok, bind_ok, refuse_if, refuse_if_ok, eq_of_ok, arith,
}
use ocu_mcp_gateway.Daemon.{
  Host, Daemon, check_options, load_boot_set, build_forwarder, load_policy, open_sink, serve,
  no_validator, not_ready, not_bound,
}
use ocu_mcp_gateway.Options.{Options}

pub record Stages (h : Host) (o : Options) (d : Daemon) : Type 0 where
  pub options : check_options o ≡ ok tt
  pub booted : load_boot_set h o ≡ ok d.sequencer
  pub forwarder : build_forwarder h o ≡ ok (d.credential, d.forwarder)
  pub policy : load_policy h o ≡ ok d.policy
  pub sink : open_sink h o ≡ ok d.sink
  pub ready : d.sequencer.ready ≡ true
  pub listening : h.listen o.listen_addr ≡ true
  pub interval : d.interval ≡ o.refresh_interval

pub serve-Stages : (h : Host) (o : Options) (d : Daemon) → serve h o ≡ ok d → Stages h o d
unfolding serve
serve-Stages h o d e =
    let (u, options, e1) = bind_ok (check_options o) e in
    let (s, booted, e2) = bind_ok (load_boot_set h o) e1 in
    let (v, schema, e3) = bind_ok (refuse_if (not h.validator_builds) no_validator) e2 in
    let (built, forwarder, e4) = bind_ok (build_forwarder h o) e3 in
    let (policy, loaded, e5) = bind_ok (load_policy h o) e4 in
    let (sink, opened, e6) = bind_ok (open_sink h o) e5 in
    let (w, ready, e7) = bind_ok (refuse_if (not s.ready) not_ready) e6 in
    let (x, listening, e8) = bind_ok (refuse_if (not (h.listen o.listen_addr)) not_bound) e7 in
    subst (Stages h o) (eq_of_ok refl e8) (record {
      options = options;
      booted = booted;
      forwarder = forwarder;
      policy = loaded;
      sink = opened;
      ready = ground (arith, refuse_if_ok (not s.ready) not_ready ready);
      listening = ground (arith, refuse_if_ok (not (h.listen o.listen_addr)) not_bound listening);
      interval = refl;
    })
