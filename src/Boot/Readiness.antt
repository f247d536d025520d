-- ===== src/Boot/Readiness.antt =====
-- internal/boot/boot.go: readiness, and which key set is live after any calls.
use ocu_mcp_gateway.Base.{
  Bool, true, false, List, [], ◌∷◌, ◌++◌, Option, none, some, ok, err, ◌≡◌, ◌↔◌, refl, sym, arith,
  inl, inr, ap, ◌∙◌, All, Any, subst, Bool-cases, eq_of_some, Option-cases,
}
use ocu_mcp_gateway.Boot.{
  Sequencer, Loaded, Call, load_call, refresh_call, step, after, load, refresh, refresh_at, key_set,
}
use ocu_mcp_gateway.Auth.{StaticKeySet}

-- The key set that the loader gives to a call.
pub delivered : Call → Option StaticKeySet
delivered (load_call (ok o)) = o
delivered (load_call (err e)) = none
delivered (refresh_call (ok o)) = o
delivered (refresh_call (err e)) = none

-- A Load that succeeds.
unfoldable pub IsLoad : Call → Type 0
IsLoad (load_call (ok (some ks))) = Unit
IsLoad (load_call (ok none)) = ⊥
IsLoad (load_call (err e)) = ⊥
IsLoad (refresh_call l) = ⊥

-- `ks` came from the newest call that got a key set, and that call or one before it is a Load
-- that succeeded.
pub record LastGood (cs : List (Call)) (ks : StaticKeySet) : Type 0 where
  pub newer : List (Call)
  pub call : Call
  pub older : List (Call)
  pub split : cs ≡ newer ++ (call ∷ older)
  pub source : delivered call ≡ some ks
  pub kept : All (λ c. delivered c ≡ none) newer
  pub loaded : Any IsLoad (call ∷ older)

refresh_at-kept :
    (b : Bool) (l : Loaded) (s : Sequencer)
    → delivered (refresh_call l) ≡ none
    → (refresh_at b l s).0 ≡ s
unfolding delivered
refresh_at-kept false l s e = refl
refresh_at-kept true (ok none) s e = refl
refresh_at-kept true (ok (some ks)) s e = absurd (cc)
refresh_at-kept true (err x) s e = refl

step-kept : (c : Call) (s : Sequencer) → delivered c ≡ none → step c s ≡ s
unfolding step delivered load refresh
step-kept (load_call (ok none)) s e = refl
step-kept (load_call (ok (some ks))) s e = absurd (cc)
step-kept (load_call (err x)) s e = refl
step-kept (refresh_call l) s e = refresh_at-kept s.ready l s e

refresh_at-ready : (b : Bool) (l : Loaded) (s : Sequencer) → ((refresh_at b l s).0).ready ≡ s.ready
refresh_at-ready false l s = refl
refresh_at-ready true (ok none) s = refl
refresh_at-ready true (ok (some ks)) s = refl
refresh_at-ready true (err x) s = refl

pub ready_of_load : (cs : List Call) → Any IsLoad cs → (after cs).ready ≡ true
unfolding after step IsLoad load refresh
ready_of_load [] h = elim h [ ]
ready_of_load (load_call (ok (some ks)) ∷ cs) h = refl
ready_of_load (load_call (ok none) ∷ cs) (inl h) = elim h [ ]
ready_of_load (load_call (ok none) ∷ cs) (inr h) = ready_of_load cs h
ready_of_load (load_call (err e) ∷ cs) (inl h) = elim h [ ]
ready_of_load (load_call (err e) ∷ cs) (inr h) = ready_of_load cs h
ready_of_load (refresh_call l ∷ cs) (inl h) = elim h [ ]
ready_of_load (refresh_call l ∷ cs) (inr h) =
    refresh_at-ready (after cs).ready l (after cs) ∙ ready_of_load cs h

IsLoad-of_ready : (cs : List Call) → (after cs).ready ≡ true → Any IsLoad cs
unfolding after step IsLoad load refresh
IsLoad-of_ready [] e = absurd (cc)
IsLoad-of_ready (load_call (ok (some ks)) ∷ cs) e = inl tt
IsLoad-of_ready (load_call (ok none) ∷ cs) e = inr (IsLoad-of_ready cs e)
IsLoad-of_ready (load_call (err x) ∷ cs) e = inr (IsLoad-of_ready cs e)
IsLoad-of_ready (refresh_call l ∷ cs) e =
    inr (IsLoad-of_ready cs (sym (refresh_at-ready (after cs).ready l (after cs)) ∙ e))

ready_of_served : (s : Sequencer) (ks : StaticKeySet) → key_set s ≡ ok ks → s.ready ≡ true
unfolding key_set
ready_of_served s ks e = elim (Bool-cases s.ready) [
  | inl r ↦ r
  | inr r ↦ absurd (ground (arith, r))
]

refreshed :
    (b : Bool) (o : Option StaticKeySet) (s : Sequencer) (k : StaticKeySet)
    → o ≡ some k
    → s.ready ≡ b
    → ((refresh_at b (ok o) s).0).ready ≡ true
    → key_set ((refresh_at b (ok o) s).0) ≡ ok k
unfolding key_set
refreshed false o s k e r live = absurd (cc)
refreshed true none s k e r live = absurd (cc)
refreshed true (some j) s k e r live = ground (arith, live)

step-given :
    (c : Call) (s : Sequencer) (k : StaticKeySet)
    → delivered c ≡ some k
    → (step c s).ready ≡ true
    → key_set (step c s) ≡ ok k
unfolding key_set step delivered load refresh
step-given (load_call (ok none)) s k e live = absurd (cc)
step-given (load_call (ok (some j))) s k e live = ap ok (eq_of_some e)
step-given (load_call (err x)) s k e live = absurd (cc)
step-given (refresh_call (ok o)) s k e live = refreshed s.ready o s k e refl live
step-given (refresh_call (err x)) s k e live = absurd (cc)

extend :
    (c : Call) (cs : List Call) (ks : StaticKeySet)
    → delivered c ≡ none
    → LastGood cs ks
    → LastGood (c ∷ cs) ks
extend c cs ks e g = record {
  newer = c ∷ g.newer;
  call = g.call;
  older = g.older;
  split = ap (◌∷◌ c) g.split;
  source = g.source;
  kept = (e, g.kept);
  loaded = g.loaded;
}

newest :
    (c : Call) (cs : List Call) (ks : StaticKeySet)
    → delivered c ≡ some ks
    → Any IsLoad (c ∷ cs)
    → LastGood (c ∷ cs) ks
newest c cs ks e l = record {
  newer = [];
  call = c;
  older = cs;
  split = refl;
  source = e;
  kept = tt;
  loaded = l;
}

sound : (cs : List Call) (ks : StaticKeySet) → key_set (after cs) ≡ ok ks → LastGood cs ks
unfolding key_set after
sound [] ks e = absurd (cc)
sound (c ∷ cs) ks e = elim (Option-cases (delivered c)) [
  | inl none_given ↦
      extend c cs ks none_given (sound cs ks (rw (step-kept c (after cs) none_given) at e))
  | inr (k, given) ↦
      let live : (after (c ∷ cs)).ready ≡ true = ready_of_served (after (c ∷ cs)) ks e in
      newest c cs ks (ground (arith, step-given c (after cs) k given live))
        (IsLoad-of_ready (c ∷ cs) live)
]

complete :
    (newer : List Call) (c : Call) (older : List Call) (ks : StaticKeySet)
    → delivered c ≡ some ks
    → All (λ d. delivered d ≡ none) newer
    → Any IsLoad (c ∷ older)
    → key_set (after (newer ++ (c ∷ older))) ≡ ok ks
unfolding key_set after
complete [] c older ks e k l = step-given c (after older) ks e (ready_of_load (c ∷ older) l)
complete (d ∷ newer) c older ks e k l =
    rw (step-kept d (after (newer ++ (c ∷ older))) k.0) (complete newer c older ks e k.1 l)

-- After any calls of Load and Refresh, from a new sequencer: the key set that is served is `ks`
-- exactly if `ks` came from the newest call to which the loader gave a key set, and that call or
-- one before it is a Load that succeeded.
pub served_iff :
    (cs : List Call) (ks : StaticKeySet) → (key_set (after cs) ≡ ok ks) ↔ LastGood cs ks
served_iff cs ks = (
  sound cs ks,
  (λ g.
      subst (λ l. key_set (after l) ≡ ok ks) (sym g.split)
        (complete g.newer g.call g.older ks g.source g.kept g.loaded)),
)

-- After any calls, the gateway is ready exactly if some Load succeeded.
pub ready_iff : (cs : List Call) → ((after cs).ready ≡ true) ↔ Any IsLoad cs
ready_iff cs = (IsLoad-of_ready cs, ready_of_load cs)
