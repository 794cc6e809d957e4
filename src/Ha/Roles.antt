-- ===== src/Ha/Roles.antt =====
-- The role over any sequence of calls.
use nimblefix.Common.{
  ℕ, ◌-◌, ◌/◌, ◌%◌, ◌^◌, ◌≡◌, ◌⊎◌, inl, inr, refl, sym, subst, Bool-cases, arith, Bool, true, false,
  List, [], ◌∷◌, length, All, ◌==◌, if◌then◌else◌,
}
use nimblefix.Status.{ok}
use nimblefix.Ha.{
  HaRole, primary, standby, HaConfig, HaController, configure, start, stop, change_role,
  promote_to_primary, demote_to_standby, record_peer_heartbeat, check_health, classify, same_role,
  dead, new_controller, heartbeat_ns,
}
use nimblefix.Ha.Replication.{apply_snapshot}
use nimblefix.Ha.Step.{
  HaCall, configures, starts, stops, promotes, demotes, beats, checks, applies, ha_step, ha_run,
}

-- Reported changes, the latest first, that lead from `first` to `last` between primary and standby.
abbrev pub Leads : HaRole → HaRole → List (HaRole × HaRole) → Type 0
Leads first last [] = first ≡ last
Leads first last ((old, new) ∷ earlier) =
    (new ≡ last)
    × (((old ≡ primary) × (new ≡ standby)) ⊎ ((old ≡ standby) × (new ≡ primary)))
    × Leads first old earlier

-- A controller configured with the role `first` whose changes since are all in `role_changes`.
pub record FollowsFrom (first : HaRole) (c : HaController) : Type 0 where
  pub leads : Leads first c.role c.role_changes
  pub counted : c.generation ≡ length c.role_changes % 2 ^ 64

abbrev pub is_configuring : HaCall → Bool
is_configuring (configures config) = true
is_configuring _ = false

-- A change between the two roles of a pair, when the current role is the expected one.
abbrev IsSwap : HaRole → HaRole → Type 0
IsSwap old new = ((old ≡ primary) × (new ≡ standby)) ⊎ ((old ≡ standby) × (new ≡ primary))

same_role_lem : (a b : HaRole) → same_role a b ≡ true → a ≡ b
same_role_lem a b h = ground arith

change_role-Leads :
    (first expected desired : HaRole) (c : HaController)
    → IsSwap expected desired
    → Leads first c.role c.role_changes
    → Leads first
        (change_role c expected desired).0.role
        (change_role c expected desired).0.role_changes
unfolding change_role
change_role-Leads first expected desired c swap h = elim (Bool-cases (same_role c.role expected)) [
  | inl e ↦ rw e (refl, subst (λ old. IsSwap old desired) (sym (same_role_lem _ _ e)) swap, h)
  | inr e ↦ rw e h
]

change_role-counted :
    (expected desired : HaRole) (c : HaController)
    → c.generation ≡ length c.role_changes % 2 ^ 64
    → (change_role c expected desired).0.generation
      ≡ length (change_role c expected desired).0.role_changes % 2 ^ 64
unfolding change_role
change_role-counted expected desired c h = ground arith

change_role-FollowsFrom :
    (first expected desired : HaRole) (c : HaController)
    → IsSwap expected desired
    → FollowsFrom first c
    → FollowsFrom first (change_role c expected desired).0
change_role-FollowsFrom first expected desired c swap h = record {
  leads = change_role-Leads first expected desired c swap h.leads;
  counted = change_role-counted expected desired c h.counted;
}

-- A call that touches neither the role nor its history keeps the relation.
abbrev KeepsRole : HaController → HaController → Type 0
KeepsRole c d =
    (d.role ≡ c.role) × (d.role_changes ≡ c.role_changes) × (d.generation ≡ c.generation)

keeps-FollowsFrom :
    (first : HaRole) (c d : HaController)
    → KeepsRole c d
    → FollowsFrom first c
    → FollowsFrom first d
keeps-FollowsFrom first c d k h = record {
  leads = rw (k.0, k.1) h.leads;
  counted = rw (k.1, k.2) h.counted;
}

classify-KeepsRole :
    (c : HaController) (missed : ℕ)
    → KeepsRole c (classify c missed)
      ⊎ (classify c missed ≡ (promote_to_primary (record c { peer_state = dead })).0)
unfolding classify promote_to_primary change_role
classify-KeepsRole c missed = ground arith

-- The local variable `missed` of `CheckHealth`.
abbrev pub missed_at : ℕ → HaController → ℕ → ℕ
missed_at clock c now_ns =
    ((if now_ns == 0 then clock else now_ns) - c.last_peer_heartbeat_ns) / heartbeat_ns c.config

check_health-KeepsRole :
    (clock : ℕ) (c : HaController) (now_ns : ℕ)
    → KeepsRole c (check_health clock c now_ns)
      ⊎ (check_health clock c now_ns ≡ classify c (missed_at clock c now_ns))
unfolding check_health
check_health-KeepsRole clock c now_ns = ground arith

classify-FollowsFrom :
    (first : HaRole) (c : HaController) (missed : ℕ)
    → FollowsFrom first c
    → FollowsFrom first (classify c missed)
unfolding promote_to_primary
classify-FollowsFrom first c missed h = elim (classify-KeepsRole c missed) [
  | inl k ↦ keeps-FollowsFrom first c _ k h
  | inr e ↦ rw e (
      change_role-FollowsFrom first standby primary (record c { peer_state = dead })
        (inr (refl, refl))
        (keeps-FollowsFrom first c (record c { peer_state = dead }) (refl, refl, refl) h))
]

check_health-FollowsFrom :
    (first : HaRole) (clock : ℕ) (c : HaController) (now_ns : ℕ)
    → FollowsFrom first c
    → FollowsFrom first (check_health clock c now_ns)
check_health-FollowsFrom first clock c now_ns h = elim (check_health-KeepsRole clock c now_ns) [
  | inl k ↦ keeps-FollowsFrom first c _ k h
  | inr e ↦ rw e (classify-FollowsFrom first c (missed_at clock c now_ns) h)
]

step-FollowsFrom :
    (first : HaRole) (c : HaController) (call : HaCall)
    → is_configuring call ≡ false
    → FollowsFrom first c
    → FollowsFrom first (ha_step c call)
unfolding ha_step promote_to_primary demote_to_standby start stop record_peer_heartbeat
    apply_snapshot
step-FollowsFrom first c (configures config) q h = absurd (ground arith)
step-FollowsFrom first c starts q h = keeps-FollowsFrom first c _ (ground arith) h
step-FollowsFrom first c stops q h = keeps-FollowsFrom first c _ (refl, refl, refl) h
step-FollowsFrom first c promotes q h =
    change_role-FollowsFrom first standby primary c (inr (refl, refl)) h
step-FollowsFrom first c demotes q h =
    change_role-FollowsFrom first primary standby c (inl (refl, refl)) h
step-FollowsFrom first c (beats clock timestamp_ns) q h =
    keeps-FollowsFrom first c _ (refl, refl, refl) h
step-FollowsFrom first c (checks clock now_ns) q h = check_health-FollowsFrom first clock c now_ns h
step-FollowsFrom first c (applies booted snapshot) q h =
    keeps-FollowsFrom first c _ (ground arith) h

pub run-FollowsFrom :
    (first : HaRole) (c : HaController) (calls : List HaCall)
    → All (λ call. is_configuring call ≡ false) calls
    → FollowsFrom first c
    → FollowsFrom first (ha_run c calls)
unfolding ha_run
run-FollowsFrom first c [] q h = h
run-FollowsFrom first c (call ∷ calls) q h =
    run-FollowsFrom first (ha_step c call) calls (q.1) (step-FollowsFrom first c call (q.0) h)

configure-FollowsFrom :
    (config : HaConfig)
    → (configure new_controller config).1 ≡ ok tt
    → FollowsFrom config.initial_role (configure new_controller config).0
unfolding configure new_controller
configure-FollowsFrom config accepted =
    let e : ((configure new_controller config).0.role ≡ config.initial_role)
        × ((configure new_controller config).0.role_changes ≡ [])
        × ((configure new_controller config).0.generation ≡ 0) =
      ground arith in
    record { leads = rw (e.0, e.1) refl; counted = rw (e.1, e.2) refl }

-- After a first configuration that is accepted, and any calls but another configuration, the
-- reported role changes lead one into the next from the configured role to the current one, each
-- between primary and standby, and the generation is their number modulo 2 ^ 64.
pub run-configured-FollowsFrom :
    (config : HaConfig) (calls : List HaCall)
    → (configure new_controller config).1 ≡ ok tt
    → All (λ call. is_configuring call ≡ false) calls
    → let c = ha_run (configure new_controller config).0 calls in
      Leads config.initial_role c.role c.role_changes
      × (c.generation ≡ length c.role_changes % 2 ^ 64)
run-configured-FollowsFrom config calls accepted q =
    let h =
      run-FollowsFrom config.initial_role (configure new_controller config).0 calls q
        (configure-FollowsFrom config accepted) in
    (h.leads, h.counted)
