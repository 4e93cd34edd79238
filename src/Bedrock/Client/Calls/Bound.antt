-- ===== src/Bedrock/Client/Calls/Bound.antt =====
-- Every call of the cache ends: the acts of the calls that are under way are few, and each goroutine
-- in its call has an act.
use k8s_ai_operator.Base.{
  ℕ, zero, suc, ◌+◌, ◌*◌, ◌≤◌, ◌<◌, ◌≡◌, refl, inl, inr, Option, arith, nat_eq, Option-cases,
}
use k8s_ai_operator.Base.Dict
use k8s_ai_operator.Bedrock.Client.{key_eq}
use k8s_ai_operator.Bedrock.Client.Calls.{
  Call, runtime_of, control_of, invalidation, Phase, outside, entered, missed_runtime,
  missed_control, returning, Callers, Event, at, Act, runtime_found, runtime_missed, runtime_locked,
  control_found, control_missed, control_locked, invalidated,
}

-- The acts that a goroutine still has at most.
abbrev left : Phase → ℕ
left outside = 0
left (entered call) = 2
left (missed_runtime key) = 1
left (missed_control key) = 1
left (returning call answer) = 0

-- The same for the goroutines below `n` together.
work : ℕ → (ℕ → Phase) → ℕ
work zero phases = 0
work (suc n) phases = left (phases n) + work n phases

work-le : (n : ℕ) (phases : ℕ → Phase) → work n phases ≤ 2 * n
unfolding work
work-le zero phases = omega arith
work-le (suc n) phases = ground (arith, work-le n phases)

work-at_above :
    (n i : ℕ) (phases : ℕ → Phase) (phase : Phase)
    → n ≤ i
    → work n (at phases i phase) ≡ work n phases
unfolding work
work-at_above zero i phases phase h = refl
work-at_above (suc n) i phases phase h = ground (arith, work-at_above n i phases phase)

work-at :
    (n i : ℕ) (phases : ℕ → Phase) (phase : Phase)
    → i < n
    → work n (at phases i phase) + left (phases i) ≡ work n phases + left phase
unfolding work
work-at zero i phases phase h = absurd (omega arith)
work-at (suc n) i phases phase h =
    ground (arith, work-at n i phases phase, work-at_above n i phases phase)

Act-left :
    {p : Callers} {i : ℕ} {e : Option Event} {q : Callers}
    → Act p i e q
    → (phase : Phase) × (q.phases ≡ at p.phases i phase) × (left phase < left (p.phases i))
Act-left (runtime_found key cl at_look found) = (_, refl, ground arith)
Act-left (runtime_missed key at_look none_found) = (_, refl, ground arith)
Act-left (runtime_locked key at_lock) = (_, refl, ground arith)
Act-left (control_found key cl at_look found) = (_, refl, ground arith)
Act-left (control_missed key at_look none_found) = (_, refl, ground arith)
Act-left (control_locked key at_lock) = (_, refl, ground arith)
Act-left (invalidated key at_look) = (_, refl, ground arith)

-- `k` acts, of goroutines below `n`.
pub data Acts (n : ℕ) (p : Callers) : ℕ → Callers → Type 0 where
  none_yet : Acts n p 0 p
  more :
      {k i : ℕ} {e : Option Event} {q r : Callers}
      → Acts n p k q
      → i < n
      → Act q i e r
      → Acts n p (suc k) r

Acts-work :
    (n : ℕ) (p : Callers) {k : ℕ} {q : Callers}
    → Acts n p k q
    → k + work n q.phases ≤ work n p.phases
Acts-work n p none_yet = omega arith
Acts-work n p (more {k} {i} {e} {q} {r} acts below a) =
    let (phase, same, less) = Act-left a in
    rw same (omega (arith, Acts-work n p acts, work-at n i q.phases phase below))

-- The goroutine is in its call, and has not settled it.
abbrev pub IsBusy : Phase → Type 0
IsBusy outside = ⊥
IsBusy (entered call) = Unit
IsBusy (missed_runtime key) = Unit
IsBusy (missed_control key) = Unit
IsBusy (returning call answer) = ⊥

abbrev pub CanAct : ℕ → Callers → Type 0
CanAct i p = (e : Option Event) × (q : Callers) × Act p i e q

act_of_entered : (p : Callers) (i : ℕ) (call : Call) → p.phases i ≡ entered call → CanAct i p
act_of_entered p i (runtime_of key) at_look = elim (Option-cases (Dict.get key p.client.runtime)) [
  | inl e ↦ (_, _, runtime_missed key at_look e)
  | inr (cl, e) ↦ (_, _, runtime_found key cl at_look e)
]
act_of_entered p i (control_of key) at_look = elim (Option-cases (Dict.get key p.client.control)) [
  | inl e ↦ (_, _, control_missed key at_look e)
  | inr (cl, e) ↦ (_, _, control_found key cl at_look e)
]
act_of_entered p i (invalidation key) at_look = (_, _, invalidated key at_look)

act_of_phase :
    (p : Callers) (i : ℕ) (phase : Phase) → p.phases i ≡ phase → IsBusy phase → CanAct i p
act_of_phase p i outside at_phase busy = absurd busy
act_of_phase p i (entered call) at_phase busy = act_of_entered p i call at_phase
act_of_phase p i (missed_runtime key) at_phase busy = (_, _, runtime_locked key at_phase)
act_of_phase p i (missed_control key) at_phase busy = (_, _, control_locked key at_phase)
act_of_phase p i (returning call answer) at_phase busy = absurd busy

-- The calls that `n` goroutines have under way end under every schedule: they make at most two acts
-- each, so at most `2 * n` together, and until its call is settled each goroutine can act, whatever
-- the others did.
pub Acts-bounded :
    (n : ℕ) (p : Callers) (k : ℕ) (q : Callers)
    → Acts n p k q
    → (k ≤ 2 * n) × ((i : ℕ) → IsBusy (q.phases i) → CanAct i q)
Acts-bounded n p k q acts = (
  omega (arith, Acts-work n p acts, work-le n p.phases),
  λ i busy. act_of_phase q i (q.phases i) refl busy,
)
