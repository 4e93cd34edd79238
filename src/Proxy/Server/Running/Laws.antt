-- ===== src/Proxy/Server/Running/Laws.antt =====
-- When Start returns, and with what.
use k8s_ai_operator.Base.{
  Text, lit, ◌≡◌, refl, ◌⊎◌, inl, inr, Bool, true, none, some, ◌++◌, Result, ok, err, arith, sym,
  subst,
}
use k8s_ai_operator.Proxy.Server.Running.{
  listening, sending, Starter, selecting, shutting_down, returned, Run, started, shutdown_result,
  Step, listen_failed, listen_closed, send, cancel, receive, context_done, shutdown, Reach, here,
  next,
}

-- The text is that of a failed ListenAndServe.
abbrev pub IsListenError : Text → Type 0
IsListenError e = (cause : Text) × (e ≡ lit "proxy server: " ++ cause)

-- A result of Start with its reason, in a run that was cancelled or not.
abbrev pub IsReason : Bool → Result (Unit {0}) → Type 0
IsReason cancelled result =
    ((e : Text) × (result ≡ err e) × IsListenError e)
    ⊎ ((cancelled ≡ true) × (r : Result (Unit {0})) × (result ≡ shutdown_result r))

-- What holds of every state that a start leads to.
pub record IsSound (p : Run) : Type 0 where
  -- the goroutine sends once, so its place in the channel is free
  pub free_listening : p.listener ≡ listening → p.channel ≡ none
  pub free_sending : (e : Text) → p.listener ≡ sending e → (p.channel ≡ none) × IsListenError e
  pub queued : (e : Text) → p.channel ≡ some e → IsListenError e
  pub stopping : p.starter ≡ shutting_down → p.cancelled ≡ true
  pub reason : (r : Result (Unit {0})) → p.starter ≡ returned r → IsReason p.cancelled r

started-IsSound : IsSound started
started-IsSound = record {
  free_listening = λ h. refl;
  free_sending = λ e h. absurd (ground arith);
  queued = λ e h. absurd (ground arith);
  stopping = λ h. absurd (ground arith);
  reason = λ r h. absurd (ground arith);
}

Step-IsSound : {p q : Run} → Step p q → IsSound p → IsSound q
Step-IsSound (listen_failed e h) v = record {
  free_listening = λ h'. absurd (ground arith);
  free_sending = λ e' h'.
      let same : lit "proxy server: " ++ e ≡ e' = ground arith in
      (v.free_listening h, (e, sym same));
  queued = v.queued;
  stopping = v.stopping;
  reason = v.reason;
}
Step-IsSound (listen_closed h moved) v = record {
  free_listening = λ h'. absurd (ground arith);
  free_sending = λ e' h'. absurd (ground arith);
  queued = v.queued;
  stopping = v.stopping;
  reason = v.reason;
}
Step-IsSound (send e h free) v = record {
  free_listening = λ h'. absurd (ground arith);
  free_sending = λ e' h'. absurd (ground arith);
  queued =
      λ e' h'. let same : e ≡ e' = ground arith in subst IsListenError same (v.free_sending e h).1;
  stopping = v.stopping;
  reason = v.reason;
}
Step-IsSound cancel v = record {
  free_listening = v.free_listening;
  free_sending = v.free_sending;
  queued = v.queued;
  stopping = λ h. refl;
  reason = λ r h. elim (v.reason r h) [
    | inl listened ↦ inl listened
    | inr (_, r', same) ↦ inr (refl, r', same)
  ];
}
Step-IsSound (receive e h full) v = record {
  free_listening = λ h'. refl;
  free_sending = λ e' h'. (refl, (v.free_sending e' h').1);
  queued = λ e' h'. absurd (ground arith);
  stopping = λ h'. absurd (ground arith);
  reason = λ r h'. inl (e, ground arith, v.queued e full);
}
Step-IsSound (context_done h over) v = record {
  free_listening = v.free_listening;
  free_sending = v.free_sending;
  queued = v.queued;
  stopping = λ h'. over;
  reason = λ r h'. absurd (ground arith);
}
Step-IsSound (shutdown r h) v = record {
  free_listening = v.free_listening;
  free_sending = v.free_sending;
  queued = v.queued;
  stopping = λ h'. absurd (ground arith);
  reason = λ r' h'. inr (v.stopping h, r, ground arith);
}

Reach-IsSound : {p : Run} → Reach started p → IsSound p
Reach-IsSound here = started-IsSound
Reach-IsSound (next r s) = Step-IsSound s (Reach-IsSound r)

-- Start returns an error of ListenAndServe, marked as such, or after the context was cancelled what
-- Shutdown returned: never nil without a cancellation. Its goroutine never waits to send.
pub Reach-IsReason :
    (p : Run)
    → Reach started p
    → ((r : Result (Unit {0})) → p.starter ≡ returned r → IsReason p.cancelled r)
      × ((p.starter ≡ returned (ok tt)) → p.cancelled ≡ true)
      × ((e : Text) → p.listener ≡ sending e → p.channel ≡ none)
Reach-IsReason p moves =
    let v = Reach-IsSound moves in
    (
      v.reason,
      λ done. elim (v.reason (ok tt) done) [
        | inl (e, same, _) ↦ absurd (ground arith)
        | inr (over, _, _) ↦ over
      ],
      λ e h. (v.free_sending e h).0,
    )

Reach-before : {p q r : Run} → Step p q → Reach q r → Reach p r
Reach-before s here = next here s
Reach-before s (next moves t) = next (Reach-before s moves) t

-- Some run of the server's own steps ends with Start returned.
abbrev pub CanReturn : Run → Type 0
CanReturn p = (q : Run) × Reach p q × (r : Result (Unit {0})) × (q.starter ≡ returned r)

CanReturn-next : {p q : Run} → Step p q → CanReturn q → CanReturn p
CanReturn-next s (q, moves, r, back) = (q, Reach-before s moves, r, back)

CanReturn-of_stopping : (p : Run) → p.starter ≡ shutting_down → CanReturn p
CanReturn-of_stopping p h = (_, next here (shutdown (ok tt) h), ok tt, refl)

CanReturn-of_queued :
    (p : Run) (e : Text) → p.starter ≡ selecting → p.channel ≡ some e → CanReturn p
CanReturn-of_queued p e h full = (_, next here (receive e h full), err e, refl)

-- What ends the wait of the select: a cancellation, or an error that is sent or about to be.
abbrev pub IsOver : Run → Type 0
IsOver p =
    (p.cancelled ≡ true)
    ⊎ ((e : Text) × (p.listener ≡ sending e))
    ⊎ ((e : Text) × (p.channel ≡ some e))

CanReturn-of_starter :
    (p : Run) (starter : Starter) → IsSound p → IsOver p → p.starter ≡ starter → CanReturn p
CanReturn-of_starter p (returned r) v over h = (p, here, r, h)
CanReturn-of_starter p shutting_down v over h = CanReturn-of_stopping p h
CanReturn-of_starter p selecting v (inl over) h =
    CanReturn-next (context_done h over) (CanReturn-of_stopping _ refl)
CanReturn-of_starter p selecting v (inr (inl (e, sends))) h =
    CanReturn-next (send e sends (v.free_sending e sends).0) (CanReturn-of_queued _ e h refl)
CanReturn-of_starter p selecting v (inr (inr (e, full))) h = CanReturn-of_queued p e h full

-- Start is not stuck: once the context is cancelled or the listener has failed, it can return.
pub Reach-CanReturn : (p : Run) → Reach started p → IsOver p → CanReturn p
Reach-CanReturn p moves over = CanReturn-of_starter p p.starter (Reach-IsSound moves) over refl
